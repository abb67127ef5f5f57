-- ===== src/Prelude/Texts.antt =====
-- Texts and file paths. A text is the list of its code points. A path is the list of its
-- components, so that `Path::join` of a relative path is `++` and a path below a root is
-- `root ++ relative_path`.
use Prim.Native.Nat.{ℕ}
use Prim.Native.Char.{code}
use Prim.Native.String.{String}
use mathlib.Core.Bool.{Bool, true, false, ◌&&◌}
use mathlib.Core.List.{List, [], ◌∷◌, ◌++◌, map}
use mathlib.Core.Option.{Option, none, some}
use vibe_caravan.Prelude.Tests.{Eq, nat_eq, list_eq, nat_beq, ◌==◌, if◌then◌else◌}

abbrev pub Text : Type 0
Text = List ℕ

abbrev pub text : String → Text
text String.[] = []
text (String.◌∷◌ c s) = code c ∷ text s

abbrev pub FilePath : Type 0
FilePath = List Text

-- `root.join(relative_path)`.
abbrev pub join : FilePath → FilePath → FilePath
join root rel = root ++ rel

-- `path.parent()`, with the empty path where there is none.
abbrev pub parent : FilePath → FilePath
parent [] = []
parent (c ∷ []) = []
parent (c ∷ d ∷ rest) = c ∷ parent (d ∷ rest)

-- `path.file_name()`.
abbrev pub file_name : FilePath → Option Text
file_name [] = none
file_name (c ∷ []) = some c
file_name (c ∷ d ∷ rest) = file_name (d ∷ rest)

instance unfoldable pub text_eq : Eq Text
text_eq = list_eq

instance unfoldable pub path_eq : Eq FilePath
unfolding text_eq
path_eq = list_eq ⦃e = text_eq⦄

-- `str::starts_with` and `str::ends_with`.
unfoldable pub text_starts_with : Text → Text → Bool
text_starts_with t [] = true
text_starts_with [] (c ∷ p) = false
text_starts_with (d ∷ t) (c ∷ p) = nat_beq d c && text_starts_with t p

unfoldable pub text_ends_with : Text → Text → Bool
unfolding text_eq
text_ends_with [] p = [] == p
text_ends_with (c ∷ t) p =
    let shorter = text_ends_with t p in if (c ∷ t) == p then true else shorter

-- `str::replace('\\', "/")`.
unfoldable pub backslash_to_slash : Text → Text
backslash_to_slash t = map (λ c. if nat_beq c 92 then 47 else c) t
