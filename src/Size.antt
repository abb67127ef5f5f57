-- ===== src/Size.antt =====
-- src/size.rs: sizes with binary units on the command line.
use vibe_caravan.Prelude.{
  ℕ, ◌+◌, ◌-◌, ◌*◌, ◌^◌, ◌≤◌, ◌≡◌, ◌⊎◌, inl, inr, Bool, ◌&&◌, ◌||◌, Option, none, some, [], ◌∷◌,
  arith, Text, text, text_eq, ◌==◌, leb, if◌then◌else◌, is_empty, trim, to_ascii_lowercase, u64_max,
  Option-cases,
}

pub data SizeParseError : Type 0 where
  empty missing_digits invalid_numeric_part unsupported_unit too_large : SizeParseError

abbrev is_ascii_digit : ℕ → Bool
is_ascii_digit c = leb 48 c && leb c 57

-- `raw.split_at` of the position of the first character that is no digit.
unfoldable pub split_digits : Text → Text × Text
split_digits [] = ([], [])
split_digits (c ∷ cs) =
    let (number, unit_raw) = split_digits cs in
    if is_ascii_digit c then (c ∷ number, unit_raw) else ([], c ∷ cs)

-- The value of a text of digits after those that were read before.
abbrev pub value_from : ℕ → Text → ℕ
value_from acc [] = acc
value_from acc (d ∷ ds) = value_from (acc * 10 + (d - 48)) ds

-- `parse::<u64>()` of a text of digits, which fails on overflow.
unfoldable pub parse_u64 : Text → Option ℕ
parse_u64 ds = let n = value_from 0 ds in if leb n u64_max then some n else none

-- `unit_raw.trim().to_ascii_lowercase()` and the `match` on it.
unfoldable pub multiplier : Text → Option ℕ
multiplier unit =
    if is_empty unit || unit == text "b"
    then some 1
    else if unit == text "kib"
    then some 1024
    else if unit == text "mib"
    then some (1024 ^ 2)
    else if unit == text "gib"
    then some (1024 ^ 3)
    else if unit == text "tib"
    then some (1024 ^ 4)
    else none

abbrev checked_size : ℕ → ℕ → SizeParseError ⊎ ℕ
checked_size base m =
    if leb (base * m) u64_max then inr (base * m) else inl SizeParseError.too_large

abbrev with_unit : ℕ → Option ℕ → SizeParseError ⊎ ℕ
with_unit base none = inl SizeParseError.unsupported_unit
with_unit base (some m) = checked_size base m

abbrev with_number : Option ℕ → Text → SizeParseError ⊎ ℕ
with_number none unit_raw = inl SizeParseError.invalid_numeric_part
with_number (some base) unit_raw = with_unit base (multiplier (to_ascii_lowercase (trim unit_raw)))

-- `parse_size`: an error, or the number of bytes.
unfoldable pub parse_size : Text → SizeParseError ⊎ ℕ
unfolding split_digits parse_u64 multiplier
parse_size input =
    let raw = trim input in
    let (number, unit_raw) = split_digits raw in
    if is_empty raw
    then inl SizeParseError.empty
    else if is_empty number
    then inl SizeParseError.missing_digits
    else with_number (parse_u64 number) unit_raw

-- A size that fits: the decimal value of the digits times the multiplier of the unit.
pub record IsSize (input : Text) (n : ℕ) : Type 0 where
  pub unit : ℕ
  pub known : multiplier (to_ascii_lowercase (trim (split_digits (trim input)).1)) ≡ some unit
  pub exact : n ≡ value_from 0 (split_digits (trim input)).0 * unit
  pub fits : n ≤ u64_max

with_number_sound :
    (ds u : Text) (n : ℕ)
    → with_number (parse_u64 ds) u ≡ inr n
    → (m : ℕ) × (multiplier (to_ascii_lowercase (trim u)) ≡ some m)
      × (n ≡ value_from 0 ds * m)
      × (n ≤ u64_max)
unfolding parse_u64
with_number_sound ds u n h = elim (Option-cases (multiplier (to_ascii_lowercase (trim u)))) [
  | inl e ↦ absurd (ground (arith, e, h))
  | inr (m, e) ↦ (m, e, ground (arith, e, h), ground (arith, e, h))
]

-- A size that is accepted is the decimal value of the leading digits times the multiplier of the
-- unit that follows, computed without overflow: both the number and the product fit in 64 bits.
pub parse_size-IsSize : (input : Text) (n : ℕ) → parse_size input ≡ inr n → IsSize input n
unfolding parse_size
parse_size-IsSize input n h =
    let parts : with_number (parse_u64 (split_digits (trim input)).0) (split_digits (trim input)).1
        ≡ inr n =
      ground (arith, h) in
    let (m, known, exact, fits) =
      with_number_sound (split_digits (trim input)).0 (split_digits (trim input)).1 n parts in
    record { unit = m; known = known; exact = exact; fits = fits }
