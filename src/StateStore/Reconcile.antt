-- ===== src/StateStore/Reconcile.antt =====
-- src/state_store.rs: the choice between the canonical state and its backup.
use Prim.Native.Nat.{compare, Ordering}
use vibe_caravan.Prelude.{
  ◌≡◌, ◌≢◌, ◌<◌, refl, ◌⊎◌, inl, inr, false, Option, none, some, arith, text_eq, ◌==◌, FilePath,
  Bool-cases,
}
use vibe_caravan.Error.{Result, ok, err}
use vibe_caravan.StateStore.{
  LoadedStateCandidate, ReconciledState, ReconciledStateSource, newer, from_primary, reconcile,
}

-- The candidate `c` is at least as new as the valid ones of `o`, and agrees with one as new.
abbrev pub IsNewest : LoadedStateCandidate → Option (Result LoadedStateCandidate) → Type 0
IsNewest c o =
    (d : LoadedStateCandidate)
    → o ≡ some (ok d)
    → (d.revision < c.revision)
      ⊎ ((d.revision ≡ c.revision) × (d.state_checksum ≡ c.state_checksum))

-- Two valid candidates have one revision and different checksums.
abbrev pub Diverge :
    Option (Result LoadedStateCandidate) → Option (Result LoadedStateCandidate) → Type 0
Diverge o o' =
    (c : LoadedStateCandidate) × (d : LoadedStateCandidate) × (o ≡ some (ok c))
    × (o' ≡ some (ok d))
    × (c.revision ≡ d.revision)
    × ((c.state_checksum == d.state_checksum) ≡ false)

-- Where the chosen state comes from.
abbrev pub IsChosen :
    Option (Result LoadedStateCandidate)
    → Option (Result LoadedStateCandidate)
    → ReconciledState
    → Type 0
IsChosen o o' r =
    (c : LoadedStateCandidate) × (r.state ≡ c.state)
    × (((o ≡ some (ok c)) × (r.source ≡ ReconciledStateSource.primary) × IsNewest c o')
        ⊎ ((o' ≡ some (ok c)) × (r.source ≡ ReconciledStateSource.secondary) × IsNewest c o))

-- No candidate is valid.
abbrev pub NoneValid : Option (Result LoadedStateCandidate) → Type 0
NoneValid o = (d : LoadedStateCandidate) → o ≢ some (ok d)

abbrev pub Outcome :
    Option (Result LoadedStateCandidate)
    → Option (Result LoadedStateCandidate)
    → Result ReconciledState
    → Type 0
Outcome o o' (ok r) = IsChosen o o' r
Outcome o o' (err e) = (NoneValid o × NoneValid o') ⊎ Diverge o o'

IsChosen-primary :
    (c : LoadedStateCandidate) (o' : Option (Result LoadedStateCandidate))
    → IsNewest c o'
    → IsChosen (some (ok c)) o' (record { state = c.state; source = ReconciledStateSource.primary })
IsChosen-primary c o' n = (c, refl, inl (refl, refl, n))

IsChosen-secondary :
    (c : LoadedStateCandidate) (o : Option (Result LoadedStateCandidate))
    → IsNewest c o
    → IsChosen o
        (some (ok c))
        (record { state = c.state; source = ReconciledStateSource.secondary })
IsChosen-secondary c o n = (c, refl, inr (refl, refl, n))

Outcome-eq :
    (a b : FilePath) (p q : LoadedStateCandidate)
    → p.revision ≡ q.revision
    → Outcome (some (ok p)) (some (ok q)) (newer a b p q Ordering.eq)
Outcome-eq a b p q e = elim (Bool-cases (p.state_checksum == q.state_checksum)) [
  | inr differ ↦ rw differ (inr (p, q, refl, refl, e, differ))
  | inl same ↦ rw same (
      IsChosen-primary p (some (ok q)) (λ d h. inr (
        ground (arith, e, h),
        ground (arith, h, (text_eq.beq_iff p.state_checksum q.state_checksum).0 same),
      )))
]

Outcome-newer :
    (a b : FilePath) (p q : LoadedStateCandidate) (o : Ordering)
    → compare p.revision q.revision ≡ o
    → Outcome (some (ok p)) (some (ok q)) (newer a b p q o)
Outcome-newer a b p q Ordering.gt e =
    IsChosen-primary p (some (ok q)) (λ d h. inl (ground (arith, e, h)))
Outcome-newer a b p q Ordering.lt e =
    IsChosen-secondary q (some (ok p)) (λ d h. inl (ground (arith, e, h)))
Outcome-newer a b p q Ordering.eq e = Outcome-eq a b p q (ground (arith, e))

-- The state that is chosen is that of a valid copy, from where it says, and no valid copy is newer;
-- if the other valid copy is as new, the checksums agree. Where there is an error, no copy is valid,
-- or both are with one revision and different checksums.
pub reconcile-Outcome :
    (a b : FilePath) (o o' : Option (Result LoadedStateCandidate))
    → Outcome o o' (reconcile a b o o')
unfolding reconcile
reconcile-Outcome a b (some (ok p)) (some (ok q)) =
    Outcome-newer a b p q (compare p.revision q.revision) refl
reconcile-Outcome a b (some (ok p)) (some (err e)) =
    IsChosen-primary p (some (err e)) (λ d h. absurd (ground (arith, h)))
reconcile-Outcome a b (some (err e)) (some (ok q)) =
    IsChosen-secondary q (some (err e)) (λ d h. absurd (ground (arith, h)))
reconcile-Outcome a b (some (err e)) (some (err e')) =
    inl (λ d h. ground (arith, h), λ d h. ground (arith, h))
reconcile-Outcome a b (some (ok p)) none =
    IsChosen-primary p none (λ d h. absurd (ground (arith, h)))
reconcile-Outcome a b none (some (ok q)) =
    IsChosen-secondary q none (λ d h. absurd (ground (arith, h)))
reconcile-Outcome a b (some (err e)) none = inl (λ d h. ground (arith, h), λ d h. ground (arith, h))
reconcile-Outcome a b none (some (err e)) = inl (λ d h. ground (arith, h), λ d h. ground (arith, h))
reconcile-Outcome a b none none = inl (λ d h. ground (arith, h), λ d h. ground (arith, h))

-- The canonical copy is chosen where it is the newest.
pub reconcile-primary :
    (a b : FilePath) (p : LoadedStateCandidate) (o : Option (Result LoadedStateCandidate))
    → IsNewest p o
    → reconcile a b (some (ok p)) o ≡ from_primary p
unfolding reconcile
reconcile-primary a b p none n = refl
reconcile-primary a b p (some (err e)) n = refl
reconcile-primary a b p (some (ok q)) n = elim (n q refl) [
  | inl older ↦ ground (arith, older)
  | inr (same, checksum) ↦
      ground (arith, same, text_eq.beq_iff p.state_checksum q.state_checksum, checksum)
]
