-- ===== src/Common/Maps.antt =====
-- Go maps as association lists. A new entry goes to the front and an old one of its key goes out, so
-- a key stands at most once in what `insert` makes. The order of the entries means nothing to Go.
use qtfra.Common.{◌≡◌, List, [], ◌∷◌, Option, none, some, arith}
use qtfra.Common.Tests.{Comparable, ◌==◌, beq_iff, if◌then◌else◌}

module _ {ℓ κ} {K : Type ℓ} {V : Type κ} ⦃c : Comparable K⦄ where
  -- The value under a key.
  unfoldable pub lookup : K → List (K × V) → Option V
  lookup key [] = none
  lookup key (entry ∷ entries) = if key == entry.0 then some entry.1 else lookup key entries

  unfoldable pub erase : K → List (K × V) → List (K × V)
  erase key [] = []
  erase key (entry ∷ entries) =
      let others = erase key entries in if key == entry.0 then others else entry ∷ others

  unfoldable pub insert : K → V → List (K × V) → List (K × V)
  unfolding erase
  insert key value entries = (key, value) ∷ erase key entries

  pub lookup-erase :
      (asked key : K) (entries : List (K × V))
      → lookup asked (erase key entries) ≡ (if asked == key then none else lookup asked entries)
  unfolding lookup erase
  lookup-erase asked key [] = ground arith
  lookup-erase asked key (entry ∷ entries) = ground (
    arith,
    beq_iff asked key,
    beq_iff key entry.0,
    beq_iff asked entry.0,
    lookup-erase asked key entries,
  )

  pub lookup-insert :
      (asked key : K) (value : V) (entries : List (K × V))
      → lookup asked (insert key value entries)
        ≡ (if asked == key then some value else lookup asked entries)
  unfolding lookup insert
  lookup-insert asked key value entries = ground (arith, lookup-erase asked key entries)
