-- ===== src/Log/Console/Entries.antt =====
-- The loop of withMetadata in log/loghandler/console_handler.go, over an index of the entries.
use qtfra.Common.{
  ℕ, zero, suc, ◌<◌, ◌≡◌, ◌⊎◌, List, [], ◌∷◌, ◌++◌, none, some, refl, sym, ap, ◌∙◌, inl, inr, arith,
}
use qtfra.Common.Tests.{
  ◌==◌, beq_iff, nat_comparable, if◌then◌else◌, nat_beq, Bool-cases, Option-cases, the_one,
}
use qtfra.Common.Lists.{length, get_elem?, set}
use qtfra.Common.Maps.{lookup}
use qtfra.Slicelib.Uniq.{first_with, Distinct}
use qtfra.Slicelib.Distinct.{
  or_else, first_with-append, append-Distinct, first_with-set, set-Distinct,
}
use qtfra.Log.Attrs.{Text, Attr, text_comparable}
use qtfra.Log.Console.Handler.{metadata_slot, metadata_loop}

module _ {ℓ} {A : Type ℓ} where
  inside : (xs : List A) (i : ℕ) (x : A) → get_elem? xs i ≡ some x → i < length xs
  inside [] i x e = absurd (ground arith)
  inside (y ∷ xs) zero x e = omega arith
  inside (y ∷ xs) (suc i) x e = omega (arith, inside xs i x e)

  get_elem?-append :
      (xs ys : List A) (i : ℕ) (x : A) → get_elem? xs i ≡ some x → get_elem? (xs ++ ys) i ≡ some x
  get_elem?-append [] ys i x e = absurd (ground arith)
  get_elem?-append (y ∷ xs) ys zero x e = e
  get_elem?-append (y ∷ xs) ys (suc i) x e = get_elem?-append xs ys i x e

  get_elem?-set :
      (xs : List A) (i j : ℕ) (a old : A)
      → get_elem? xs j ≡ some old
      → get_elem? (set xs i a) j ≡ (if nat_beq i j then some a else some old)
  get_elem?-set [] i j a old e = absurd (ground arith)
  get_elem?-set (x ∷ xs) zero zero a old e = refl
  get_elem?-set (x ∷ xs) zero (suc j) a old e = ground arith
  get_elem?-set (x ∷ xs) (suc i) zero a old e = ground arith
  get_elem?-set (x ∷ xs) (suc i) (suc j) a old e = get_elem?-set xs i j a old e ∙ ground arith

module _ {V T : Type 0} where
  abbrev pub key_of : Attr V T → Text
  key_of a = a.key

  -- The index has the place of the entry with the key, and it misses keys that the metadata has not, or
  -- that the new attributes have not.
  abbrev pub Known : List (Text × ℕ) → List (Attr V T) → Type 0
  Known indexes metadata =
      (k : Text) (i : ℕ)
      → lookup k indexes ≡ some i
      → (a : Attr V T) × (get_elem? metadata i ≡ some a) × (a.key ≡ k)

  abbrev pub Missing : List (Text × ℕ) → List (Attr V T) → List (Attr V T) → Type 0
  Missing indexes metadata attrs =
      (k : Text)
      → lookup k indexes ≡ none
      → (first_with key_of k attrs ≡ none) ⊎ (first_with key_of k metadata ≡ none)

  -- The entry of each key is that of the new attributes, where they have one.
  pub record Merged (metadata attrs after : List (Attr V T)) : Type 0 where
    pub distinct : Distinct key_of after
    pub entries :
        (k : Text)
        → first_with key_of k after
          ≡ or_else (first_with key_of k attrs) (first_with key_of k metadata)

  slot_some :
      (indexes : List (Text × ℕ)) (metadata : List (Attr V T)) (a : Attr V T) (i : ℕ)
      → Known indexes metadata
      → lookup a.key indexes ≡ some i
      → metadata_slot (lookup a.key indexes) a metadata ≡ set metadata i a
  slot_some indexes metadata a i known found =
      let (old, at_i, same) = known a.key i found in
      ap (λ o. metadata_slot o a metadata) found ∙ ground (arith, inside metadata i old at_i)

  set-Known :
      (indexes : List (Text × ℕ)) (metadata : List (Attr V T)) (a : Attr V T) (i : ℕ)
      → Known indexes metadata
      → lookup a.key indexes ≡ some i
      → Known indexes (set metadata i a)
  set-Known indexes metadata a i known found k j found_j =
      let (old, at_j, same) = known k j found_j in
      let (old', at_i, same') = known a.key i found in
      elim (Bool-cases (nat_beq i j)) [
        | inl e ↦ (
          a,
          get_elem?-set metadata i j a old at_j ∙ rw e refl,
          sym same'
              ∙ (ap key_of (
                    the_one old' old
                      (sym at_i ∙ (ap (get_elem? metadata) ((beq_iff i j).0 e) ∙ at_j)))
                  ∙ same),
        )
        | inr e ↦ (old, get_elem?-set metadata i j a old at_j ∙ rw e refl, same)
      ]

  append-Known :
      (indexes : List (Text × ℕ)) (metadata : List (Attr V T)) (a : Attr V T)
      → Known indexes metadata
      → Known indexes (metadata ++ a ∷ [])
  append-Known indexes metadata a known k j found =
      let (old, at_j, same) = known k j found in
      (old, get_elem?-append metadata (a ∷ []) j old at_j, same)

  -- What the loop's round for an attribute changes.
  abbrev Put : Attr V T → List (Attr V T) → List (Attr V T) → Type 0
  Put a metadata metadata' =
      (k : Text)
      → first_with key_of k metadata'
        ≡ (if a.key == k then some a else first_with key_of k metadata)

  round-Missing :
      (indexes : List (Text × ℕ)) (metadata metadata' attrs : List (Attr V T)) (a : Attr V T)
      → first_with key_of a.key attrs ≡ none
      → Put a metadata metadata'
      → Missing indexes metadata (a ∷ attrs)
      → Missing indexes metadata' attrs
  round-Missing indexes metadata metadata' attrs a new put missing k none_there =
      elim (Bool-cases (a.key == k)) [
        | inl same ↦
            inl (ap (λ c. first_with key_of c attrs) (sym ((beq_iff a.key k).0 same)) ∙ new)
        | inr differs ↦ elim (missing k none_there) [
          | inl unasked ↦ inl (ground arith)
          | inr unheld ↦ inr (put k ∙ rw differs unheld)
        ]
      ]

  round-Merged :
      (metadata metadata' attrs after : List (Attr V T)) (a : Attr V T)
      → first_with key_of a.key attrs ≡ none
      → Put a metadata metadata'
      → Merged metadata' attrs after
      → Merged metadata (a ∷ attrs) after
  round-Merged metadata metadata' attrs after a new put m = record {
    distinct = m.distinct;
    entries = λ k. m.entries k ∙ elim (Bool-cases (a.key == k)) [
      | inl same ↦
          let unasked : first_with key_of k attrs ≡ none =
            ap (λ c. first_with key_of c attrs) (sym ((beq_iff a.key k).0 same)) ∙ new in
          rw (unasked, put k, same) refl
      | inr differs ↦ rw (put k, differs) refl
    ];
  }

  pub loop-Merged :
      (indexes : List (Text × ℕ)) (metadata attrs : List (Attr V T))
      → Known indexes metadata
      → Missing indexes metadata attrs
      → Distinct key_of metadata
      → Distinct key_of attrs
      → Merged metadata attrs (metadata_loop indexes metadata attrs)
  unfolding metadata_loop
  loop-Merged indexes metadata [] known missing d d' = record { distinct = d; entries = λ k. refl }
  loop-Merged indexes metadata (a ∷ attrs) known missing d (new, d') =
      elim (Option-cases (lookup a.key indexes)) [
        | inl none_there ↦
            let unheld : first_with key_of a.key metadata ≡ none = elim (missing a.key none_there) [
              | inl unasked ↦ absurd (ground (arith, beq_iff a.key a.key))
              | inr unheld ↦ unheld
            ] in
            let put : Put a metadata (metadata ++ a ∷ []) = λ k.
              first_with-append key_of k metadata (a ∷ [])
              ∙ ground (arith, beq_iff a.key k, unheld) in
            rw none_there (
              round-Merged metadata (metadata ++ a ∷ []) attrs _ a new put (
                loop-Merged indexes (metadata ++ a ∷ []) attrs
                  (append-Known indexes metadata a known)
                  (round-Missing indexes metadata (metadata ++ a ∷ []) attrs a new put missing)
                  (append-Distinct key_of metadata a d unheld) d'))
        | inr (i, found) ↦
            let (old, at_i, same) = known a.key i found in
            let put : Put a metadata (set metadata i a) =
              first_with-set key_of metadata i a old d at_i same in
            rw (slot_some indexes metadata a i known found) (
              round-Merged metadata (set metadata i a) attrs _ a new put (
                loop-Merged indexes (set metadata i a) attrs
                  (set-Known indexes metadata a i known found)
                  (round-Missing indexes metadata (set metadata i a) attrs a new put missing)
                  (set-Distinct key_of metadata i a old d at_i same) d'))
      ]
