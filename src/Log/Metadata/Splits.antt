-- ===== src/Log/Metadata/Splits.antt =====
-- SplitMetadata takes apart what NewMetadata named.
use qtfra.Common.{
  ℕ, ◌≡◌, ◌≢◌, ◌⊎◌, List, [], ◌∷◌, ◌++◌, refl, sym, ap, ap₂, subst, ◌∙◌, append_assoc, append-nil,
  inl, inr, arith,
}
use qtfra.Common.Tests.{◌==◌, nat_comparable, beq_iff, Bool-cases}
use qtfra.Common.Lists.{length}
use qtfra.Log.Attrs.{Text, Attr, Value, text_comparable}
use qtfra.Log.Metadata.{
  metadata_prefix, metadata_splitter, metadata_key, split_two, split_round, split_loop,
  split_metadata,
}

module _ {V T : Type 0} where
  -- Each attribute, in order, is either metadata under a name, or has no key of metadata.
  pub data Split : List (Attr V T) → List (Attr V T) → List (Attr V T) → Type 0 where
    done : Split [] [] []
    is_meta :
        (name : Text) (value : Value V T) {attrs meta extra : List (Attr V T)}
        → Split attrs meta extra
        → Split
            (record { key = metadata_key name; value = value } ∷ attrs)
            (record { key = name; value = value } ∷ meta)
            extra
    is_extra :
        (a : Attr V T) {attrs meta extra : List (Attr V T)}
        → ((name : Text) → a.key ≢ metadata_key name)
        → Split attrs meta extra
        → Split (a ∷ attrs) meta (a ∷ extra)

-- SplitN returns the text itself, or what stands before and after a separator.
split_two-cases :
    (sep : ℕ) (s : Text)
    → (split_two sep s ≡ s ∷ [])
      ⊎ ((before : Text) × (after : Text) × (split_two sep s ≡ before ∷ after ∷ [])
          × (s ≡ before ++ sep ∷ after))
unfolding split_two
split_two-cases sep [] = inl refl
split_two-cases sep (x ∷ xs) = elim (Bool-cases (x == sep)) [
  | inl cut ↦ rw cut (inr ([], xs, refl, ap (λ h. h ∷ xs) ((beq_iff x sep).0 cut)))
  | inr on ↦ elim (split_two-cases sep xs) [
    | inl e ↦ rw (on, e) (inl refl)
    | inr (before, after, e, whole) ↦ rw (on, e) (inr (x ∷ before, after, refl, ap (◌∷◌ x) whole))
  ]
]

-- NewMetadata's key comes apart into the prefix and the name.
split_two-key :
    (name : Text) → split_two metadata_splitter (metadata_key name) ≡ metadata_prefix ∷ name ∷ []
unfolding split_two
split_two-key name = refl

-- The first piece of a key of metadata.
abbrev first_piece : List Text → Text
first_piece [] = []
first_piece (x ∷ xs) = x

key_pieces :
    (key : Text) (pieces : List Text) (name : Text)
    → split_two metadata_splitter key ≡ pieces
    → key ≡ metadata_key name
    → pieces ≡ metadata_prefix ∷ name ∷ []
key_pieces key pieces name e named =
    sym e ∙ (ap (split_two metadata_splitter) named ∙ split_two-key name)

module _ {V T : Type 0} where
  round-cases :
      (a : Attr V T) (m e : List (Attr V T))
      → ((name : Text) × (a.key ≡ metadata_key name)
          × (split_round (split_two metadata_splitter a.key) a (m, e)
              ≡ (m ++ record a { key = name } ∷ [], e)))
        ⊎ (((name : Text) → a.key ≢ metadata_key name)
            × (split_round (split_two metadata_splitter a.key) a (m, e) ≡ (m, e ++ a ∷ [])))
  round-cases a m e = elim (split_two-cases metadata_splitter a.key) [
    | inl e' ↦ rw e' (
        inr (
          λ name named.
              absurd (omega (arith, ap length (key_pieces a.key (a.key ∷ []) name e' named))),
          refl,
        ))
    | inr (before, after, e', whole) ↦ elim (Bool-cases (before == metadata_prefix)) [
      | inl same ↦
          rw (e', same)
            (inl (
              after,
              whole
                  ∙ ap (λ p. p ++ metadata_splitter ∷ after)
                      ((beq_iff before metadata_prefix).0 same),
              refl,
            ))
      | inr differs ↦
          rw (e', differs)
            (inr (
              λ name named. absurd (
                  ground (
                    arith,
                    differs,
                    (beq_iff before metadata_prefix).1
                        (ap first_piece (key_pieces a.key (before ∷ after ∷ []) name e' named)),
                  )),
              refl,
            ))
    ]
  ]

  split_loop-Split :
      (attrs m e : List (Attr V T))
      → (meta : List (Attr V T)) × (extra : List (Attr V T)) × (split_loop attrs (m, e)
          ≡ (m ++ meta, e ++ extra))
        × Split attrs meta extra
  unfolding split_loop
  split_loop-Split [] m e =
      ([], [], ap₂ (λ x y. (x, y)) (sym (append-nil m)) (sym (append-nil e)), Split.done)
  split_loop-Split (a ∷ attrs) m e = elim (round-cases a m e) [
    | inl (name, named, found) ↦
        let found_one : Attr V T = record a { key = name } in
        let (meta, extra, rest, split) = split_loop-Split attrs (m ++ found_one ∷ []) e in
        (
          found_one ∷ meta,
          extra,
          ap (split_loop attrs) found
              ∙ (rest ∙ ap (λ x. (x, e ++ extra)) (append_assoc m (found_one ∷ []) meta)),
          subst (λ k. Split (record a { key = k } ∷ attrs) (found_one ∷ meta) extra) (sym named)
              (Split.is_meta name a.value split),
        )
    | inr (unnamed, found) ↦
        let (meta, extra, rest, split) = split_loop-Split attrs m (e ++ a ∷ []) in
        (
          meta,
          a ∷ extra,
          ap (split_loop attrs) found
              ∙ (rest ∙ ap (λ x. (m ++ meta, x)) (append_assoc e (a ∷ []) extra)),
          Split.is_extra a unnamed split,
        )
  ]

  -- SplitMetadata finds every attribute that NewMetadata made, under the name it was made with, and
  -- hands on all others unchanged, both in the order they came.
  pub split_metadata-Split :
      (attrs : List (Attr V T)) → Split attrs (split_metadata attrs).0 (split_metadata attrs).1
  unfolding split_metadata
  split_metadata-Split attrs =
      let (meta, extra, e, split) = split_loop-Split attrs [] [] in rw e split
