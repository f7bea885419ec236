-- ===== src/Log/Console/Clones.antt =====
-- The metadata that clones of a handler of log/loghandler/console_handler.go carry: an entry for each
-- key, the one given last.
use mathlib.Core.List.{reverse}
use qtfra.Common.{
  ℕ, zero, suc, ◌≡◌, List, [], ◌∷◌, Option, none, some, map, refl, sym, ap, subst, ◌∙◌, inl, inr,
  arith,
}
use qtfra.Common.Tests.{◌==◌, beq_iff, nat_comparable, Bool-cases, the_one}
use qtfra.Common.Lists.{get_elem?}
use qtfra.Slicelib.{uniq_by_last}
use qtfra.Slicelib.Uniq.{first_with, Distinct}
use qtfra.Slicelib.Swaps.{uniq_by_last_lem}
use qtfra.Slicelib.Distinct.{or_else, Distinct-reverse}
use qtfra.Maplib.{index_map}
use qtfra.Maplib.Indexes.{index_map-StandsAt, index_map-StandsNowhere}
use qtfra.Log.Attrs.{Text, Attr, Value, text_comparable}
use qtfra.Log.Metadata.{split_metadata}
use qtfra.Log.Console.Handler.{
  ConsoleHandler, merged_metadata, with_metadata, with_extra, unless_none, with_attrs,
}
use qtfra.Log.Console.Entries.{key_of, Merged, loop-Merged}

module _ {V T : Type 0} where
  or_else-none : (o : Option (Attr V T)) → or_else o none ≡ o
  or_else-none none = refl
  or_else-none (some a) = refl

  get_elem?-map :
      (metadata : List (Attr V T)) (i : ℕ) (k : Text)
      → get_elem? (map key_of metadata) i ≡ some k
      → (a : Attr V T) × (get_elem? metadata i ≡ some a) × (a.key ≡ k)
  get_elem?-map [] i k e = absurd (ground arith)
  get_elem?-map (a ∷ metadata) zero k e = (a, refl, the_one a.key k e)
  get_elem?-map (a ∷ metadata) (suc i) k e = get_elem?-map metadata i k e

  nowhere-missing :
      (metadata : List (Attr V T)) (k : Text)
      → ((i : ℕ) → get_elem? (map key_of metadata) i ≡ some k → ⊥)
      → first_with key_of k metadata ≡ none
  nowhere-missing [] k nowhere = refl
  nowhere-missing (a ∷ metadata) k nowhere = elim (Bool-cases (a.key == k)) [
    | inl same ↦ absurd (nowhere zero (ap some ((beq_iff a.key k).0 same)))
    | inr differs ↦ rw differs (nowhere-missing metadata k (λ i. nowhere (suc i)))
  ]

  merged_metadata-Merged :
      (metadata attrs : List (Attr V T))
      → Distinct key_of metadata
      → Distinct key_of attrs
      → Merged metadata attrs (merged_metadata metadata attrs)
  merged_metadata-Merged [] attrs d d' = record {
    distinct = d';
    entries = λ k. sym (or_else-none (first_with key_of k attrs));
  }
  merged_metadata-Merged (m ∷ metadata) attrs d d' =
      let keys = map key_of (m ∷ metadata) in
      loop-Merged (index_map keys) (m ∷ metadata) attrs
        (λ k i found. get_elem?-map (m ∷ metadata) i k (index_map-StandsAt keys k i found))
        (λ k none_there.
          inr (nowhere-missing (m ∷ metadata) k (index_map-StandsNowhere keys k none_there)))
        d d'

  -- withMetadata leaves one entry for each key: the last of the attributes given, or else the old one.
  with_metadata-Merged :
      (attrs : List (Attr V T)) (h : ConsoleHandler V T)
      → Distinct key_of h.metadata
      → Merged h.metadata (reverse attrs) (with_metadata attrs h).metadata
  unfolding with_metadata
  with_metadata-Merged attrs h d =
      let (once, lasts) = uniq_by_last_lem key_of attrs in
      let uniq = uniq_by_last key_of attrs in
      let (once', same) = Distinct-reverse key_of uniq once in
      let m = merged_metadata-Merged h.metadata uniq d once' in
      record {
        distinct = m.distinct;
        entries = λ k.
            m.entries k ∙ ap (λ o. or_else o (first_with key_of k h.metadata)) (same k ∙ lasts k);
      }

  unchanged : (metadata : List (Attr V T)) → Distinct key_of metadata → Merged metadata [] metadata
  unchanged metadata d = record { distinct = d; entries = λ k. refl }

  unless_none-metadata :
      (string_of : Value V T → Text) (extra : List (Attr V T)) (h : ConsoleHandler V T)
      → (unless_none extra (with_extra string_of) h).metadata ≡ h.metadata
  unless_none-metadata string_of [] h = refl
  unless_none-metadata string_of (a ∷ extra) h = refl

  unless_none-Merged :
      (meta : List (Attr V T)) (h : ConsoleHandler V T)
      → Distinct key_of h.metadata
      → Merged h.metadata (reverse meta) (unless_none meta with_metadata h).metadata
  unless_none-Merged [] h d = unchanged h.metadata d
  unless_none-Merged (a ∷ meta) h d = with_metadata-Merged (a ∷ meta) h d

  -- WithAttrs leaves one entry of metadata for each key: of the attributes that SplitMetadata takes for
  -- metadata the last one with the key, or else the handler's own, if it had one for each key.
  pub with_attrs-Merged :
      (string_of : Value V T → Text) (attrs : List (Attr V T)) (h : ConsoleHandler V T)
      → Distinct key_of h.metadata
      → Merged h.metadata (reverse (split_metadata attrs).0) (with_attrs string_of attrs h).metadata
  unfolding with_attrs split_metadata
  with_attrs-Merged string_of [] h d = unchanged h.metadata d
  with_attrs-Merged string_of (a ∷ attrs) h d =
      let (meta, extra) = split_metadata (a ∷ attrs) in
      subst (λ m. Merged h.metadata (reverse meta) m)
        (sym (unless_none-metadata string_of extra (unless_none meta with_metadata h)))
        (unless_none-Merged meta h d)
