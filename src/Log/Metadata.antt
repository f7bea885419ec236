-- ===== src/Log/Metadata.antt =====
-- log/metadata.go: the keys by which metadata stands among attributes.
pub mod Splits
use qtfra.Common.{
  ℕ, ◌+◌, ◌%◌, ◌^◌, ◌≡◌, ◌≢◌, ◌⊎◌, Bool, true, false, ◌||◌, not, List, [], ◌∷◌, ◌++◌, refl, sym, ap,
  ◌∙◌, append_assoc, inl, inr, arith,
}
use qtfra.Common.Tests.{
  Comparable, nat_beq, nat_comparable, ◌==◌, ltb, if◌then◌else◌, beq_iff, Bool-cases,
}
use qtfra.Common.Lists.{length}
use qtfra.Log.Attrs.{
  Text, literal, join, Attr, Value, plain, moment, group, valuer, text_comparable, texts_beq,
  texts_beq_refl, texts_beq_only,
}

abbrev pub metadata_prefix : Text
metadata_prefix = literal "_builtin.enhancements.metadata"

abbrev pub metadata_splitter : ℕ
metadata_splitter = 58

-- `strings.SplitN(s, sep, 2)` for a separator of one byte.
abbrev pub on_head : ℕ → List Text → List Text
on_head x [] = []
on_head x (piece ∷ pieces) = (x ∷ piece) ∷ pieces

unfoldable pub split_two : ℕ → Text → List Text
split_two sep [] = [] ∷ []
split_two sep (x ∷ xs) =
    let rest = split_two sep xs in if x == sep then [] ∷ xs ∷ [] else on_head x rest

abbrev pub metadata_key : Text → Text
metadata_key name = join (metadata_splitter ∷ []) (metadata_prefix ∷ name ∷ [])

-- What NewMetadata is given, by the type switch.
pub data Any (V T : Type 0) : Type 0 where
  text : Text → Any V T
  attr : Attr V T → Any V T
  value : Value V T → Any V T
  other : V → Any V T

module _ {V T : Type 0} (string_value : Text → V) (any_value : V → Value V T) where
  abbrev pub value_of : Any V T → Value V T
  value_of (text x) = plain (string_value x)
  value_of (attr x) = x.value
  value_of (value x) = x
  value_of (other v) = any_value v

  -- NewMetadata
  abbrev pub new_metadata : Text → Any V T → Attr V T
  new_metadata name v = record { key = metadata_key name; value = value_of v }

  -- buildAnonymousKey, with the global counter, and NewFixedMetadata.
  abbrev pub build_anonymous_key : (ℕ → Text) → ℕ → Text × ℕ
  build_anonymous_key format_uint anonymous_key =
      let next = (anonymous_key + 1) % 2 ^ 64 in
      (literal "anonymous" ++ literal "." ++ format_uint next, next)

  pub new_fixed_metadata : (ℕ → Text) → ℕ → Any V T → Attr V T × ℕ
  new_fixed_metadata format_uint anonymous_key v =
      let (key, next) = build_anonymous_key format_uint anonymous_key in (new_metadata key v, next)

module _ {V T : Type 0} where
  -- One round of SplitMetadata, by what SplitN returned.
  abbrev pub split_round :
      List Text → Attr V T → List (Attr V T) × List (Attr V T) → List (Attr V T) × List (Attr V T)
  split_round (before ∷ after ∷ pieces) a (meta, extra) =
      if before == metadata_prefix
      then (meta ++ record a { key = after } ∷ [], extra)
      else (meta, extra ++ a ∷ [])
  split_round _ a (meta, extra) = (meta, extra ++ a ∷ [])

  unfoldable pub split_loop :
      List (Attr V T) → List (Attr V T) × List (Attr V T) → List (Attr V T) × List (Attr V T)
  split_loop [] found = found
  split_loop (a ∷ attrs) found =
      split_loop attrs (split_round (split_two metadata_splitter a.key) a found)

  -- SplitMetadata
  unfoldable pub split_metadata : List (Attr V T) → List (Attr V T) × List (Attr V T)
  unfolding split_loop
  split_metadata attrs = split_loop attrs ([], [])
