-- ===== src/Log/Console/Handler.antt =====
-- log/loghandler/console_handler.go: the handler and what its clones carry. The writer, which all
-- clones share, is a state apart; its mutex only orders the calls. Handle returns with its error the
-- flush errors that Free reports to the internal log; that Free recovers from a panic is left out,
-- since no call in it panics here.
use qtfra.Common.{ℕ, Bool, not, List, [], ◌∷◌, ◌++◌, Option, none, some, map}
use qtfra.Common.Tests.{if◌then◌else◌, nat_comparable, ltb}
use qtfra.Common.Lists.{length, set}
use qtfra.Common.Words.{lt_int}
use qtfra.Common.Maps.{lookup}
use qtfra.Slicelib.{uniq_by_last}
use qtfra.Maplib.{index_map}
use qtfra.Log.Attrs.{Text, literal, join, Value, Attr, text_comparable}
use qtfra.Log.Metadata.{split_metadata}
use qtfra.Log.Console.State.{Source, space_byte, dot, is_blank}

abbrev pub default_buffer_size : ℕ
default_buffer_size = 16384

-- ConsoleHandler, without its writer.
pub record ConsoleHandler (V T : Type 0) : Type 0 where
  pub level : ℕ
  pub source_level : ℕ
  pub enable_time : Bool
  pub time_format : T → Text
  pub level_format : ℕ → Text
  pub group_prefix : Text
  pub pre_formated_attr : Text
  pub metadata : List (Attr V T)

pub record ConsoleHandlerOption (T : Type 0) : Type 0 where
  pub level : ℕ
  pub source_level : ℕ
  pub enable_time : Bool
  pub time_formatter : Option (T → Text)
  pub level_formatter : Option (ℕ → Text)

-- slog's Record; Source finds no source for a record without a program counter.
pub record Record (V T : Type 0) : Type 0 where
  pub time : T
  pub level : ℕ
  pub message : Text
  pub attrs : List (Attr V T)
  pub source : Option Source

-- UseDefaultNil
abbrev pub use_default_nil : {A : Type 0} → Option A → A → A
use_default_nil none dft = dft
use_default_nil (some real) dft = real

module _ {V T : Type 0} where
  -- NewConsoleHandler: none is slog's DiscardHandler, for a nil writer and io.Discard.
  pub new_console_handler :
      (T → Text) → (ℕ → Text) → Bool → ConsoleHandlerOption T → Option (ConsoleHandler V T)
  new_console_handler rfc3339_time_formatter equal_length_level_formatter discards opt =
      if discards
      then none
      else some (record {
        level = opt.level;
        source_level = opt.source_level;
        enable_time = opt.enable_time;
        time_format = use_default_nil opt.time_formatter rfc3339_time_formatter;
        level_format = use_default_nil opt.level_formatter equal_length_level_formatter;
        group_prefix = [];
        pre_formated_attr = [];
        metadata = [];
      })

  -- Enabled
  pub enabled : ConsoleHandler V T → ℕ → Bool
  enabled h level = not (lt_int level h.level)

  -- The loop of withMetadata, over the handler's own attributes and the new ones.
  abbrev pub metadata_slot : Option ℕ → Attr V T → List (Attr V T) → List (Attr V T)
  metadata_slot none a metadata = metadata ++ a ∷ []
  metadata_slot (some old) a metadata =
      if ltb old (length metadata) then set metadata old a else metadata ++ a ∷ []

  unfoldable pub metadata_loop :
      List (Text × ℕ) → List (Attr V T) → List (Attr V T) → List (Attr V T)
  metadata_loop indexes metadata [] = metadata
  metadata_loop indexes metadata (a ∷ attrs) =
      metadata_loop indexes (metadata_slot (lookup a.key indexes) a metadata) attrs

  abbrev pub merged_metadata : List (Attr V T) → List (Attr V T) → List (Attr V T)
  merged_metadata [] attrs = attrs
  merged_metadata (m ∷ metadata) attrs =
      metadata_loop (index_map (map (λ a. a.key) (m ∷ metadata))) (m ∷ metadata) attrs

  -- withMetadata
  unfoldable pub with_metadata : List (Attr V T) → ConsoleHandler V T → ConsoleHandler V T
  with_metadata attrs h = record h {
    metadata = merged_metadata h.metadata (uniq_by_last (λ a. a.key) attrs);
  }

  -- `if len(attrs) != 0`
  abbrev pub unless_none :
      List (Attr V T)
      → (List (Attr V T) → ConsoleHandler V T → ConsoleHandler V T)
      → ConsoleHandler V T
      → ConsoleHandler V T
  unless_none [] f h = h
  unless_none (a ∷ attrs) f h = f (a ∷ attrs) h

  module _ (string_of : Value V T → Text) where
    -- withAttrs: the attributes as slog's text, their keys behind the group's.
    abbrev pub attr_texts : Text → List (Attr V T) → List Text
    attr_texts prefix [] = []
    attr_texts prefix (a ∷ attrs) =
        let key = if is_blank prefix then a.key else join (dot ∷ []) (prefix ∷ a.key ∷ []) in
        (key ++ (literal "=" ++ string_of a.value)) ∷ attr_texts prefix attrs

    abbrev pub with_extra : List (Attr V T) → ConsoleHandler V T → ConsoleHandler V T
    with_extra attrs h =
        let attr_bytes =
          (if is_blank h.pre_formated_attr then [] else h.pre_formated_attr ∷ [])
          ++ attr_texts h.group_prefix attrs in
        record h { pre_formated_attr = join (space_byte ∷ []) attr_bytes }

    -- WithAttrs
    unfoldable pub with_attrs : List (Attr V T) → ConsoleHandler V T → ConsoleHandler V T
    with_attrs [] h = h
    with_attrs (a ∷ attrs) h =
        let (metadata, extra_attr) = split_metadata (a ∷ attrs) in
        unless_none extra_attr with_extra (unless_none metadata with_metadata h)

  -- WithGroup
  unfoldable pub with_group : Text → ConsoleHandler V T → ConsoleHandler V T
  with_group name h = if is_blank name then h else record h {
    group_prefix =
        if is_blank h.group_prefix then name else join (dot ∷ []) (h.group_prefix ∷ name ∷ []);
  }
