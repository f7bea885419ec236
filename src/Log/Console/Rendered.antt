-- ===== src/Log/Console/Rendered.antt =====
-- The line of a record as a text, with no writer, no buffer and no errors: what Handle of
-- log/loghandler/console_handler.go is to write.
use qtfra.Common.{ℕ, Bool, List, [], ◌∷◌, ◌++◌, Option, none, some}
use qtfra.Common.Tests.{if◌then◌else◌, nat_comparable}
use qtfra.Common.Words.{lt_int}
use qtfra.Log.Attrs.{
  Text, literal, Value, Resolved, Attrs, Attr, plain, moment, group, valuer, to_plain, to_moment,
  to_group, nil, cons,
}
use qtfra.Log.Console.State.{Source, space_byte, dot, is_blank, key_or_bad, quoted, meta_text}
use qtfra.Log.Console.Handler.{ConsoleHandler, Record}
use qtfra.Log.Console.Handle.{Outside}

abbrev pub source_text : (ℕ → Text) → Bool → Source → Text
source_text decimal debug source =
    if debug
    then literal "Caller: "
      ++ (source.file
          ++ (literal ":"
              ++ (decimal source.line ++ (literal " " ++ (source.function ++ literal " \n")))))
    else literal "Caller: " ++ (source.function ++ literal " \n")

module _ {V T : Type 0} (string_of : Value V T → Text) (prefix : Text) (time : T → Text) where
  -- The group's name and a dot, the key, an equals sign, the value, and a space.
  abbrev pub pair_text : Text → Text → Text
  pair_text key value_str =
      (if is_blank prefix then [] else prefix ++ dot ∷ [])
      ++ ((key ++ (literal "=" ++ quoted value_str)) ++ space_byte ∷ [])

  -- An attribute begins with a space; a group has one of its own, and its attributes follow.
  unfoldable mutual
    pub attr_text : Text → Value V T → Text
    attr_text key (plain v) = space_byte ∷ [] ++ pair_text (key_or_bad key) (string_of (plain v))
    attr_text key (moment t) = space_byte ∷ [] ++ pair_text (key_or_bad key) (time t)
    attr_text key (group attrs) = space_byte ∷ [] ++ attrs_text (key_or_bad key) attrs
    attr_text key (valuer v r) = space_byte ∷ [] ++ resolved_text (key_or_bad key) r

    pub resolved_text : Text → Resolved V T → Text
    resolved_text key (to_plain v) = pair_text key (string_of (plain v))
    resolved_text key (to_moment t) = pair_text key (time t)
    resolved_text key (to_group attrs) = attrs_text key attrs

    pub attrs_text : Text → Attrs V T → Text
    attrs_text key nil = []
    attrs_text key (cons k v attrs) =
        attr_text (key ++ (literal "." ++ k)) v ++ attrs_text key attrs

module _ {V T : Type 0} (outside : Outside V T) (h : ConsoleHandler V T) where
  abbrev pub time_part : Record V T → Text
  time_part r =
      if h.enable_time
      then h.time_format (if outside.is_zero r.time then outside.now else r.time)
      else []

  abbrev pub time_space : Text
  time_space = if h.enable_time then space_byte ∷ [] else []

  -- Each entry of the metadata between brackets, behind a space.
  abbrev pub entry_text : Attr V T → Text
  entry_text m =
      space_byte ∷ [] ++ (literal "[" ++ (meta_text outside.string_of m.value ++ literal "]"))

  abbrev pub pre_formated_text : Text
  pre_formated_text =
      if is_blank h.pre_formated_attr then [] else space_byte ∷ [] ++ h.pre_formated_attr

  abbrev pub record_attrs : List (Attr V T) → Text
  record_attrs [] = []
  record_attrs (a ∷ attrs) =
      attr_text outside.string_of h.group_prefix h.time_format a.key a.value ++ record_attrs attrs

  abbrev pub found_text : Option Source → Text
  found_text none = []
  found_text (some source) = source_text outside.decimal outside.debug_enabled source

  abbrev pub traced_text : Record V T → Text
  traced_text r = if lt_int r.level h.source_level then [] else found_text r.source

  abbrev pub rest_text : Record V T → Text
  rest_text r =
      (space_byte ∷ [] ++ r.message)
      ++ (pre_formated_text ++ (record_attrs r.attrs ++ (10 ∷ [] ++ traced_text r)))

  abbrev pub entries_text : List (Attr V T) → Text → Text
  entries_text [] rest = rest
  entries_text (m ∷ metadata) rest = entry_text m ++ entries_text metadata rest

  -- The line of a record, and the source in a line of its own.
  abbrev pub line : Record V T → Text
  line r =
      time_part r
      ++ (time_space ++ (h.level_format r.level ++ entries_text h.metadata (rest_text r)))
