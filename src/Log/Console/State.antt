-- ===== src/Log/Console/State.antt =====
-- log/loghandler/consle_state.go: what a record's line is written with. A method takes the state and
-- returns the next one, which keeps the first error. The debug flag of the build is an argument, and
-- so are slog's texts of values, the decimal digits of a number, and the fuel of a flush.
use qtfra.Common.{ℕ, Bool, true, false, ◌||◌, List, [], ◌∷◌, ◌++◌, Option, none, some}
use qtfra.Common.Tests.{if◌then◌else◌, nat_beq, nat_comparable}
use qtfra.Common.Outcomes.{Outcome, returns, panics, ◌>>=◌}
use qtfra.Ex.Error.{Error}
use qtfra.Buf.Buffer.Stream.{WriteCall}
use qtfra.Iolib.BufWriter.{BufWriter, write_bytes, write_text, write_one}
use qtfra.Log.Attrs.{
  Text, literal, join, Value, Resolved, Attrs, plain, moment, group, valuer, to_plain, to_moment,
  to_group, nil, cons,
}

abbrev pub space_byte : ℕ
space_byte = 32

abbrev pub dot : ℕ
dot = 46

-- consoleHandlerState
pub record State (W T : Type 0) : Type 0 where
  pub err : Option Error
  pub buffer : BufWriter W
  pub group : Text
  pub level : ℕ → Text
  pub time : Option (T → Text)

-- slog's Source
pub record Source : Type 0 where
  pub file : Text
  pub line : ℕ
  pub function : Text

-- `len(s) == 0`
abbrev pub is_blank : List ℕ → Bool
is_blank [] = true
is_blank (x ∷ xs) = false

-- `strings.Contains(s, " ")`
abbrev pub has_space : Text → Bool
has_space [] = false
has_space (x ∷ xs) = nat_beq x space_byte || has_space xs

abbrev pub key_or_bad : Text → Text
key_or_bad key = if is_blank key then literal "!BADKEY" else key

module _ {W T : Type 0} where
  -- `_, s.Err = …`, after a Write of the buffer.
  abbrev pub put_count :
      State W T → Outcome ((ℕ × Option Error) × BufWriter W) → Outcome (State W T)
  put_count s m = do done ← m; returns (record s { err = done.0.1; buffer = done.1 })

  -- `s.Err = …`
  abbrev pub put_error : State W T → Outcome (Option Error × BufWriter W) → Outcome (State W T)
  put_error s m = do done ← m; returns (record s { err = done.0; buffer = done.1 })

  -- `if s.Err != nil { return }`
  abbrev pub unless_failed : State W T → Option Error → Outcome (State W T) → Outcome (State W T)
  unless_failed s (some err) m = returns s
  unless_failed s none m = m

module _ {W T : Type 0} (write_call : WriteCall W) (fuel : ℕ) where
  -- Write
  abbrev pub write : List ℕ → State W T → Outcome (State W T)
  write p s = unless_failed s s.err (put_count s (write_bytes write_call fuel p s.buffer))

  -- WriteString
  abbrev pub write_string : Text → State W T → Outcome (State W T)
  write_string ss s = unless_failed s s.err (put_count s (write_text write_call fuel ss s.buffer))

  abbrev pub formatted : Option (T → Text) → T → State W T → Outcome (State W T)
  formatted none t s = panics
  formatted (some time) t s = put_count s (write_text write_call fuel (time t) s.buffer)

  -- WriteTime, WriteLevel
  abbrev pub write_time : T → State W T → Outcome (State W T)
  write_time t s = unless_failed s s.err (formatted s.time t s)

  abbrev pub write_level : ℕ → State W T → Outcome (State W T)
  write_level l s =
      unless_failed s s.err (put_count s (write_text write_call fuel (s.level l) s.buffer))

  abbrev pub write_byte : ℕ → State W T → Outcome (State W T)
  write_byte x s = unless_failed s s.err (put_error s (write_one write_call fuel x s.buffer))

  -- NextLine, Space
  abbrev pub next_line : State W T → Outcome (State W T)
  next_line s = write_byte 10 s

  abbrev pub space : State W T → Outcome (State W T)
  space s = write_byte space_byte s

  abbrev pub suffixed : Option ℕ → State W T → Outcome (State W T)
  suffixed none s = returns s
  suffixed (some suffix) s = put_error s (write_one write_call fuel suffix s.buffer)

  -- writeElement
  abbrev pub write_element : Text → Option ℕ → State W T → Outcome (State W T)
  write_element str suffix s = unless_failed s s.err (
      if is_blank str then suffixed suffix s else (do
        s' ← put_count s (write_text write_call fuel str s.buffer)
        unless_failed s' s'.err (suffixed suffix s')))

  -- Source
  abbrev pub write_source : (ℕ → Text) → Bool → Source → State W T → Outcome (State W T)
  write_source decimal debug_enabled source s = unless_failed s s.err (
      write_element
        (if debug_enabled
          then literal "Caller: "
            ++ (source.file
                ++ (literal ":"
                    ++ (decimal source.line
                        ++ (literal " " ++ (source.function ++ literal " \n")))))
          else literal "Caller: " ++ (source.function ++ literal " \n"))
        none s)

-- `(false, s)` after an error.
abbrev pub go_on :
    {W T : Type 0}
    → State W T
    → Option Error
    → Outcome (Bool × State W T)
    → Outcome (Bool × State W T)
go_on s (some err) m = returns (false, s)
go_on s none m = m

-- `s.Err == nil`
abbrev pub is_nil : Option Error → Bool
is_nil none = true
is_nil (some err) = false

-- A value with a space in it goes between back quotes.
abbrev pub quoted : Text → Text
quoted value_str =
    if has_space value_str then literal "`" ++ (value_str ++ literal "`") else value_str

module _ {V T : Type 0} (string_of : Value V T → Text) where
  -- The text of a time, by the formatter or by slog.
  abbrev pub time_text : Option (T → Text) → T → Text
  time_text none t = string_of (moment t)
  time_text (some time) t = time t

  -- groupValues: a value that is no group is its text, a group the texts in it, at any depth.
  unfoldable mutual
    pub group_values : Value V T → List Text
    group_values (plain v) = string_of (plain v) ∷ []
    group_values (moment t) = string_of (moment t) ∷ []
    group_values (group attrs) = group_values_loop attrs
    group_values (valuer v r) = resolved_values r

    pub resolved_values : Resolved V T → List Text
    resolved_values (to_plain v) = string_of (plain v) ∷ []
    resolved_values (to_moment t) = string_of (moment t) ∷ []
    resolved_values (to_group attrs) = group_values_loop attrs

    pub group_values_loop : Attrs V T → List Text
    group_values_loop nil = []
    group_values_loop (cons key v attrs) = group_values v ++ group_values_loop attrs

  -- The text that WriteMeta puts between brackets.
  abbrev pub text_or_empty : Text → Text
  text_or_empty str = if is_blank str then literal "!EMPTY" else str

  abbrev pub meta_text : Value V T → Text
  meta_text (plain v) = text_or_empty (string_of (plain v))
  meta_text (moment t) = text_or_empty (string_of (moment t))
  meta_text (group attrs) = join (literal " ") (group_values_loop attrs)
  meta_text (valuer v (to_plain w)) = text_or_empty (string_of (plain w))
  meta_text (valuer v (to_moment t)) = text_or_empty (string_of (moment t))
  meta_text (valuer v (to_group attrs)) = join (literal " ") (group_values_loop attrs)

  module _ {W : Type 0} (write_call : WriteCall W) (fuel : ℕ) where
    -- The end of WriteAttr, for a value that is no group.
    abbrev pub write_plain : Text → Text → State W T → Outcome (Bool × State W T)
    write_plain key value_str s = do
      s' ←
          (if is_blank s.group
            then returns s
            else write_element write_call fuel s.group (some dot) s)
      go_on s' s'.err (do
        last ←
            write_element write_call fuel (key ++ (literal "=" ++ quoted value_str))
              (some space_byte) s'
        returns (is_nil last.err, last))

    -- WriteAttr: a space, and the attribute; for a group, its attributes under their own keys behind
    -- the group's, until one fails.
    unfoldable mutual
      pub write_attr : Text → Value V T → State W T → Outcome (Bool × State W T)
      write_attr key (plain v) s = go_on s s.err (do
        s' ← space write_call fuel s
        go_on s' s'.err (write_plain (key_or_bad key) (string_of (plain v)) s'))
      write_attr key (moment t) s = go_on s s.err (do
        s' ← space write_call fuel s
        go_on s' s'.err (write_plain (key_or_bad key) (time_text s'.time t) s'))
      write_attr key (group attrs) s =
          go_on s s.err (do
            s' ← space write_call fuel s
            go_on s' s'.err (write_group (key_or_bad key) attrs s'))
      write_attr key (valuer v r) s =
          go_on s s.err (do
            s' ← space write_call fuel s
            go_on s' s'.err (write_resolved (key_or_bad key) r s'))

      pub write_resolved : Text → Resolved V T → State W T → Outcome (Bool × State W T)
      write_resolved key (to_plain v) s = write_plain key (string_of (plain v)) s
      write_resolved key (to_moment t) s = write_plain key (time_text s.time t) s
      write_resolved key (to_group attrs) s = write_group key attrs s

      pub write_group : Text → Attrs V T → State W T → Outcome (Bool × State W T)
      write_group key nil s = returns (true, s)
      write_group key (cons k v attrs) s = do
        done ← write_attr (key ++ (literal "." ++ k)) v s
        let rest = write_group key attrs done.1
        (if done.0 then rest else returns (false, done.1))

    -- WriteMeta
    abbrev pub write_meta : Value V T → State W T → Outcome (State W T)
    write_meta value s = unless_failed s s.err (do
      s' ← space write_call fuel s
      unless_failed s' s'.err
          (write_element write_call fuel (literal "[" ++ (meta_text value ++ literal "]")) none s'))
