-- ===== src/Log/Console/Builder.antt =====
-- log/loghandler/builder.go: BuildOption and New. A handler comes with its writer; none is slog's
-- DiscardHandler. Opening a file is an argument, and so are the two standard streams.
use qtfra.Common.{ℕ, ◌⊎◌, Bool, ◌||◌, Option, none, some, inl, inr}
use qtfra.Common.Tests.{if◌then◌else◌, ◌==◌}
use qtfra.Ex.Error.{Error, cause}
use qtfra.Log.Attrs.{Text, literal, text_comparable}
use qtfra.Log.Levels.{level_error, level_disable}
use qtfra.Log.Console.State.{is_blank}
use qtfra.Log.Console.Handler.{ConsoleHandler, new_console_handler}

pub record BuildOption (W : Type 0) : Type 0 where
  pub disabled : Bool
  pub output : Text
  pub level : ℕ
  pub time : Bool
  pub debug : Bool
  pub output_writer : Option W

module _ {W : Type 0} (stdout stderr : W) (open_file : Text → Error ⊎ W)
    (equal_length_level_formatter color_level_formatter : ℕ → Text) where
  -- The writer, and the formatter for its levels.
  abbrev pub chosen_file : Text → Option W → Error ⊎ (W × (ℕ → Text))
  chosen_file output (some file) = inr (file, equal_length_level_formatter)
  chosen_file output none =
      if is_blank output || output == literal "stdout"
      then inr (stdout, color_level_formatter)
      else if output == literal "stderr"
      then inr (stderr, color_level_formatter)
      else elim (open_file output) [
        | inl err ↦ inl (cause err "openfile")
        | inr file ↦ inr (file, equal_length_level_formatter)
      ]

  module _ {V T : Type 0} (rfc3339_time_formatter : T → Text) (discards : W → Bool) where
    -- New
    pub new : BuildOption W → Error ⊎ (Option (ConsoleHandler V T × W))
    new opt = if opt.disabled then inr none else elim (chosen_file opt.output opt.output_writer) [
      | inl err ↦ inl err
      | inr (file, level_formatter) ↦
          inr
            (elim (new_console_handler {V = V} rfc3339_time_formatter equal_length_level_formatter
              (discards file)
              (record {
                level = opt.level;
                source_level = if opt.debug then level_error else level_disable;
                enable_time = opt.time;
                time_formatter = some rfc3339_time_formatter;
                level_formatter = some level_formatter;
              })) [ none ↦ none | some h ↦ some (h, file) ])
    ]
