-- ===== src/Log/Levels.antt =====
-- log/move.go and log/format.go: the levels of slog as words, the names that ParseLevel knows, and the
-- texts of EqualLengthLevelFormatter. Trimming and upper case, and decimal numbers, are parameters.
use text.Mathlib.Text.{◌==◌ as text_eq}
use Prim.Native.String.{◌++◌ as text_append}
use qtfra.Common.{ℕ, ◌||◌, Option, none, some, String}
use qtfra.Common.Tests.{if◌then◌else◌, nat_beq}
use qtfra.Common.Words.{minus, sub_int, lt_int}

abbrev pub level_debug : ℕ
level_debug = minus 4

abbrev pub level_info : ℕ
level_info = 0

abbrev pub level_warn : ℕ
level_warn = 4

abbrev pub level_error : ℕ
level_error = 8

abbrev pub level_disable : ℕ
level_disable = 9

-- ParseLevel, of a name that `normal` trims and puts in upper case; none for `(0, false)`.
pub parse_level : (String → String) → String → Option ℕ
parse_level normal s =
    let us = normal s in
    if text_eq us "DEBUG"
    then some level_debug
    else if text_eq us "INFO"
    then some level_info
    else if text_eq us "WARN" || text_eq us "WARNING"
    then some level_warn
    else if text_eq us "ERROR"
    then some level_error
    else if text_eq us "OFF" || text_eq us "QUIET" || text_eq us "DISABLED"
    then some level_disable
    else none

-- The base text of a level and how far it is above, where it is.
abbrev pub level_text : (ℕ → String) → String → ℕ → String
level_text decimal base val =
    if nat_beq val 0 then base else text_append base (text_append "+" (decimal val))

-- EqualLengthLevelFormatter
pub equal_length_level_formatter : (ℕ → String) → ℕ → String
equal_length_level_formatter decimal l =
    if lt_int l level_info
    then level_text decimal "DEBUG" (sub_int l level_debug)
    else if lt_int l level_warn
    then level_text decimal "INFO " (sub_int l level_info)
    else if lt_int l level_error
    then level_text decimal "WARN " (sub_int l level_warn)
    else level_text decimal "ERROR" (sub_int l level_error)

-- ColorLevelFormatter, with the colours of a terminal, which another package writes.
pub color_level_formatter :
    (String → String)
    → (String → String)
    → (String → String)
    → (String → String)
    → (ℕ → String)
    → ℕ
    → String
color_level_formatter white cyan yellow red decimal l =
    let red_decimal : ℕ → String = λ val. red (decimal val) in
    if lt_int l level_info
    then level_text red_decimal (white "DEBUG") (sub_int l level_debug)
    else if lt_int l level_warn
    then level_text red_decimal (cyan "INFO ") (sub_int l level_info)
    else if lt_int l level_error
    then level_text red_decimal (yellow "WARN ") (sub_int l level_warn)
    else level_text red_decimal (red "ERROR") (sub_int l level_error)
