-- ===== src/Logger.antt =====
-- logger/logger.go. The library logrus and the opening of files are a parameter: its loggers are `G`, its
-- entries `E`, an open file is an `H`, and `F` is where files are and what is written ends up.
pub mod Made
mod Tests
use xmongodb.Common.{
  ℕ, Bool, true, Option, none, some, List, [], ◌∷◌, Result, ok, err, ◌||◌, if◌then◌else◌,
}
use xmongodb.Bytes.{Bytes, bytes_equal, lex}
use xmongodb.RecordId.Text.{codes}
use xmongodb.Dict.{Dict}
use xmongodb.Os.{Failure}
use xmongodb.Config.{LoggerConfig}

-- With the form of the times; `text_formatter` says whether the whole time is written.
pub data Formatter : Type 0 where
  json_formatter : Bytes → Formatter
  text_formatter : Bytes → Bool → Formatter

pub data Target (H : Type 0) : Type 0 where
  stdout : Target H
  opened : H → Target H

-- The methods of a logger that write: what they write is given, and the `f` of the formatting ones is the
-- format. That `fatal` ends the process is left to the library.
pub data Call (A : Type 0) : Type 0 where
  debug info warn error fatal : List A → Call A
  debugf infof warnf errorf fatalf : Bytes → List A → Call A

pub record Logrus (A G E H F : Type 0) : Type 0 where
  pub new : G
  pub parse_level : Bytes → Result Failure ℕ
  pub info_level : ℕ
  pub set_level : ℕ → G → G
  pub set_formatter : Formatter → G → G
  pub set_output : Target H → G → G
  pub write : Call A → G → F → F
  pub with_fields : Dict A → G → E
  pub with_field : Bytes → A → G → E
  pub open_file : (path : Bytes) (mode : ℕ) → F → Result Failure H × F

abbrev pub timestamp_format : Bytes
timestamp_format = codes "2006-01-02 15:04:05"

-- The format of the warning, in Chinese and in UTF-8.
abbrev pub warning : Bytes
warning =
    230 ∷ 151 ∷ 160 ∷ 230 ∷ 179 ∷ 149 ∷ 230 ∷ 137 ∷ 147 ∷ 229 ∷ 188 ∷ 128 ∷ 230 ∷ 151 ∷ 165 ∷ 229
    ∷ 191 ∷ 151 ∷ 230 ∷ 150 ∷ 135 ∷ 228 ∷ 187 ∷ 182 ∷ 32 ∷ 37 ∷ 115 ∷ 58 ∷ 32 ∷ 37 ∷ 118 ∷ 44 ∷ 32
    ∷ 228 ∷ 189 ∷ 191 ∷ 231 ∷ 148 ∷ 168 ∷ 230 ∷ 160 ∷ 135 ∷ 229 ∷ 135 ∷ 134 ∷ 232 ∷ 190 ∷ 147 ∷ 229
    ∷ 135 ∷ 186 ∷ []

module _ {A G E H F : Type 0} (lr : Logrus A G E H F) (of_text : Bytes → A) where
  abbrev pub level_of : Result Failure ℕ → ℕ
  level_of (ok l) = l
  level_of (err e) = lr.info_level

  abbrev pub formatter_of : Bytes → Formatter
  formatter_of format =
      if bytes_equal format (codes "json")
      then json_formatter timestamp_format
      else text_formatter timestamp_format true

  -- What follows `os.OpenFile`. The warning names the file and the error.
  abbrev pub use_file : Bytes → G → Result Failure H × F → G × F
  use_file path g (ok h, f) = (lr.set_output (opened h) g, f)
  use_file path g (err e, f) =
      (lr.set_output stdout g, lr.write (warnf warning (of_text path ∷ of_text e ∷ [])) g f)

  -- `Init`: the logger before it is dropped.
  unfoldable pub init : LoggerConfig → Option G → F → Option G × F
  init cfg old f =
      let g = lr.set_level (level_of (lr.parse_level cfg.level)) lr.new in
      let g' = lr.set_formatter (formatter_of cfg.format) g in
      if bytes_equal cfg.output (codes "stdout") || bytes_equal cfg.output []
      then (some (lr.set_output stdout g'), f)
      else (let r = use_file cfg.output g' (lr.open_file cfg.output 0o666 f) in (some r.0, r.1))

  -- `GetLogger`, with what it leaves in the variable `log`.
  unfoldable pub get_logger : Option G → G × Option G
  get_logger none = (lr.new, some lr.new)
  get_logger (some g) = (g, some g)

  -- `Debug` and the others.
  unfoldable pub write : Call A → Option G → F → Option G × F
  unfolding get_logger
  write c log f = let r = get_logger log in (r.1, lr.write c r.0 f)

  unfoldable pub with_fields : Dict A → Option G → E × Option G
  unfolding get_logger
  with_fields fields log = let r = get_logger log in (lr.with_fields fields r.0, r.1)

  unfoldable pub with_field : Bytes → A → Option G → E × Option G
  unfolding get_logger
  with_field key value log = let r = get_logger log in (lr.with_field key value r.0, r.1)
