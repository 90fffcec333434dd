-- ===== src/Logger/Tests.antt =====
-- Runs of the logger, with loggers that keep what they are set to, and files that are the list of
-- what was written.
use xmongodb.Common.{ℕ, ◌≡◌, refl, true, none, some, List, [], ◌∷◌, ok, err, length, if◌then◌else◌}
use xmongodb.Bytes.{Bytes, bytes_equal, lex}
use xmongodb.RecordId.Text.{codes}
use xmongodb.Config.{LoggerConfig, defaults}
use xmongodb.Logger.{
  Logrus, stdout, text_formatter, Call, warnf, warning, timestamp_format, init, get_logger,
}
use xmongodb.Logger.Made.{View, IsLawful}

-- Two levels are known, and one file can be opened.
abbrev lr : Logrus Bytes (View Bytes) ℕ Bytes (List (Call Bytes))
lr = record {
  new = record { level = 4; formatter = none; target = none };
  parse_level = λ l.
      if bytes_equal l (codes "debug")
      then ok 5
      else if bytes_equal l (codes "info")
      then ok 4
      else err (codes "not a level");
  info_level = 4;
  set_level = λ l g. record g { level = l };
  set_formatter = λ x g. record g { formatter = some x };
  set_output = λ t g. record g { target = some t };
  write = λ c g f. c ∷ f;
  with_fields = λ fields g. length fields;
  with_field = λ key value g. 1;
  open_file = λ path mode f.
      if bytes_equal path (codes "a.log") then (ok path, f) else (err (codes "denied"), f);
}

lr-IsLawful : IsLawful lr
lr-IsLawful = record {
  view = λ g. g;
  view-set_level = λ l g. refl;
  view-set_formatter = λ x g. refl;
  view-set_output = λ t g. refl;
}

abbrev settings : LoggerConfig
settings = record defaults.logger {
  level = codes "debug";
  format = codes "text";
  output = codes "a.log";
}

abbrev to_text : Bytes → Bytes
to_text t = t

-- A level that is none, and a file that cannot be opened.
init_test :
    init lr to_text (record settings { level = codes "loud"; output = codes "b.log" }) none [] ≡ (
      some (record {
        level = 4;
        formatter = some (text_formatter timestamp_format true);
        target = some stdout;
      }),
      warnf warning (codes "b.log" ∷ codes "denied" ∷ []) ∷ [],
    )
unfolding init lex
init_test = refl

-- The logger of a program that called no `Init` is made once.
get_logger_test : get_logger lr to_text (get_logger lr to_text none).1 ≡ (lr.new, some lr.new)
unfolding get_logger
get_logger_test = refl
