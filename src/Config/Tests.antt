-- ===== src/Config/Tests.antt =====
-- The theorems on the settings, at files in a list.
use mathlib.Core.Option.{or_else}
use xmongodb.Common.{◌≡◌, refl, none, some, [], ◌∷◌, ok, err}
use xmongodb.Common.Int.{pos}
use xmongodb.Bytes.{Bytes, lex}
use xmongodb.RecordId.Text.{codes}
use xmongodb.Dict
use xmongodb.Dict.{Dict}
use xmongodb.Os.Memory.{Node, file, memory, memory-IsLawful}
use xmongodb.Config.{Config, Setting, text, number, defaults, settings_of}
use xmongodb.Config.Toml.{read_toml}
use xmongodb.Config.Load.{
  default_settings, default_content, load_config, not_read, read_or_create, set_defaults,
}
use xmongodb.Config.Memory.{content_at, memory_viper, memory_viper-IsLawful}
use xmongodb.Config.Loading.{
  View, Answers, nothing_known, load_config-Answers, load_config-defaults,
}

defaults_set : settings_of defaults ≡ default_settings
defaults_set = refl

-- What is refused: a key that comes twice, a key in front of the tables, an open text.
refused_twice : read_toml (codes "[a]\nb = 1\nb = 2\n") ≡ none
unfolding read_toml lex
refused_twice = refl

refused_first : read_toml (codes "b = 1\n[a]\n") ≡ none
unfolding read_toml lex
refused_first = refl

refused_open : read_toml (codes "[a]\nb = \"1\n") ≡ none
unfolding read_toml lex
refused_open = refl

abbrev path : Bytes
path = codes "mongodb.conf"

-- A file with two settings.
abbrev own_content : Bytes
own_content = codes "[server]\nport = 27018\n\n[logger]\nlevel = \"debug\"\n"

abbrev own_entries : Dict Setting
own_entries =
    (codes "server.port", number (pos 27018)) ∷ (codes "logger.level", text (codes "debug")) ∷ []

abbrev own_settings : Config
own_settings = record defaults {
  server = record defaults.server { port = pos 27018 };
  logger = record defaults.logger { level = codes "debug" };
}

own_content_read : read_toml own_content ≡ some own_entries
unfolding read_toml lex
own_content_read = refl

own_answers : Answers default_settings own_entries own_settings
unfolding or_else Dict.lookup lex
own_answers = refl

abbrev own_files : Dict Node
own_files = (path, file own_content) ∷ []

own_there : content_at path own_files ≡ some own_content
unfolding Dict.lookup lex memory-IsLawful
own_there = refl

load_config-Answers_example :
    (v' : View) × (load_config memory memory_viper path nothing_known own_files
      ≡ (ok own_settings, v', own_files))
unfolding memory_viper-IsLawful memory-IsLawful
load_config-Answers_example =
    load_config-Answers memory memory_viper memory_viper-IsLawful path nothing_known own_files
      own_content own_entries own_settings (λ h. cc) refl own_there own_content_read own_answers

abbrev written_files : Dict Node
written_files = (path, file default_content) ∷ []

load_config-defaults_example :
    ((v' : View) × (load_config memory memory_viper path nothing_known []
        ≡ (ok defaults, v', written_files)))
    × ((v' : View) × (load_config memory memory_viper path nothing_known written_files
          ≡ (ok defaults, v', written_files)))
unfolding Dict.lookup Dict.insert memory_viper-IsLawful
load_config-defaults_example =
    load_config-defaults memory memory_viper memory_viper-IsLawful path nothing_known nothing_known
      [] (λ h. cc) refl refl refl refl

-- A file that is no TOML.
not_read_test :
    (load_config memory memory_viper path nothing_known ((path, file (codes "port")) ∷ [])).0
    ≡ err (not_read (codes "no TOML"))
unfolding load_config read_or_create read_toml Dict.lookup lex set_defaults memory-IsLawful
not_read_test = refl
