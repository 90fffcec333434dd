-- ===== src/Config/Loading.antt =====
-- What `LoadConfig` makes of a file, and of no file.
use mathlib.Core.Option.{or_else}
use xmongodb.Common.{◌≡◌, ◌≢◌, refl, ap, ◌∙◌, false, Option, some, [], ◌∷◌, ok, map}
use xmongodb.Bytes.{Bytes, lex}
use xmongodb.RecordId.Text.{codes}
use xmongodb.Dict
use xmongodb.Dict.{Dict}
use xmongodb.Os
use xmongodb.Os.{Os}
use xmongodb.Config.{Config, Setting, settings_of, defaults}
use xmongodb.Config.Toml.{read_toml}
use xmongodb.Config.Load.{
  Viper, default_settings, default_content, set_all, set_defaults, create_default_config,
  read_or_create, load_config,
}

-- What viper knows: the file that it is to read, the defaults, and what it read.
pub record View : Type 0 where
  pub config_file : Bytes
  pub config_type : Bytes
  pub defaults : Dict Setting
  pub entries : Dict Setting

-- The file goes before the defaults.
abbrev pub value : Dict Setting → Dict Setting → Bytes → Option Setting
value ds es k = or_else (Dict.lookup k es) (Dict.lookup k ds)

-- Every setting of `c` is the one that the file has, or the default where it has none.
abbrev pub Answers : (ds es : Dict Setting) → Config → Type 0
Answers ds es c = map (λ p. value ds es p.0) (settings_of c) ≡ map (λ p. some p.1) (settings_of c)

abbrev pub nothing_known : View
nothing_known = record { config_file = []; config_type = []; defaults = []; entries = [] }

-- What viper documents: an empty name is no name of a file; a file of the type `toml` is read as TOML
-- says; decoding looks the keys of the tags up.
pub record IsLawful {V F : Type 0} {os : Os F} (files : Os.IsLawful os) (viper : Viper V F)
    : Type 0 where
  pub view : V → View
  pub view-set_default :
      (k : Bytes) (x : Setting) (v : V)
      → view (viper.set_default k x v)
        ≡ record (view v) { defaults = Dict.insert k x (view v).defaults }
  pub view-set_config_file :
      (p : Bytes) (v : V)
      → p ≢ []
      → view (viper.set_config_file p v) ≡ record (view v) { config_file = p }
  pub view-set_config_type :
      (t : Bytes) (v : V)
      → t ≢ []
      → view (viper.set_config_type t v) ≡ record (view v) { config_type = t }
  pub view-read_in_config :
      (v : V) (f : F) (content : Bytes) (es : Dict Setting)
      → (view v).config_type ≡ codes "toml"
      → files.content (view v).config_file f ≡ some content
      → read_toml content ≡ some es
      → (v' : V) × (viper.read_in_config v f ≡ (ok tt, v'))
        × (view v' ≡ record (view v) { entries = es })
  pub unmarshal-view :
      (v : V) (c : Config) → Answers (view v).defaults (view v).entries c → viper.unmarshal v ≡ ok c

inserted : Dict Setting → Dict Setting → Dict Setting
inserted [] ds = ds
inserted ((k, x) ∷ more) ds = inserted more (Dict.insert k x ds)

defaults_in_order : inserted default_settings [] ≡ default_settings
unfolding inserted Dict.insert lex
defaults_in_order = refl

-- The default file and the defaults give the same settings as the defaults alone.
default_file_read : read_toml default_content ≡ some default_settings
unfolding read_toml lex
default_file_read = refl

defaults_answer : Answers default_settings [] defaults
unfolding or_else Dict.lookup lex
defaults_answer = refl

default_file_answers : Answers default_settings default_settings defaults
unfolding or_else Dict.lookup lex
default_file_answers = refl

module _ {V F : Type 0} (os : Os F) (viper : Viper V F) {files : Os.IsLawful os}
    (laws : IsLawful files viper) where
  view-set_all :
      (ds : Dict Setting) (v : V)
      → laws.view (set_all os viper ds v)
        ≡ record (laws.view v) { defaults = inserted ds (laws.view v).defaults }
  unfolding inserted
  view-set_all [] v = refl
  view-set_all ((k, x) ∷ ds) v =
      view-set_all ds (viper.set_default k x v) ∙ rw (laws.view-set_default k x v) refl

  -- What viper is when the file is looked for.
  abbrev prepared : Bytes → V → V
  prepared p v =
      viper.set_config_type (codes "toml") (viper.set_config_file p (set_defaults os viper v))

  view-prepared :
      (p : Bytes) (v : V)
      → p ≢ []
      → laws.view v ≡ nothing_known
      → laws.view (prepared p v) ≡ record {
        config_file = p;
        config_type = codes "toml";
        defaults = default_settings;
        entries = [];
      }
  unfolding set_defaults
  view-prepared p v named fresh =
      let typed =
        laws.view-set_config_type (codes "toml")
          (viper.set_config_file p (set_all os viper default_settings v)) (λ h. cc) in
      let filed = laws.view-set_config_file p (set_all os viper default_settings v) named in
      rw (typed, filed, view-set_all default_settings v, fresh, defaults_in_order) refl

  -- With `os` and viper as they document: the path is not empty, and the file there is of the part of TOML
  -- that `read_toml` reads. `LoadConfig`, with viper as the process begins, returns the settings that are
  -- those of the file, and the defaults where the file has none, if there are such, and leaves the files
  -- as they are.
  pub load_config-Answers :
      (path : Bytes) (v : V) (f : F) (content : Bytes) (es : Dict Setting) (c : Config)
      → path ≢ []
      → laws.view v ≡ nothing_known
      → files.content path f ≡ some content
      → read_toml content ≡ some es
      → Answers default_settings es c
      → (v' : V) × (load_config os viper path v f ≡ (ok c, v', f))
  unfolding load_config read_or_create
  load_config-Answers path v f content es c named fresh there good answers =
      let seen = view-prepared path v named fresh in
      let (v', read, now) =
        laws.view-read_in_config (prepared path v) f content es (ap (λ w. w.config_type) seen)
          (ap (λ w. files.content w.config_file f) seen ∙ there) good in
      let now' = now ∙ ap {A = View} (λ w. record w { entries = es }) seen in
      let decoded = laws.unmarshal-view v' c (rw now' answers) in
      (v', rw (files.stat-content path content f there, read, decoded) refl)

  -- With `os` and viper as they document: the path is not empty, there is no file, and one can be written.
  -- `LoadConfig`, with viper as the process begins, returns the defaults, and so it does in a process that
  -- is begun on the files it leaves, which then stay as they are.
  pub load_config-defaults :
      (path : Bytes) (v v₂ : V) (f : F)
      → path ≢ []
      → laws.view v ≡ nothing_known
      → laws.view v₂ ≡ nothing_known
      → os.stat path f ≡ false
      → (os.write_file path default_content 0o644 f).0 ≡ ok tt
      → let f' = (os.write_file path default_content 0o644 f).1 in
        ((v' : V) × (load_config os viper path v f ≡ (ok defaults, v', f')))
        × ((v' : V) × (load_config os viper path v₂ f' ≡ (ok defaults, v', f')))
  unfolding load_config read_or_create create_default_config
  load_config-defaults path v v₂ f named fresh fresh₂ missing written =
      let f' = (os.write_file path default_content 0o644 f).1 in
      let seen = view-prepared path v named fresh in
      let decoded = laws.unmarshal-view (prepared path v) defaults (rw seen defaults_answer) in
      (
        (prepared path v, rw (missing, create_default_config, written, decoded) refl),
        load_config-Answers path v₂ f' default_content default_settings defaults named fresh₂
            (files.content-write_file path default_content 0o644 f written) default_file_read
            default_file_answers,
      )
