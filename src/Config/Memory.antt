-- ===== src/Config/Memory.antt =====
-- A viper that keeps what it is told in a `View`, and that it is as the library documents.
use xmongodb.Common.{
  ℕ, ◌≡◌, ◌≢◌, ◌∙◌, refl, ap, map, get_elem?, Bool, false, Option, none, some, List, [], ◌∷◌,
  Result, ok, err,
}
use xmongodb.Common.Int.{ℤ, pos}
use xmongodb.Bytes.{Bytes}
use xmongodb.RecordId.Text.{codes}
use xmongodb.Dict
use xmongodb.Dict.{Dict}
use xmongodb.Os.{Failure}
use xmongodb.Os.Memory.{Node, memory-IsLawful}
use xmongodb.Config.{Config, Setting, text, number, flag, defaults, settings_of}
use xmongodb.Config.Toml.{read_toml}
use xmongodb.Config.Load.{Viper}
use xmongodb.Config.Loading.{View, value, IsLawful}

abbrev text_at : ℕ → List (Option Setting) → Bytes
text_at n l = elim (get_elem? l n) [ some (some (text t)) ↦ t | _ ↦ [] ]

abbrev number_at : ℕ → List (Option Setting) → ℤ
number_at n l = elim (get_elem? l n) [ some (some (number z)) ↦ z | _ ↦ pos 0 ]

abbrev flag_at : ℕ → List (Option Setting) → Bool
flag_at n l = elim (get_elem? l n) [ some (some (flag b)) ↦ b | _ ↦ false ]

abbrev config_of : List (Option Setting) → Config
config_of l = record {
  server = record {
    bind_address = text_at 0 l;
    port = number_at 1 l;
    data_dir = text_at 2 l;
    base_dir = text_at 3 l;
    user = text_at 4 l;
    profile_port = number_at 5 l;
  };
  network = record {
    tcp_keep_alive = flag_at 6 l;
    keep_alive_period = text_at 7 l;
    tcp_read_timeout = text_at 8 l;
    tcp_write_timeout = text_at 9 l;
    max_msg_len = number_at 10 l;
    compress_encoding = flag_at 11 l;
    max_connections = number_at 12 l;
    connection_timeout = text_at 13 l;
  };
  storage = record {
    engine = text_at 14 l;
    journal_enabled = flag_at 15 l;
    oplog_size_mb = number_at 16 l;
    cache_size_gb = number_at 17 l;
    directory_for_db = text_at 18 l;
    sync_period_secs = number_at 19 l;
    checkpoint_secs = number_at 20 l;
    wired_tiger_cache = number_at 21 l;
  };
  security = record {
    authorization = flag_at 22 l;
    auth_mechanism = text_at 23 l;
    key_file = text_at 24 l;
    cluster_auth_mode = text_at 25 l;
    ssl_mode = text_at 26 l;
    ssl_pem_key_file = text_at 27 l;
    ssl_ca_file = text_at 28 l;
  };
  logger = record {
    level = text_at 29 l;
    format = text_at 30 l;
    output = text_at 31 l;
    max_size = number_at 32 l;
    max_backups = number_at 33 l;
    max_age = number_at 34 l;
    compress = flag_at 35 l;
  };
}

pub config_of-settings_of : (c : Config) → config_of (map (λ p. some p.1) (settings_of c)) ≡ c
config_of-settings_of c = refl

abbrev pub content_at : Bytes → Dict Node → Option Bytes
content_at = memory-IsLawful.content

abbrev reading_toml : Option (Dict Setting) → View → Result Failure (Unit {0}) × View
reading_toml none v = (err (codes "no TOML"), v)
reading_toml (some es) v = (ok tt, record v { entries = es })

abbrev reading : Option Bytes → View → Result Failure (Unit {0}) × View
reading none v = (err (codes "no file"), v)
reading (some content) v = reading_toml (read_toml content) v

abbrev named : Bytes → (View → View) → View → View
named [] f v = v
named (b ∷ bs) f v = f v

abbrev decode : View → Config
decode v = config_of (map (λ p. value v.defaults v.entries p.0) (settings_of defaults))

abbrev pub memory_viper : Viper View (Dict Node)
memory_viper = record {
  set_default = λ k x v. record v { defaults = Dict.insert k x v.defaults };
  set_config_file = λ p v. named p (λ u. record u { config_file = p }) v;
  set_config_type = λ t v. named t (λ u. record u { config_type = t }) v;
  read_in_config = λ v f. reading (content_at v.config_file f) v;
  unmarshal = λ v. ok (decode v);
}

pub named_lem : (p : Bytes) (f : View → View) (v : View) → p ≢ [] → named p f v ≡ f v
named_lem [] f v h = absurd (h refl)
named_lem (b ∷ bs) f v h = refl

pub reads :
    (v : View) (f : Dict Node) (content : Bytes) (es : Dict Setting)
    → content_at v.config_file f ≡ some content
    → read_toml content ≡ some es
    → (v' : View) × (reading (content_at v.config_file f) v ≡ (ok tt, v'))
      × (v' ≡ record v { entries = es })
reads v f content es there good = (record v { entries = es }, rw (there, good) refl, refl)

unfoldable pub memory_viper-IsLawful : IsLawful memory-IsLawful memory_viper
memory_viper-IsLawful = record {
  view = λ v. v;
  view-set_default = λ k x v. refl;
  view-set_config_file = λ p v. named_lem p (λ u. record u { config_file = p }) v;
  view-set_config_type = λ t v. named_lem t (λ u. record u { config_type = t }) v;
  view-read_in_config = λ v f content es typed. reads v f content es;
  unmarshal-view = λ v c answers. ap ok (ap config_of answers ∙ config_of-settings_of c);
}
