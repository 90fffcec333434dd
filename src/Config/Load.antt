-- ===== src/Config/Load.antt =====
-- `LoadConfig` of config/config.go. The library viper is a parameter: `V` is what it keeps, of which the
-- program has one, and `F` the files.
use xmongodb.Common.{true, false, [], ◌∷◌, ◌++◌, List, Result, ok, err, if◌then◌else◌}
use xmongodb.Common.Int.{pos}
use xmongodb.Bytes.{Bytes}
use xmongodb.RecordId.Text.{codes}
use xmongodb.Dict.{Dict}
use xmongodb.Os.{Os, Failure}
use xmongodb.Config.{Config, Setting, text, number, flag}

pub record Viper (V F : Type 0) : Type 0 where
  pub set_default : Bytes → Setting → V → V
  pub set_config_file : Bytes → V → V
  pub set_config_type : Bytes → V → V
  pub read_in_config : V → F → Result Failure (Unit {0}) × V
  pub unmarshal : V → Result Failure Config

pub data LoadError : Type 0 where
  not_read not_created not_decoded : Failure → LoadError

-- The arguments of the calls of `SetDefault`, in order.
abbrev pub default_settings : Dict Setting
default_settings =
    (codes "server.bind_address", text (codes "127.0.0.1"))
    ∷ (codes "server.port", number (pos 27017))
    ∷ (codes "server.data_dir", text (codes "./data"))
    ∷ (codes "server.base_dir", text (codes "./"))
    ∷ (codes "server.user", text (codes "mongodb"))
    ∷ (codes "server.profile_port", number (pos 6060))
    ∷ (codes "network.tcp_keep_alive", flag true)
    ∷ (codes "network.keep_alive_period", text (codes "180s"))
    ∷ (codes "network.tcp_read_timeout", text (codes "30s"))
    ∷ (codes "network.tcp_write_timeout", text (codes "30s"))
    ∷ (codes "network.max_msg_len", number (pos 67108864))
    ∷ (codes "network.compress_encoding", flag false)
    ∷ (codes "network.max_connections", number (pos 1000))
    ∷ (codes "network.connection_timeout", text (codes "30s"))
    ∷ (codes "storage.engine", text (codes "wiredTiger"))
    ∷ (codes "storage.journal_enabled", flag true)
    ∷ (codes "storage.oplog_size_mb", number (pos 1024))
    ∷ (codes "storage.cache_size_gb", number (pos 1))
    ∷ (codes "storage.directory_for_db", text (codes "./data/db"))
    ∷ (codes "storage.sync_period_secs", number (pos 60))
    ∷ (codes "storage.checkpoint_secs", number (pos 60))
    ∷ (codes "storage.wired_tiger_cache", number (pos 1073741824))
    ∷ (codes "security.authorization", flag false)
    ∷ (codes "security.auth_mechanism", text (codes "SCRAM-SHA-256"))
    ∷ (codes "security.key_file", text [])
    ∷ (codes "security.cluster_auth_mode", text (codes "keyFile"))
    ∷ (codes "security.ssl_mode", text (codes "disabled"))
    ∷ (codes "security.ssl_pem_key_file", text [])
    ∷ (codes "security.ssl_ca_file", text [])
    ∷ (codes "logger.level", text (codes "info"))
    ∷ (codes "logger.format", text (codes "json"))
    ∷ (codes "logger.output", text (codes "stdout"))
    ∷ (codes "logger.max_size", number (pos 100))
    ∷ (codes "logger.max_backups", number (pos 3))
    ∷ (codes "logger.max_age", number (pos 30))
    ∷ (codes "logger.compress", flag true)
    ∷ []

-- The lines of the file that `createDefaultConfig` writes, and the Chinese words of the first one in
-- UTF-8.
abbrev pub title : Bytes
title =
    codes "# XMongoDB Server "
    ++ 233 ∷ 133 ∷ 141 ∷ 231 ∷ 189 ∷ 174 ∷ 230 ∷ 150 ∷ 135 ∷ 228 ∷ 187 ∷ 182 ∷ []

abbrev default_lines : List Bytes
default_lines =
    title
    ∷ []
    ∷ codes "[server]"
    ∷ codes "bind_address = \"127.0.0.1\""
    ∷ codes "port = 27017"
    ∷ codes "data_dir = \"./data\""
    ∷ codes "base_dir = \"./\""
    ∷ codes "user = \"mongodb\""
    ∷ codes "profile_port = 6060"
    ∷ []
    ∷ codes "[network]"
    ∷ codes "tcp_keep_alive = true"
    ∷ codes "keep_alive_period = \"180s\""
    ∷ codes "tcp_read_timeout = \"30s\""
    ∷ codes "tcp_write_timeout = \"30s\""
    ∷ codes "max_msg_len = 67108864"
    ∷ codes "compress_encoding = false"
    ∷ codes "max_connections = 1000"
    ∷ codes "connection_timeout = \"30s\""
    ∷ []
    ∷ codes "[storage]"
    ∷ codes "engine = \"wiredTiger\""
    ∷ codes "journal_enabled = true"
    ∷ codes "oplog_size_mb = 1024"
    ∷ codes "cache_size_gb = 1"
    ∷ codes "directory_for_db = \"./data/db\""
    ∷ codes "sync_period_secs = 60"
    ∷ codes "checkpoint_secs = 60"
    ∷ codes "wired_tiger_cache = 1073741824"
    ∷ []
    ∷ codes "[security]"
    ∷ codes "authorization = false"
    ∷ codes "auth_mechanism = \"SCRAM-SHA-256\""
    ∷ codes "key_file = \"\""
    ∷ codes "cluster_auth_mode = \"keyFile\""
    ∷ codes "ssl_mode = \"disabled\""
    ∷ codes "ssl_pem_key_file = \"\""
    ∷ codes "ssl_ca_file = \"\""
    ∷ []
    ∷ codes "[logger]"
    ∷ codes "level = \"info\""
    ∷ codes "format = \"json\""
    ∷ codes "output = \"stdout\""
    ∷ codes "max_size = 100"
    ∷ codes "max_backups = 3"
    ∷ codes "max_age = 30"
    ∷ codes "compress = true"
    ∷ []

abbrev end_lines : List Bytes → Bytes
end_lines [] = []
end_lines (l ∷ ls) = l ++ b'\n' ∷ end_lines ls

abbrev pub default_content : Bytes
default_content = end_lines default_lines

module _ {V F : Type 0} (os : Os F) (viper : Viper V F) where
  abbrev pub set_all : Dict Setting → V → V
  set_all [] v = v
  set_all ((k, x) ∷ ds) v = set_all ds (viper.set_default k x v)

  unfoldable pub set_defaults : V → V
  set_defaults v = set_all default_settings v

  unfoldable pub create_default_config : Bytes → F → Result Failure (Unit {0}) × F
  create_default_config path f = os.write_file path default_content 0o644 f

  abbrev after_read : F → Result Failure (Unit {0}) × V → Result LoadError (Unit {0}) × V × F
  after_read f (ok _, v) = (ok tt, v, f)
  after_read f (err e, v) = (err (not_read e), v, f)

  abbrev after_create : V → Result Failure (Unit {0}) × F → Result LoadError (Unit {0}) × V × F
  after_create v (ok _, f) = (ok tt, v, f)
  after_create v (err e, f) = (err (not_created e), v, f)

  -- The two branches on `os.Stat`.
  unfoldable pub read_or_create : Bytes → V → F → Result LoadError (Unit {0}) × V × F
  unfolding create_default_config
  read_or_create path v f =
      if os.stat path f
      then after_read f (viper.read_in_config v f)
      else after_create v (create_default_config path f)

  abbrev pub decoded : Result Failure Config → Result LoadError Config
  decoded (ok c) = ok c
  decoded (err e) = err (not_decoded e)

  abbrev after_files : Result LoadError (Unit {0}) × V × F → Result LoadError Config × V × F
  after_files (ok _, v, f) = (decoded (viper.unmarshal v), v, f)
  after_files (err e, v, f) = (err e, v, f)

  unfoldable pub load_config : Bytes → V → F → Result LoadError Config × V × F
  unfolding set_defaults read_or_create
  load_config path v f = after_files (
      read_or_create path
        (viper.set_config_type (codes "toml") (viper.set_config_file path (set_defaults v))) f)
