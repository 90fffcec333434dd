-- ===== src/Config.antt =====
-- config/config.go: the settings, and the values that `setDefaults` gives them. The fields have the names
-- of the keys in the file.
pub mod Toml
pub mod Load
pub mod Loading
pub mod Memory
mod Tests
use xmongodb.Common.{Bool, true, false, [], ◌∷◌, ◌++◌}
use xmongodb.Common.Int.{ℤ, pos}
use xmongodb.Bytes.{Bytes}
use xmongodb.RecordId.Text.{codes}
use xmongodb.Dict.{Dict}

pub record ServerConfig : Type 0 where
  pub bind_address : Bytes
  pub port : ℤ
  pub data_dir : Bytes
  pub base_dir : Bytes
  pub user : Bytes
  pub profile_port : ℤ

pub record NetworkConfig : Type 0 where
  pub tcp_keep_alive : Bool
  pub keep_alive_period : Bytes
  pub tcp_read_timeout : Bytes
  pub tcp_write_timeout : Bytes
  pub max_msg_len : ℤ
  pub compress_encoding : Bool
  pub max_connections : ℤ
  pub connection_timeout : Bytes

pub record StorageConfig : Type 0 where
  pub engine : Bytes
  pub journal_enabled : Bool
  pub oplog_size_mb : ℤ
  pub cache_size_gb : ℤ
  pub directory_for_db : Bytes
  pub sync_period_secs : ℤ
  pub checkpoint_secs : ℤ
  pub wired_tiger_cache : ℤ

pub record SecurityConfig : Type 0 where
  pub authorization : Bool
  pub auth_mechanism : Bytes
  pub key_file : Bytes
  pub cluster_auth_mode : Bytes
  pub ssl_mode : Bytes
  pub ssl_pem_key_file : Bytes
  pub ssl_ca_file : Bytes

pub record LoggerConfig : Type 0 where
  pub level : Bytes
  pub format : Bytes
  pub output : Bytes
  pub max_size : ℤ
  pub max_backups : ℤ
  pub max_age : ℤ
  pub compress : Bool

pub record Config : Type 0 where
  pub server : ServerConfig
  pub network : NetworkConfig
  pub storage : StorageConfig
  pub security : SecurityConfig
  pub logger : LoggerConfig

-- A value of the settings.
pub data Setting : Type 0 where
  text : Bytes → Setting
  number : ℤ → Setting
  flag : Bool → Setting

-- The settings under their keys: the `mapstructure` tags.
abbrev pub settings_of : Config → Dict Setting
settings_of c =
    (codes "server.bind_address", text c.server.bind_address)
    ∷ (codes "server.port", number c.server.port)
    ∷ (codes "server.data_dir", text c.server.data_dir)
    ∷ (codes "server.base_dir", text c.server.base_dir)
    ∷ (codes "server.user", text c.server.user)
    ∷ (codes "server.profile_port", number c.server.profile_port)
    ∷ (codes "network.tcp_keep_alive", flag c.network.tcp_keep_alive)
    ∷ (codes "network.keep_alive_period", text c.network.keep_alive_period)
    ∷ (codes "network.tcp_read_timeout", text c.network.tcp_read_timeout)
    ∷ (codes "network.tcp_write_timeout", text c.network.tcp_write_timeout)
    ∷ (codes "network.max_msg_len", number c.network.max_msg_len)
    ∷ (codes "network.compress_encoding", flag c.network.compress_encoding)
    ∷ (codes "network.max_connections", number c.network.max_connections)
    ∷ (codes "network.connection_timeout", text c.network.connection_timeout)
    ∷ (codes "storage.engine", text c.storage.engine)
    ∷ (codes "storage.journal_enabled", flag c.storage.journal_enabled)
    ∷ (codes "storage.oplog_size_mb", number c.storage.oplog_size_mb)
    ∷ (codes "storage.cache_size_gb", number c.storage.cache_size_gb)
    ∷ (codes "storage.directory_for_db", text c.storage.directory_for_db)
    ∷ (codes "storage.sync_period_secs", number c.storage.sync_period_secs)
    ∷ (codes "storage.checkpoint_secs", number c.storage.checkpoint_secs)
    ∷ (codes "storage.wired_tiger_cache", number c.storage.wired_tiger_cache)
    ∷ (codes "security.authorization", flag c.security.authorization)
    ∷ (codes "security.auth_mechanism", text c.security.auth_mechanism)
    ∷ (codes "security.key_file", text c.security.key_file)
    ∷ (codes "security.cluster_auth_mode", text c.security.cluster_auth_mode)
    ∷ (codes "security.ssl_mode", text c.security.ssl_mode)
    ∷ (codes "security.ssl_pem_key_file", text c.security.ssl_pem_key_file)
    ∷ (codes "security.ssl_ca_file", text c.security.ssl_ca_file)
    ∷ (codes "logger.level", text c.logger.level)
    ∷ (codes "logger.format", text c.logger.format)
    ∷ (codes "logger.output", text c.logger.output)
    ∷ (codes "logger.max_size", number c.logger.max_size)
    ∷ (codes "logger.max_backups", number c.logger.max_backups)
    ∷ (codes "logger.max_age", number c.logger.max_age)
    ∷ (codes "logger.compress", flag c.logger.compress)
    ∷ []

abbrev pub defaults : Config
defaults = record {
  server = record {
    bind_address = codes "127.0.0.1";
    port = pos 27017;
    data_dir = codes "./data";
    base_dir = codes "./";
    user = codes "mongodb";
    profile_port = pos 6060;
  };
  network = record {
    tcp_keep_alive = true;
    keep_alive_period = codes "180s";
    tcp_read_timeout = codes "30s";
    tcp_write_timeout = codes "30s";
    max_msg_len = pos 67108864;
    compress_encoding = false;
    max_connections = pos 1000;
    connection_timeout = codes "30s";
  };
  storage = record {
    engine = codes "wiredTiger";
    journal_enabled = true;
    oplog_size_mb = pos 1024;
    cache_size_gb = pos 1;
    directory_for_db = codes "./data/db";
    sync_period_secs = pos 60;
    checkpoint_secs = pos 60;
    wired_tiger_cache = pos 1073741824;
  };
  security = record {
    authorization = false;
    auth_mechanism = codes "SCRAM-SHA-256";
    key_file = [];
    cluster_auth_mode = codes "keyFile";
    ssl_mode = codes "disabled";
    ssl_pem_key_file = [];
    ssl_ca_file = [];
  };
  logger = record {
    level = codes "info";
    format = codes "json";
    output = codes "stdout";
    max_size = pos 100;
    max_backups = pos 3;
    max_age = pos 30;
    compress = true;
  };
}
