-- ===== src/KvEngine/Stats.antt =====
-- `GetStats` of server/storage/kv_engine.go: the fields of `KvStats` are the keys of the map that it
-- returns.
use xmongodb.Common.{ℕ, Bool, Option, none, some, List, [], ◌∷◌, length, get_elem?}
use xmongodb.Common.Int.{ℤ, pos}
use xmongodb.Common.Word.{add_int64}
use xmongodb.Dict.{Dict}
use xmongodb.KvEngine.{KvEngine}

pub record KvStats : Type 0 where
  pub running : Bool
  pub record_stores : ℕ
  pub indexes : ℕ
  pub sessions : ℕ
  pub total_sessions_created : ℤ
  pub cache_size : ℤ
  pub max_sessions : ℤ
  pub total_records : ℤ
  pub total_data_size : ℤ
  pub total_index_entries : ℤ

-- What a number in the map points to, added to the sum.
abbrev pub add_object {ℓ} : {A : Type ℓ} → (A → ℤ) → ℤ → Option A → ℤ
add_object count sum none = sum
add_object count sum (some a) = add_int64 sum (count a)

-- The loops over the maps: `sum += count(object)`.
abbrev pub sum_from {ℓ} : {A : Type ℓ} → (A → ℤ) → List A → Dict ℕ → ℤ → ℤ
sum_from count objects [] sum = sum
sum_from count objects ((key, p) ∷ rest) sum =
    sum_from count objects rest (add_object count sum (get_elem? objects p))

unfoldable pub get_stats : {W : Type 0} → KvEngine W → KvStats
get_stats e = record {
  running = e.running;
  record_stores = length e.record_stores;
  indexes = length e.indexes;
  sessions = length e.sessions;
  total_sessions_created = e.session_count;
  cache_size = e.config.cache_size;
  max_sessions = e.config.max_sessions;
  total_records = sum_from (λ rs. rs.num_records) e.store_objects e.record_stores (pos 0);
  total_data_size = sum_from (λ rs. rs.data_size) e.store_objects e.record_stores (pos 0);
  total_index_entries = sum_from (λ idx. idx.num_entries) e.index_objects e.indexes (pos 0);
}
