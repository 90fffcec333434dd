-- ===== src/KvEngine.antt =====
-- server/storage/kv_engine.go: the engine that owns record stores, indexes and sessions. These are
-- shared by pointer with the callers: they are objects at numbered places, and the maps hold the
-- numbers. The session identifiers that the `uuid` package makes and the times that
-- `time.Now` returns are arguments.
pub mod Laws
pub mod Stops
pub mod Stats
pub mod Counts
mod Tests
use xmongodb.Common.{
  ℕ, suc, ◌+◌, ◌*◌, Bool, true, false, not, ◌&&◌, Option, none, some, List, [], ◌∷◌, ◌++◌, Result,
  ok, err, length, get_elem?, set, take, ltb, if◌then◌else◌, ◌==◌,
}
use xmongodb.Common.Int.{ℤ, pos, negsuc, ltb_ℤ, ◌+ℤ◌}
use xmongodb.Common.Word.{add_int64}
use xmongodb.Bytes.{Bytes, bytes_equal}
use xmongodb.Dict
use xmongodb.Dict.{Dict}
use xmongodb.RecordStore
use xmongodb.RecordStore.{RecordStore}
use xmongodb.SortedData
use xmongodb.SortedData.{BTreeIndex}
use xmongodb.Session
use xmongodb.Session.{Session}

pub record KvEngineConfig : Type 0 where
  pub cache_size : ℤ
  pub max_sessions : ℤ
  pub checkpoint_enabled : Bool

pub record KvEngine (W : Type 0) : Type 0 where
  pub running : Bool
  pub record_stores : Dict ℕ
  pub indexes : Dict ℕ
  pub sessions : Dict ℕ
  pub session_count : ℤ
  pub config : KvEngineConfig
  pub store_objects : List RecordStore
  pub index_objects : List BTreeIndex
  pub session_objects : List (Session W)

pub data KvError : Type 0 where
  already_running not_running too_many_sessions store_missing store_exists index_missing
        index_exists :
      KvError
  session_failed : Session.SessionError → KvError

abbrev pub or_default : ℤ → ℤ → ℤ
or_default (pos n) d = if n == 0 then d else pos n
or_default (negsuc n) d = negsuc n

-- `makeIndexKey`: the byte between the two is a dot.
unfoldable pub make_index_key : (namespace index_name : Bytes) → Bytes
make_index_key namespace index_name = namespace ++ (b'.' ∷ index_name)

-- The test of `DropRecordStore`: the namespace is a proper prefix of the key.
abbrev pub has_namespace : (namespace key : Bytes) → Bool
has_namespace namespace key =
    ltb (length namespace) (length key) && bytes_equal (take (length namespace) key) namespace

module _ {W : Type 0} where
  -- `NewKVEngine`
  unfoldable pub new_kv_engine : KvEngineConfig → KvEngine W
  new_kv_engine config = record {
    running = false;
    record_stores = [];
    indexes = [];
    sessions = [];
    session_count = pos 0;
    config = record config {
      max_sessions = or_default config.max_sessions (pos 1000);
      cache_size = or_default config.cache_size (pos (1024 * 1024 * 1024));
    };
    store_objects = [];
    index_objects = [];
    session_objects = [];
  }

  unfoldable pub start : KvEngine W → Result KvError (Unit {0}) × KvEngine W
  start e = if e.running then (err already_running, e) else (ok tt, record e { running = true })

  -- `End` of the session that a number points to; what it returns is not read.
  abbrev pub end_found : ℕ → List (Session W) → W → Option (Session W) → List (Session W) × W
  end_found p objects w none = (objects, w)
  end_found p objects w (some s) = (set objects p (Session.end s w).1, (Session.end s w).2)

  abbrev pub end_session : ℕ → List (Session W) → W → List (Session W) × W
  end_session p objects w = end_found p objects w (get_elem? objects p)

  -- The loop of `Stop`. The order of the map's list stands for the order in which Go meets the
  -- sessions, which is any.
  unfoldable pub end_sessions : Dict ℕ → List (Session W) → W → List (Session W) × W
  end_sessions [] objects w = (objects, w)
  end_sessions ((id, p) ∷ rest) objects w =
      let o = end_session p objects w in end_sessions rest o.0 o.1

  unfoldable pub stop : KvEngine W → W → Result KvError (Unit {0}) × KvEngine W × W
  unfolding end_sessions
  stop e w =
      if e.running
      then (let o = end_sessions e.sessions e.session_objects w in
          (ok tt, record e { sessions = []; running = false; session_objects = o.0 }, o.1))
      else (ok tt, e, w)

  -- `CreateSession`: `uuid` is the identifier of the new session, and the number that it returns
  -- points to the session that the engine keeps.
  unfoldable pub add_session :
      (uuid : Bytes)
      → KvEngine W
      → Result Session.SessionError (Unit {0}) × Session W
      → Result KvError ℕ × KvEngine W
  add_session uuid e (err f, s) = (err (session_failed f), e)
  add_session uuid e (ok _, s) = (
    ok (length e.session_objects),
    record e {
      sessions = Dict.insert uuid (length e.session_objects) e.sessions;
      session_count = add_int64 e.session_count (pos 1);
      session_objects = e.session_objects ++ (s ∷ []);
    },
  )

  unfoldable pub create_session :
      (uuid : Bytes) (now : ℕ) → KvEngine W → Result KvError ℕ × KvEngine W
  unfolding add_session
  create_session uuid now e =
      if not e.running
      then (err not_running, e)
      else if not (ltb_ℤ (pos (length e.sessions)) e.config.max_sessions)
      then (err too_many_sessions, e)
      else add_session uuid e (Session.begin (Session.new_engine_session uuid now))

  unfoldable pub get_record_store : Bytes → KvEngine W → Result KvError ℕ
  get_record_store namespace e = elim (Dict.lookup namespace e.record_stores) [
    | none ↦ err store_missing
    | some p ↦ ok p
  ]

  unfoldable pub create_record_store : Bytes → KvEngine W → Result KvError ℕ × KvEngine W
  create_record_store namespace e = elim (Dict.lookup namespace e.record_stores) [
    | some p ↦ (err store_exists, e)
    | none ↦ (
      ok (length e.store_objects),
      record e {
        record_stores = Dict.insert namespace (length e.store_objects) e.record_stores;
        store_objects = e.store_objects ++ (RecordStore.new_record_store namespace ∷ []);
      },
    )
  ]

  unfoldable pub drop_record_store : Bytes → KvEngine W → Result KvError (Unit {0}) × KvEngine W
  drop_record_store namespace e = elim (Dict.lookup namespace e.record_stores) [
    | none ↦ (err store_missing, e)
    | some p ↦ (
      ok tt,
      record e {
        record_stores = Dict.remove namespace e.record_stores;
        indexes = Dict.remove_if (has_namespace namespace) e.indexes;
      },
    )
  ]

  unfoldable pub get_sorted_data : (namespace index_name : Bytes) → KvEngine W → Result KvError ℕ
  get_sorted_data namespace index_name e =
      elim (Dict.lookup (make_index_key namespace index_name) e.indexes) [
        | none ↦ err index_missing
        | some p ↦ ok p
      ]

  unfoldable pub create_sorted_data :
      (namespace index_name : Bytes) → Bool → KvEngine W → Result KvError ℕ × KvEngine W
  create_sorted_data namespace index_name unique e =
      let key = make_index_key namespace index_name in
      elim (Dict.lookup key e.indexes) [
        | some p ↦ (err index_exists, e)
        | none ↦ (
          ok (length e.index_objects),
          record e {
            indexes = Dict.insert key (length e.index_objects) e.indexes;
            index_objects = e.index_objects ++ (SortedData.new_index index_name unique ∷ []);
          },
        )
      ]

  unfoldable pub drop_sorted_data :
      (namespace index_name : Bytes) → KvEngine W → Result KvError (Unit {0}) × KvEngine W
  drop_sorted_data namespace index_name e =
      let key = make_index_key namespace index_name in
      elim (Dict.lookup key e.indexes) [
        | none ↦ (err index_missing, e)
        | some p ↦ (ok tt, record e { indexes = Dict.remove key e.indexes })
      ]
