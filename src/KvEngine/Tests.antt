-- ===== src/KvEngine/Tests.antt =====
-- The theorems on the KV engine at a concrete engine.
use xmongodb.Common.{
  ℕ, zero, suc, Option, get_elem?, set, ◌≡◌, ◌≢◌, refl, ◌⊎◌, none, some, [], ◌∷◌, ◌++◌, ok, err,
  true, false, if◌then◌else◌,
}
use xmongodb.Common.Int.{pos}
use xmongodb.Dict
use xmongodb.Bytes.{lex, Bytes, bytes_equal}
use xmongodb.RecordStore.{new_record_store}
use xmongodb.KvEngine.{
  KvEngine, already_running, not_running, store_missing, index_missing, start, stop, create_session,
  get_record_store, drop_record_store, make_index_key, has_namespace, get_sorted_data,
}
use xmongodb.RecoveryUnit
use xmongodb.RecoveryUnit.{Action, Change, active, new_recovery_unit, new_simple_change}
use xmongodb.RecoveryUnit.Undo.{Applied, nothing, change}
use xmongodb.Session
use xmongodb.Session.{Session}
use xmongodb.KvEngine.Stops.{Pending, all_done, outside, inside, AllEnded, stop-Pending}
use xmongodb.KvEngine.Laws.{GoesOn, drop_record_store_lem}

-- A running engine with one record store, of the namespace 97.
abbrev running : KvEngine ℕ
running = record {
  running = true;
  record_stores = (97 ∷ [], 0) ∷ [];
  indexes = [];
  sessions = [];
  session_count = pos 0;
  config = record { cache_size = pos 8; max_sessions = pos 1; checkpoint_enabled = true };
  store_objects = new_record_store (97 ∷ []) ∷ [];
  index_objects = [];
  session_objects = [];
}

store_a : get_record_store (97 ∷ []) running ≡ ok 0
unfolding get_record_store Dict.lookup lex
store_a = refl

store_b : get_record_store (98 ∷ []) running ≡ err store_missing
unfolding get_record_store Dict.lookup lex
store_b = refl

-- Indexes with the name 105: of the namespace 97, of 97 98, which only begins with the same byte, of
-- 98, and of the empty namespace with the name 97.
abbrev indexed : KvEngine ℕ
indexed = record running {
  indexes =
      (97 ∷ b'.' ∷ 105 ∷ [], 0)
      ∷ (97 ∷ 98 ∷ b'.' ∷ 105 ∷ [], 1)
      ∷ (98 ∷ b'.' ∷ 105 ∷ [], 2)
      ∷ (b'.' ∷ 97 ∷ [], 3)
      ∷ [];
}

store_of_indexed : get_record_store (97 ∷ []) indexed ≡ ok 0
unfolding get_record_store Dict.lookup lex
store_of_indexed = refl

drop_record_store_lem_example :
    (e' : KvEngine ℕ) × (drop_record_store (97 ∷ []) indexed ≡ (ok tt, e'))
    × ((other : Bytes)
        → get_record_store other e' ≡ (
            if bytes_equal (97 ∷ []) other
            then err store_missing
            else get_record_store other indexed))
    × ((other name : Bytes)
        → (GoesOn (97 ∷ []) (other ++ (b'.' ∷ name))
            × (get_sorted_data other name e' ≡ err index_missing))
          ⊎ ((¬ GoesOn (97 ∷ []) (other ++ (b'.' ∷ name)))
              × (get_sorted_data other name e' ≡ get_sorted_data other name indexed)))
drop_record_store_lem_example = drop_record_store_lem (97 ∷ []) indexed 0 store_of_indexed

-- Of these the first two indexes are dropped.
indexes_left :
    (drop_record_store (97 ∷ []) indexed).1.indexes
    ≡ (98 ∷ b'.' ∷ 105 ∷ [], 2) ∷ (b'.' ∷ 97 ∷ [], 3) ∷ []
unfolding drop_record_store Dict.lookup Dict.remove_if lex
indexes_left = refl

-- An index whose key is the dropped namespace itself is kept.
own_key : has_namespace (97 ∷ b'.' ∷ 98 ∷ []) (make_index_key (97 ∷ []) (98 ∷ [])) ≡ false
unfolding make_index_key
own_key = refl

-- A change that added one to the world.
abbrev one_less : Action ℕ
one_less zero = (err [], zero)
one_less (suc n) = (ok tt, n)

abbrev one_more : Change ℕ
one_more = new_simple_change none (some one_less)

-- Two sessions: the first in a transaction with two changes, the second outside of one.
abbrev in_transaction : Session ℕ
in_transaction = record {
  session_id = 1 ∷ [];
  recovery_unit = record new_recovery_unit { state = active; changes = one_more ∷ one_more ∷ [] };
  active = true;
  in_transaction = true;
  created_at = 7;
}

abbrev idle : Session ℕ
idle = record in_transaction {
  session_id = 2 ∷ [];
  recovery_unit = new_recovery_unit;
  in_transaction = false;
}

abbrev busy : KvEngine ℕ
busy = record running {
  sessions = (1 ∷ [], 0) ∷ (2 ∷ [], 1) ∷ [];
  session_objects = in_transaction ∷ idle ∷ [];
}

zero_ne_one : ◌≢◌ {A = ℕ} 0 1
zero_ne_one = λ e. cc

two_more : Applied 3 (one_more ∷ one_more ∷ []) 5
unfolding new_simple_change
two_more = change one_more (change {w' = 4} one_more nothing refl) refl

busy-Pending : Pending 3 busy.sessions busy.session_objects 5
unfolding new_recovery_unit
busy-Pending = inside refl (zero_ne_one, tt) refl refl refl (outside refl tt refl all_done) two_more

stop-Pending_example :
    (e' : KvEngine ℕ) × (stop busy 5 ≡ (ok tt, e', 3))
    × AllEnded busy.sessions e'.session_objects
    × (e'.sessions ≡ [])
    × ((uuid : Bytes) (now : ℕ) → create_session uuid now e' ≡ (err not_running, e'))
    × ((w' : ℕ) → stop e' w' ≡ (ok tt, e', w'))
    × (start e' ≡ (ok tt, record e' { running = true }))
    × (start busy ≡ (err already_running, busy))
stop-Pending_example = stop-Pending busy refl busy-Pending

-- A client opens a transaction in the session that `CreateSession` returned, through its pointer, and
-- registers a change: `Stop` meets the same session, and takes the change back.
abbrev with_change : Session ℕ → Session ℕ
with_change s = (Session.register_change one_more (Session.begin_transaction 8 s 0).1).1

abbrev on_session : Option (Session ℕ) → (Session ℕ → Session ℕ) → ℕ → KvEngine ℕ → KvEngine ℕ
on_session none f p e = e
on_session (some s) f p e = record e { session_objects = set e.session_objects p (f s) }

abbrev opened : KvEngine ℕ → KvEngine ℕ
opened e = on_session (get_elem? e.session_objects 0) with_change 0 e

first_session : (create_session (1 ∷ []) 7 running).0 ≡ ok 0
unfolding create_session Session.begin Session.new_engine_session
first_session = refl

taken_back : (stop (opened (create_session (1 ∷ []) 7 running).1) 1).2 ≡ 0
unfolding create_session Session.begin Session.new_engine_session Session.begin_transaction
    Session.register_change Session.end stop Dict.insert lex new_simple_change new_recovery_unit
    RecoveryUnit.begin_transaction RecoveryUnit.rollback RecoveryUnit.register_change
taken_back = refl
