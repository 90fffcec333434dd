-- ===== src/Session/Tests.antt =====
-- The theorems on sessions, with a world that is a number.
use xmongodb.Common.{ℕ, ◌≡◌, refl, none, some, [], ◌∷◌, err, true}
use xmongodb.RecoveryUnit
use xmongodb.RecoveryUnit.{
  Change, RecoveryUnit, TransactionState, TxnError, new_recovery_unit, new_simple_change,
  commit_changes, commit_failed, nothing_to_commit, nothing_to_roll_back,
}
use xmongodb.Session.{
  Session, txn_error, already_in_transaction, end_rollback_failed, new_engine_session,
  commit_transaction, rollback_transaction, begin_transaction, end,
}
use xmongodb.Session.Sync.{
  IsSynced, session_after, begin_call, new_engine_session-IsSynced, call-IsSynced,
  failed_commit_is_final,
}

abbrev fresh : Session ℕ
fresh = new_engine_session (1 ∷ []) 7

abbrev stuck : Change ℕ
stuck = new_simple_change (some (λ w. (err (1 ∷ []), w))) none

-- A session in a transaction whose one change cannot be committed.
abbrev doomed : Session ℕ
doomed = record {
  session_id = 1 ∷ [];
  recovery_unit = record new_recovery_unit { state = RecoveryUnit.active; changes = stuck ∷ [] };
  active = true;
  in_transaction = true;
  created_at = 7;
}

commit_stuck : commit_changes doomed.recovery_unit.changes 3 ≡ (err (1 ∷ []), 3)
unfolding commit_changes new_simple_change
commit_stuck = refl

fresh-IsSynced : IsSynced fresh
fresh-IsSynced = new_engine_session-IsSynced (1 ∷ []) 7

call-IsSynced_example : IsSynced (session_after begin_call fresh 3)
call-IsSynced_example = call-IsSynced begin_call fresh 3 fresh-IsSynced tt

failed_commit_is_final_example :
    (s' : Session ℕ) × (commit_transaction 8 doomed 3
      ≡ (err (txn_error (commit_failed (1 ∷ []))), s', 3))
    × (commit_transaction 9 s' 4 ≡ (err (txn_error nothing_to_commit), s', 4))
    × (rollback_transaction s' 4 ≡ (err (txn_error nothing_to_roll_back), s', 4))
    × (begin_transaction 9 s' 4 ≡ (err already_in_transaction, s', 4))
    × (end s' 4 ≡ (err (end_rollback_failed nothing_to_roll_back), s', 4))
failed_commit_is_final_example =
    failed_commit_is_final doomed 3 3 4 8 9 (1 ∷ []) refl refl refl commit_stuck
