-- ===== src/Session/Sync.antt =====
-- The session's flag and the state of its recovery unit.
use xmongodb.Common.{ℕ, ◌≡◌, refl, ap, ◌∙◌, true, List, arith, ok, err, if◌then◌else◌}
use xmongodb.RecoveryUnit
use xmongodb.RecoveryUnit.{
  RecoveryUnit, Change, TransactionState, TxnError, active, is_state_active, after_commit,
  after_rollback, commit_changes, rollback_changes, stamped, nothing_to_commit,
  nothing_to_roll_back, commit_failed, Failure,
}
use xmongodb.RecoveryUnit.States.{commit_active}
use xmongodb.Session.{
  Session, already_in_transaction, no_transaction, txn_error, end_rollback_failed,
  new_engine_session, begin, end, begin_transaction, commit_transaction, rollback_transaction,
  register_change, after_unit, leave_transaction,
}

-- The session is in a transaction exactly if its recovery unit is active, and only while it is active.
pub record IsSynced {W : Type 0} (s : Session W) : Type 0 where
  pub mirrors : s.in_transaction ≡ is_state_active s.recovery_unit.state
  pub within : s.in_transaction ≡ true → s.active ≡ true

module _ {W : Type 0} where
  pub new_engine_session-IsSynced :
      (id : List ℕ) (now : ℕ) → IsSynced (new_engine_session {W = W} id now)
  unfolding new_engine_session RecoveryUnit.new_recovery_unit
  new_engine_session-IsSynced id now = record { mirrors = refl; within = λ h. cc }

  begin-IsSynced : (s : Session W) → IsSynced s → IsSynced (begin s).1
  unfolding begin
  begin-IsSynced s v = ground (arith, v.within)

  begin_transaction-IsSynced :
      (now : ℕ) (s : Session W) (w : W) → IsSynced s → IsSynced (begin_transaction now s w).1
  unfolding begin_transaction RecoveryUnit.begin_transaction
  begin_transaction-IsSynced now s w v = ground (arith, v.within)

  rollback_transaction-IsSynced :
      (s : Session W) (w : W) → IsSynced s → IsSynced (rollback_transaction s w).1
  unfolding rollback_transaction RecoveryUnit.rollback
  rollback_transaction-IsSynced s w v = ground (arith, v.within)

  end-IsSynced : (s : Session W) (w : W) → IsSynced s → IsSynced (end s w).1
  unfolding end RecoveryUnit.rollback
  end-IsSynced s w v = ground (arith, v.within)

  register_change-IsSynced :
      (c : Change W) (s : Session W) → IsSynced s → IsSynced (register_change c s).1
  unfolding register_change RecoveryUnit.register_change
  register_change-IsSynced c s v = ground (arith, v.within)

  commit_transaction-IsSynced :
      (now : ℕ) (s : Session W) (w : W)
      → IsSynced s
      → (commit_transaction now s w).0 ≡ ok tt
      → IsSynced (commit_transaction now s w).1
  unfolding commit_transaction RecoveryUnit.commit
  commit_transaction-IsSynced now s w v h = ground (arith, v.within)

-- A call of a method of a session.
pub data Call (W : Type 0) : Type 0 where
  begin_call end_call rollback_call : Call W
  begin_transaction_call commit_call : (now : ℕ) → Call W
  change_call : Change W → Call W

unfoldable pub session_after : {W : Type 0} → Call W → Session W → W → Session W
session_after begin_call s w = (begin s).1
session_after end_call s w = (end s w).1
session_after rollback_call s w = (rollback_transaction s w).1
session_after (begin_transaction_call now) s w = (begin_transaction now s w).1
session_after (commit_call now) s w = (commit_transaction now s w).1
session_after (change_call c) s w = (register_change c s).1

-- Every commit among the calls succeeds.
abbrev pub Commits : {W : Type 0} → Call W → Session W → W → Type 0
Commits (commit_call now) s w = (commit_transaction now s w).0 ≡ ok tt
Commits _ s w = Unit

-- If a session is in a transaction exactly if its recovery unit is active, and then has begun, this
-- holds after every call of a method, on whatever world; of `CommitTransaction` it does if the call
-- succeeds.
pub call-IsSynced :
    {W : Type 0} (c : Call W) (s : Session W) (w : W)
    → IsSynced s
    → Commits c s w
    → IsSynced (session_after c s w)
unfolding session_after
call-IsSynced begin_call s w v k = begin-IsSynced s v
call-IsSynced end_call s w v k = end-IsSynced s w v
call-IsSynced rollback_call s w v k = rollback_transaction-IsSynced s w v
call-IsSynced (begin_transaction_call now) s w v k = begin_transaction-IsSynced now s w v
call-IsSynced (commit_call now) s w v k = commit_transaction-IsSynced now s w v k
call-IsSynced (change_call c) s w v k = register_change-IsSynced c s v

module _ {W : Type 0} where
  failing_commit :
      (s : Session W) (w w' : W) (now : ℕ) (e : Failure)
      → s.in_transaction ≡ true
      → s.recovery_unit.state ≡ active
      → commit_changes s.recovery_unit.changes w ≡ (err e, w')
      → commit_transaction now s w ≡ (
        err (txn_error (commit_failed e)),
        record s {
          recovery_unit = record (stamped now s.recovery_unit) { state = TransactionState.aborted };
        },
        w',
      )
  unfolding commit_transaction
  failing_commit s w w' now e inside started fails =
      let run =
        commit_active now s.recovery_unit w started
        ∙ ap (after_commit (stamped now s.recovery_unit)) fails in
      ap
        (λ b.
          if b
          then after_unit s txn_error leave_transaction (RecoveryUnit.commit now s.recovery_unit w)
          else (err no_transaction, s, w))
        inside
      ∙ ap (after_unit s txn_error leave_transaction) run

  -- When a change fails to commit in the transaction of a session that was begun, the session stays
  -- in its transaction, but the unit is aborted; a further commit, rollback, new transaction or
  -- `End` then fails, and changes nothing.
  pub failed_commit_is_final :
      (s : Session W) (w w' w'' : W) (now later : ℕ) (e : Failure)
      → s.active ≡ true
      → s.in_transaction ≡ true
      → s.recovery_unit.state ≡ active
      → commit_changes s.recovery_unit.changes w ≡ (err e, w')
      → (s' : Session W) × (commit_transaction now s w
          ≡ (err (txn_error (commit_failed e)), s', w'))
        × (commit_transaction later s' w'' ≡ (err (txn_error nothing_to_commit), s', w''))
        × (rollback_transaction s' w'' ≡ (err (txn_error nothing_to_roll_back), s', w''))
        × (begin_transaction later s' w'' ≡ (err already_in_transaction, s', w''))
        × (end s' w'' ≡ (err (end_rollback_failed nothing_to_roll_back), s', w''))
  unfolding commit_transaction rollback_transaction begin_transaction end RecoveryUnit.commit
      RecoveryUnit.rollback
  failed_commit_is_final s w w' w'' now later e on inside started fails =
      let ru' : RecoveryUnit W = record (stamped now s.recovery_unit) {
        state = TransactionState.aborted;
      } in
      let s' : Session W = record s { recovery_unit = ru' } in
      (
        s',
        failing_commit s w w' now e inside started fails,
        ground arith,
        ground arith,
        ground arith,
        ground arith,
      )
