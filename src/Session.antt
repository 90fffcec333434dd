-- ===== src/Session.antt =====
-- server/storage/session.go: a session and its transaction. The caller can reach the recovery unit
-- through `GetRecoveryUnit`: of what it does there, the
-- registration of a change is modelled.
pub mod Sync
mod Tests
use xmongodb.Common.{ℕ, Bool, true, false, List, [], ◌∷◌, Result, ok, err, not, if◌then◌else◌}
use xmongodb.Bytes.{Bytes}
use xmongodb.RecoveryUnit
use xmongodb.RecoveryUnit.{RecoveryUnit, TxnError, Change}

pub data SessionError : Type 0 where
  already_begun not_begun already_in_transaction no_transaction : SessionError
  txn_error end_rollback_failed : TxnError → SessionError

pub record Session (W : Type 0) : Type 0 where
  pub session_id : Bytes
  pub recovery_unit : RecoveryUnit W
  pub active : Bool
  pub in_transaction : Bool
  pub created_at : ℕ

abbrev pub Outcome : Type 0 → Type 0
Outcome W = Result SessionError (Unit {0}) × Session W × W

module _ {W : Type 0} where
  -- `NewEngineSession`
  unfoldable pub new_engine_session : Bytes → (now : ℕ) → Session W
  new_engine_session id now = record {
    session_id = id;
    recovery_unit = RecoveryUnit.new_recovery_unit;
    active = false;
    in_transaction = false;
    created_at = now;
  }

  unfoldable pub begin : Session W → Result SessionError (Unit {0}) × Session W
  begin s = if s.active then (err already_begun, s) else (ok tt, record s { active = true })

  -- What follows a call of the recovery unit: its error, or `done` on the session with the new unit.
  abbrev pub after_unit :
      Session W
      → (TxnError → SessionError)
      → (Session W → Session W)
      → Result TxnError (Unit {0}) × RecoveryUnit W × W
      → Outcome W
  after_unit s wrap next (ok _, ru, w) = (ok tt, next (record s { recovery_unit = ru }), w)
  after_unit s wrap next (err e, ru, w) = (err (wrap e), record s { recovery_unit = ru }, w)

  abbrev pub leave_transaction : Session W → Session W
  leave_transaction s = record s { in_transaction = false }

  -- `End`: a transaction that is still open is rolled back first.
  unfoldable pub end : Session W → W → Outcome W
  end s w =
      if s.active
      then (if s.in_transaction
          then after_unit s end_rollback_failed
              (λ s'. record s' { in_transaction = false; active = false })
              (RecoveryUnit.rollback s.recovery_unit w)
          else (ok tt, record s { active = false }, w))
      else (ok tt, s, w)

  unfoldable pub begin_transaction : (now : ℕ) → Session W → W → Outcome W
  begin_transaction now s w =
      if not s.active
      then (err not_begun, s, w)
      else if s.in_transaction
      then (err already_in_transaction, s, w)
      else after_unit s txn_error (λ s'. record s' { in_transaction = true })
          (RecoveryUnit.begin_transaction now s.recovery_unit w)

  unfoldable pub commit_transaction : (now : ℕ) → Session W → W → Outcome W
  commit_transaction now s w =
      if s.in_transaction
      then after_unit s txn_error leave_transaction (RecoveryUnit.commit now s.recovery_unit w)
      else (err no_transaction, s, w)

  unfoldable pub rollback_transaction : Session W → W → Outcome W
  rollback_transaction s w =
      if s.in_transaction
      then after_unit s txn_error leave_transaction (RecoveryUnit.rollback s.recovery_unit w)
      else (err no_transaction, s, w)

  -- `GetRecoveryUnit().RegisterChange(change)`
  unfoldable pub register_change : Change W → Session W → Result TxnError (Unit {0}) × Session W
  register_change change s =
      let (r, ru) = RecoveryUnit.register_change change s.recovery_unit in
      (r, record s { recovery_unit = ru })
