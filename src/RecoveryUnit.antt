-- ===== src/RecoveryUnit.antt =====
-- server/storage/recovery_unit.go: transactions. The changes that a client registers act on a world of
-- the client's, a parameter; so are the times that `time.Now` returns. A time is a number, 0 is the
-- zero time of `IsZero`. The `ctx` argument is never read; each method holds the mutex throughout.
pub mod States
pub mod Undo
mod Tests
use mathlib.Core.List.{reverse}
use xmongodb.Common.{
  ℕ, Bool, true, false, Option, none, some, List, [], ◌∷◌, ◌++◌, Result, ok, err, ◌==◌,
  if◌then◌else◌,
}
use xmongodb.Bytes.{Bytes}

-- The text of an error that a change returns.
abbrev pub Failure : Type 0
Failure = Bytes

-- A function of Go that may fail and acts on the world.
abbrev pub Action : Type 0 → Type 0
Action W = W → Result Failure (Unit {0}) × W

-- The interface `Change`.
pub record Change (W : Type 0) : Type 0 where
  pub rollback : Action W
  pub commit : Action W

-- `SimpleChange`: a nil function does nothing.
abbrev pub run_func : {W : Type 0} → Option (Action W) → Action W
run_func none w = (ok tt, w)
run_func (some f) w = f w

unfoldable pub new_simple_change :
    {W : Type 0} (commit_func rollback_func : Option (Action W)) → Change W
new_simple_change commit_func rollback_func = record {
  rollback = run_func rollback_func;
  commit = run_func commit_func;
}

pub data TransactionState : Type 0 where
  inactive active committed aborted : TransactionState

abbrev pub is_state_active : TransactionState → Bool
is_state_active inactive = false
is_state_active active = true
is_state_active committed = false
is_state_active aborted = false

pub record RecoveryUnit (W : Type 0) : Type 0 where
  pub state : TransactionState
  pub read_timestamp : ℕ
  pub commit_timestamp : ℕ
  pub changes : List (Change W)
  pub snapshot : List (Bytes × Bytes)

pub data TxnError : Type 0 where
  already_active nothing_to_commit nothing_to_roll_back timestamp_outside change_outside : TxnError
  commit_failed rollback_failed : Failure → TxnError

abbrev pub Outcome : Type 0 → Type 0
Outcome W = Result TxnError (Unit {0}) × RecoveryUnit W × W

module _ {W : Type 0} where
  -- `NewRecoveryUnit`
  unfoldable pub new_recovery_unit : RecoveryUnit W
  new_recovery_unit = record {
    state = inactive;
    read_timestamp = 0;
    commit_timestamp = 0;
    changes = [];
    snapshot = [];
  }

  unfoldable pub begin_transaction : (now : ℕ) → RecoveryUnit W → W → Outcome W
  begin_transaction now ru w = if is_state_active ru.state then (err already_active, ru, w) else (
    ok tt,
    record ru { state = active; read_timestamp = now; changes = []; snapshot = [] },
    w,
  )

  -- What follows a step that did not fail.
  abbrev pub and_then : Result Failure (Unit {0}) × W → Action W → Result Failure (Unit {0}) × W
  and_then (ok _, w) next = next w
  and_then (err e, w) next = (err e, w)

  -- The loop of `Commit`, in the order of registration; it stops at the first failure.
  unfoldable pub commit_changes : List (Change W) → Action W
  commit_changes [] w = (ok tt, w)
  commit_changes (c ∷ cs) w = and_then (c.commit w) (commit_changes cs)

  -- The loop of `Rollback` over the changes in the order in which it meets them.
  unfoldable pub rollback_changes : List (Change W) → Action W
  rollback_changes [] w = (ok tt, w)
  rollback_changes (c ∷ cs) w = and_then (c.rollback w) (rollback_changes cs)

  abbrev pub stamped : (now : ℕ) → RecoveryUnit W → RecoveryUnit W
  stamped now ru = record ru {
    commit_timestamp = if ru.commit_timestamp == 0 then now else ru.commit_timestamp;
  }

  -- What `Commit` does behind its loop.
  abbrev pub after_commit : RecoveryUnit W → Result Failure (Unit {0}) × W → Outcome W
  after_commit ru (ok _, w) = (ok tt, record ru { state = committed; changes = [] }, w)
  after_commit ru (err e, w) = (err (commit_failed e), record ru { state = aborted }, w)

  unfoldable pub commit : (now : ℕ) → RecoveryUnit W → W → Outcome W
  unfolding commit_changes
  commit now ru w =
      if is_state_active ru.state
      then after_commit (stamped now ru) (commit_changes ru.changes w)
      else (err nothing_to_commit, ru, w)

  abbrev pub after_rollback : RecoveryUnit W → Result Failure (Unit {0}) × W → Outcome W
  after_rollback ru (ok _, w) =
      (ok tt, record ru { state = aborted; changes = []; snapshot = [] }, w)
  after_rollback ru (err e, w) = (err (rollback_failed e), ru, w)

  unfoldable pub rollback : RecoveryUnit W → W → Outcome W
  unfolding rollback_changes
  rollback ru w =
      if is_state_active ru.state
      then after_rollback ru (rollback_changes (reverse ru.changes) w)
      else (err nothing_to_roll_back, ru, w)

  unfoldable pub set_commit_timestamp :
      (ts : ℕ) → RecoveryUnit W → Result TxnError (Unit {0}) × RecoveryUnit W
  set_commit_timestamp ts ru =
      if is_state_active ru.state
      then (ok tt, record ru { commit_timestamp = ts })
      else (err timestamp_outside, ru)

  unfoldable pub register_change :
      Change W → RecoveryUnit W → Result TxnError (Unit {0}) × RecoveryUnit W
  register_change change ru =
      if is_state_active ru.state
      then (ok tt, record ru { changes = ru.changes ++ change ∷ [] })
      else (err change_outside, ru)

  abbrev pub is_active : RecoveryUnit W → Bool
  is_active ru = is_state_active ru.state

  abbrev pub is_committed : RecoveryUnit W → Bool
  is_committed ru = elim ru.state [ committed ↦ true | _ ↦ false ]

  abbrev pub is_aborted : RecoveryUnit W → Bool
  is_aborted ru = elim ru.state [ aborted ↦ true | _ ↦ false ]

  -- `PrepareForHistoryStore` does nothing.
  abbrev pub prepare_for_history_store :
      Bytes → RecoveryUnit W → Result TxnError (Unit {0}) × RecoveryUnit W
  prepare_for_history_store old_value ru = (ok tt, ru)
