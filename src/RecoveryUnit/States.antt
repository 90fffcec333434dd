-- ===== src/RecoveryUnit/States.antt =====
-- The states of a recovery unit and the steps between them.
use xmongodb.Common.{
  ℕ, ◌≡◌, ◌≢◌, refl, ap, ◌∙◌, true, false, List, [], ◌∷◌, ◌++◌, arith, Result, ok, err,
  if◌then◌else◌, ◌==◌, Bool-cases, inl, inr,
}
use mathlib.Core.List.{reverse}
use xmongodb.RecoveryUnit.{
  Failure, Change, RecoveryUnit, TransactionState, inactive, active, aborted, committed,
  is_state_active, Outcome, TxnError, already_active, commit_failed, rollback_failed,
  nothing_to_commit, nothing_to_roll_back, timestamp_outside, change_outside, commit, rollback,
  commit_changes, rollback_changes, begin_transaction, register_change, set_commit_timestamp,
  stamped, after_commit, after_rollback,
}

-- A call of a method of the unit.
pub data Call (W : Type 0) : Type 0 where
  begin_call commit_call : (now : ℕ) → Call W
  rollback_call : Call W
  timestamp_call : (ts : ℕ) → Call W
  change_call : Change W → Call W

-- A call, with its answer, on a unit and a world.
unfoldable pub call : {W : Type 0} → Call W → RecoveryUnit W → W → Outcome W
call (begin_call now) ru w = begin_transaction now ru w
call (commit_call now) ru w = commit now ru w
call rollback_call ru w = rollback ru w
call (timestamp_call ts) ru w = let r = set_commit_timestamp ts ru in (r.0, r.1, w)
call (change_call c) ru w = let r = register_change c ru in (r.0, r.1, w)

-- The error with which a call is refused in a state.
pub data Refuses {W : Type 0} : TransactionState → Call W → TxnError → Type 0 where
  begun_twice : {now : ℕ} → Refuses active (begin_call now) already_active
  no_commit :
      {s : TransactionState} {now : ℕ} → s ≢ active → Refuses s (commit_call now) nothing_to_commit
  no_rollback : {s : TransactionState} → s ≢ active → Refuses s rollback_call nothing_to_roll_back
  no_timestamp :
      {s : TransactionState} {ts : ℕ} → s ≢ active → Refuses s (timestamp_call ts) timestamp_outside
  no_change :
      {s : TransactionState} {c : Change W} → s ≢ active → Refuses s (change_call c) change_outside

-- The steps of the state machine: a call, its answer, and the state with the registered changes
-- before and after it.
pub data Step {W : Type 0}
    : Call W
      → Result TxnError (Unit {0})
      → TransactionState × List (Change W)
      → TransactionState × List (Change W)
      → Type 0 where
  starts :
      {now : ℕ} {s : TransactionState} {cs : List (Change W)}
      → s ≢ active
      → Step (begin_call now) (ok tt) (s, cs) (active, [])
  registers :
      {c : Change W} {cs : List (Change W)}
      → Step (change_call c) (ok tt) (active, cs) (active, cs ++ c ∷ [])
  stamps :
      {ts : ℕ} {cs : List (Change W)} → Step (timestamp_call ts) (ok tt) (active, cs) (active, cs)
  commits :
      {now : ℕ} {cs : List (Change W)} → Step (commit_call now) (ok tt) (active, cs) (committed, [])
  commit_fails :
      {now : ℕ} {e : Failure} {cs : List (Change W)}
      → Step (commit_call now) (err (commit_failed e)) (active, cs) (aborted, cs)
  rolls_back : {cs : List (Change W)} → Step rollback_call (ok tt) (active, cs) (aborted, [])
  rollback_fails :
      {e : Failure} {cs : List (Change W)}
      → Step rollback_call (err (rollback_failed e)) (active, cs) (active, cs)
  refused :
      {c : Call W} {e : TxnError} {s : TransactionState} {cs : List (Change W)}
      → Refuses s c e
      → Step c (err e) (s, cs) (s, cs)

-- What the state machine sees of a unit.
abbrev pub view : {W : Type 0} → RecoveryUnit W → TransactionState × List (Change W)
view ru = (ru.state, ru.changes)

active_of : (s : TransactionState) → is_state_active s ≡ true → s ≡ active
active_of inactive h = cc
active_of active h = refl
active_of committed h = cc
active_of aborted h = cc

module _ {W : Type 0} where
  step_after_commit :
      (now : ℕ) (ru : RecoveryUnit W) (p : Result Failure (Unit {0}) × W)
      → ru.state ≡ active
      → Step (commit_call now) (after_commit ru p).0 (view ru) (view (after_commit ru p).1)
  step_after_commit now ru (ok _, w) s = rw s commits
  step_after_commit now ru (err e, w) s = rw s commit_fails

  step_after_rollback :
      (ru : RecoveryUnit W) (p : Result Failure (Unit {0}) × W)
      → ru.state ≡ active
      → Step rollback_call (after_rollback ru p).0 (view ru) (view (after_rollback ru p).1)
  step_after_rollback ru (ok _, w) s = rw s rolls_back
  step_after_rollback ru (err e, w) s = rw s rollback_fails

  pub commit_active :
      (now : ℕ) (ru : RecoveryUnit W) (w : W)
      → ru.state ≡ active
      → commit now ru w ≡ after_commit (stamped now ru) (commit_changes ru.changes w)
  unfolding commit
  commit_active now ru w e = simp e

  rollback_active :
      (ru : RecoveryUnit W) (w : W)
      → ru.state ≡ active
      → rollback ru w ≡ after_rollback ru (rollback_changes (reverse ru.changes) w)
  unfolding rollback
  rollback_active ru w e = simp e

  -- The step that a call made, from its outcome.
  abbrev StepTo : Call W → RecoveryUnit W → Outcome W → Type 0
  StepTo c ru o = Step c o.0 (view ru) (view o.1)

  step_of_active :
      (c : Call W) (ru : RecoveryUnit W) (w : W) → ru.state ≡ active → StepTo c ru (call c ru w)
  unfolding call begin_transaction set_commit_timestamp register_change
  step_of_active (begin_call now) ru w e = simp e (refused begun_twice)
  step_of_active (commit_call now) ru w e =
      rw (commit_active now ru w e)
        (step_after_commit now (stamped now ru) (commit_changes ru.changes w) e)
  step_of_active rollback_call ru w e =
      rw (rollback_active ru w e)
        (step_after_rollback ru (rollback_changes (reverse ru.changes) w) e)
  step_of_active (timestamp_call ts) ru w e = simp e stamps
  step_of_active (change_call c) ru w e = simp e registers

  step_of_other :
      (c : Call W) (ru : RecoveryUnit W) (w : W)
      → is_state_active ru.state ≡ false
      → ru.state ≢ active
      → StepTo c ru (call c ru w)
  unfolding call begin_transaction commit rollback set_commit_timestamp register_change
  step_of_other (begin_call now) ru w h n = simp h (starts n)
  step_of_other (commit_call now) ru w h n = simp h (refused (no_commit n))
  step_of_other rollback_call ru w h n = simp h (refused (no_rollback n))
  step_of_other (timestamp_call ts) ru w h n = simp h (refused (no_timestamp n))
  step_of_other (change_call c) ru w h n = simp h (refused (no_change n))

  -- Every call of a method takes the unit along a step of the state machine, with the answer that
  -- the step has. A unit that is not active becomes active by `BeginTransaction`, with no changes, and
  -- refuses every other call. An active unit refuses `BeginTransaction`, and keeps its changes and
  -- those that are registered until a `Commit` that succeeds makes it committed, one that fails aborted,
  -- or a `Rollback` that succeeds aborted. A refused call, and a `Rollback` that fails, leave the state
  -- and the changes as they are.
  pub call-Step :
      (c : Call W) (ru : RecoveryUnit W) (w : W)
      → Step c (call c ru w).0 (view ru) (view (call c ru w).1)
  call-Step c ru w = elim (Bool-cases (is_state_active ru.state)) [
    | inl on ↦ step_of_active c ru w (active_of ru.state on)
    | inr off ↦ step_of_other c ru w off (λ e. ground (arith, ap is_state_active e))
  ]

  -- Outside a transaction `Commit`, `Rollback`, `SetCommitTimestamp` and `RegisterChange` fail, and
  -- change neither the unit nor the world.
  pub outside_transaction :
      (ru : RecoveryUnit W) (w : W) (now ts : ℕ) (c : Change W)
      → is_state_active ru.state ≡ false
      → (commit now ru w ≡ (err nothing_to_commit, ru, w))
        × (rollback ru w ≡ (err nothing_to_roll_back, ru, w))
        × (set_commit_timestamp ts ru ≡ (err timestamp_outside, ru))
        × (register_change c ru ≡ (err change_outside, ru))
  unfolding commit rollback set_commit_timestamp register_change
  outside_transaction ru w now ts c h = (simp h, simp h, simp h, simp h)

  unfoldable pub register_all : List (Change W) → RecoveryUnit W → RecoveryUnit W
  register_all [] ru = ru
  register_all (c ∷ cs) ru = register_all cs (register_change c ru).1

  register_change-keeps :
      (c : Change W) (ru : RecoveryUnit W)
      → ru.state ≡ active
      → ((register_change c ru).1.state ≡ active)
        × ((register_change c ru).1.commit_timestamp ≡ ru.commit_timestamp)
  unfolding register_change
  register_change-keeps c ru s = (simp s, simp s)

  register_all-keeps :
      (cs : List (Change W)) (ru : RecoveryUnit W)
      → ru.state ≡ active
      → ((register_all cs ru).state ≡ active)
        × ((register_all cs ru).commit_timestamp ≡ ru.commit_timestamp)
  unfolding register_all
  register_all-keeps [] ru s = (s, refl)
  register_all-keeps (c ∷ cs) ru s =
      let one = register_change-keeps c ru s in
      let rest = register_all-keeps cs (register_change c ru).1 one.0 in (rest.0, rest.1 ∙ one.1)

  after_commit-keeps :
      (ru : RecoveryUnit W) (p : Result Failure (Unit {0}) × W)
      → (after_commit ru p).1.commit_timestamp ≡ ru.commit_timestamp
  after_commit-keeps ru (ok _, w) = refl
  after_commit-keeps ru (err e, w) = refl

  commit-keeps :
      (now : ℕ) (ru : RecoveryUnit W) (w : W)
      → ru.state ≡ active
      → (commit now ru w).1.commit_timestamp
        ≡ (if ru.commit_timestamp == 0 then now else ru.commit_timestamp)
  commit-keeps now ru w s =
      ap (λ (o : Outcome W). o.1.commit_timestamp) (commit_active now ru w s)
      ∙ after_commit-keeps (stamped now ru) (commit_changes ru.changes w)

  -- A unit that is reused outside a transaction keeps the commit timestamp of its last transaction,
  -- if there was one: after `BeginTransaction`, any registered changes and `Commit`, the timestamp
  -- is still the old one.
  pub commit_timestamp_kept :
      (ru : RecoveryUnit W) (w w' : W) (now later : ℕ) (cs : List (Change W))
      → is_state_active ru.state ≡ false
      → ru.commit_timestamp ≢ 0
      → (commit later (register_all cs (begin_transaction now ru w).1) w').1.commit_timestamp
        ≡ ru.commit_timestamp
  unfolding begin_transaction
  commit_timestamp_kept ru w w' now later cs off set =
      let begun : RecoveryUnit W = record ru {
        state = active;
        read_timestamp = now;
        changes = [];
        snapshot = [];
      } in
      let kept = register_all-keeps cs begun refl in
      simp off (commit-keeps later (register_all cs begun) w' kept.0 ∙ rw kept.1 (ground arith))
