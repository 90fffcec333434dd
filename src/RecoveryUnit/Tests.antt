-- ===== src/RecoveryUnit/Tests.antt =====
-- The theorems on recovery units, with a world that is a list of numbers.
use xmongodb.Common.{ℕ, ◌≡◌, ◌≢◌, refl, none, some, List, [], ◌∷◌, ok, err}
use xmongodb.RecoveryUnit.{
  Action, Change, RecoveryUnit, active, aborted, committed, already_active, commit_failed,
  new_recovery_unit, new_simple_change, begin_transaction, commit, rollback, commit_changes,
  stamped,
}
use xmongodb.RecoveryUnit.States.{
  begin_call, call, view, Step, call-Step, register_all, commit_timestamp_kept,
}
use xmongodb.RecoveryUnit.Undo.{Applied, nothing, change, rollback_restores, commit_stops}

abbrev World : Type 0
World = List ℕ

abbrev pop : Action World
pop [] = (err [], [])
pop (x ∷ xs) = (ok tt, xs)

abbrev note : Action World
note w = (ok tt, 9 ∷ w)

-- A change that put a number in front, and that notes a 9 when it is committed.
abbrev pushed : Change World
pushed = new_simple_change (some note) (some pop)

-- A change that cannot be committed.
abbrev stuck : Change World
stuck = new_simple_change (some (λ w. (err (1 ∷ []), w))) none

-- A unit that has committed at time 5, and one in a transaction with two changes.
abbrev finished : RecoveryUnit World
finished = record new_recovery_unit { state = committed; commit_timestamp = 5 }

abbrev started : RecoveryUnit World
started = record new_recovery_unit { state = active; changes = pushed ∷ pushed ∷ [] }

abbrev doomed : RecoveryUnit World
doomed = record new_recovery_unit { state = active; changes = pushed ∷ stuck ∷ [] }

five_ne : finished.commit_timestamp ≢ 0
five_ne = λ e. cc

started-Applied : Applied (1 ∷ []) started.changes (3 ∷ 2 ∷ 1 ∷ [])
unfolding new_simple_change
started-Applied = change pushed (change {w' = 2 ∷ 1 ∷ []} pushed nothing refl) refl

commit_pushed : commit_changes (pushed ∷ []) (1 ∷ []) ≡ (ok tt, 9 ∷ 1 ∷ [])
unfolding commit_changes new_simple_change
commit_pushed = refl

commit_stuck : stuck.commit (9 ∷ 1 ∷ []) ≡ (err (1 ∷ []), 9 ∷ 1 ∷ [])
unfolding new_simple_change
commit_stuck = refl

rollback_restores_example :
    rollback started (3 ∷ 2 ∷ 1 ∷ [])
    ≡ (ok tt, record started { state = aborted; changes = []; snapshot = [] }, 1 ∷ [])
rollback_restores_example = rollback_restores started refl started-Applied

commit_stops_example :
    commit 8 doomed (1 ∷ [])
    ≡ (err (commit_failed (1 ∷ [])), record (stamped 8 doomed) { state = aborted }, 9 ∷ 1 ∷ [])
commit_stops_example =
    commit_stops 8 doomed (pushed ∷ []) [] stuck (1 ∷ []) (9 ∷ 1 ∷ []) (9 ∷ 1 ∷ []) (1 ∷ []) refl
      refl commit_pushed commit_stuck

call-Step_example :
    Step
      (begin_call 8)
      (call (begin_call 8) started (3 ∷ 2 ∷ 1 ∷ [])).0
      (view started)
      (view (call (begin_call 8) started (3 ∷ 2 ∷ 1 ∷ [])).1)
call-Step_example = call-Step (begin_call 8) started (3 ∷ 2 ∷ 1 ∷ [])

-- That call is refused, and the two changes stay.
begun_again : call (begin_call 8) started (3 ∷ []) ≡ (err already_active, started, 3 ∷ [])
unfolding call begin_transaction new_recovery_unit
begun_again = refl

commit_timestamp_kept_example :
    (commit 9
      (register_all (pushed ∷ []) (begin_transaction 8 finished []).1)
      (2 ∷ [])).1.commit_timestamp
    ≡ finished.commit_timestamp
commit_timestamp_kept_example =
    commit_timestamp_kept finished [] (2 ∷ []) 8 9 (pushed ∷ []) refl five_ne
