-- ===== src/RecoveryUnit/Undo.antt =====
-- What a rollback and a commit do to the world.
use mathlib.Core.Path.{fun_ext}
use mathlib.Core.List.{reverse, reverse-append}
use xmongodb.Common.{ℕ, ◌≡◌, refl, ap, ◌∙◌, List, [], ◌∷◌, ◌++◌, Result, ok, err}
use xmongodb.RecoveryUnit.{
  Failure, Action, Change, RecoveryUnit, active, aborted, commit_failed, and_then, after_commit,
  commit_changes, rollback_changes, commit, rollback, register_change, stamped, after_rollback,
}

-- `w` came from `w₀` by registered changes, each of which its rollback undoes.
pub data Applied {W : Type 0} (w₀ : W) : List (Change W) → W → Type 0 where
  nothing : Applied w₀ [] w₀
  change :
      {cs : List (Change W)} {w w' : W} (c : Change W)
      → Applied w₀ cs w
      → c.rollback w' ≡ (ok tt, w)
      → Applied w₀ (cs ++ c ∷ []) w'

module _ {W : Type 0} where
  rollback-Applied :
      {w₀ : W} {cs : List (Change W)} {w : W}
      → Applied w₀ cs w
      → rollback_changes (reverse cs) w ≡ (ok tt, w₀)
  unfolding rollback_changes
  rollback-Applied nothing = refl
  rollback-Applied (change {cs} c a undo) =
      rw (reverse-append cs (c ∷ []), undo) (rollback-Applied a)

  -- If every registered change is undone by its rollback, `Rollback` of an active unit succeeds, brings
  -- back the world in which the transaction began, and leaves the unit aborted and without changes.
  pub rollback_restores :
      (ru : RecoveryUnit W) {w₀ w : W}
      → ru.state ≡ active
      → Applied w₀ ru.changes w
      → rollback ru w ≡ (ok tt, record ru { state = aborted; changes = []; snapshot = [] }, w₀)
  unfolding rollback
  rollback_restores ru s a = simp s (ap (after_rollback ru) (rollback-Applied a))

  -- `RegisterChange` in an active unit extends what a later rollback undoes.
  pub register_change-Applied :
      (ru : RecoveryUnit W) (c : Change W) {w₀ w w' : W}
      → ru.state ≡ active
      → Applied w₀ ru.changes w
      → c.rollback w' ≡ (ok tt, w)
      → Applied w₀ (register_change c ru).1.changes w'
  unfolding register_change
  register_change-Applied ru c s a undo = simp s (change c a undo)

  and_then_assoc :
      (p : Result Failure (Unit {0}) × W) (f g : Action W)
      → and_then p (λ w. and_then (f w) g) ≡ and_then (and_then p f) g
  and_then_assoc (ok _, w) f g = refl
  and_then_assoc (err e, w) f g = refl

  commit_changes-append :
      (xs ys : List (Change W)) (w : W)
      → commit_changes (xs ++ ys) w ≡ and_then (commit_changes xs w) (commit_changes ys)
  unfolding commit_changes
  commit_changes-append [] ys w = refl
  commit_changes-append (c ∷ xs) ys w =
      ap (and_then (c.commit w)) (fun_ext (commit_changes-append xs ys))
      ∙ and_then_assoc (c.commit w) (commit_changes xs) (commit_changes ys)

  -- If one of the changes of an active unit fails to commit, behind others that succeed, `Commit`
  -- leaves the world as the earlier commits and the failing one made it, rolls nothing back, and
  -- aborts the unit.
  pub commit_stops :
      (now : ℕ) (ru : RecoveryUnit W) (before after : List (Change W)) (c : Change W) (w w' w'' : W)
      (e : Failure)
      → ru.state ≡ active
      → ru.changes ≡ before ++ (c ∷ after)
      → commit_changes before w ≡ (ok tt, w')
      → c.commit w' ≡ (err e, w'')
      → commit now ru w ≡ (err (commit_failed e), record (stamped now ru) { state = aborted }, w'')
  unfolding commit commit_changes
  commit_stops now ru before after c w w' w'' e s parts first last =
      let run : commit_changes ru.changes w ≡ (err e, w'') =
        ap (λ cs. commit_changes cs w) parts
        ∙ commit_changes-append before (c ∷ after) w
        ∙ ap (λ p. and_then p (commit_changes (c ∷ after))) first
        ∙ ap (λ p. and_then p (commit_changes after)) last in
      simp s (ap (after_commit (stamped now ru)) run)
