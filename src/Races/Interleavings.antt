-- ===== src/Races/Interleavings.antt =====
-- Goroutines `G` on what they share, `S`, whose steps come in any order.
use mathlib.Core.Path.{subst}
use xmongodb.Common.{
  ℕ, suc, ◌+◌, ◌-◌, ◌≤◌, ◌≡◌, refl, sym, ap, ◌∙◌, List, [], ◌∷◌, arith, Run, done, length,
}
use xmongodb.Races.{Tally, none_yet, ◌⊕◌, moved_last, moved_first, none_first}

-- The next step of a goroutine, what it has done, how many steps it may still need, and what holds of it
-- wherever it stands.
pub record System (S G : Type 0) : Type 1 where
  pub step : S → G → Run (S × G)
  pub tally_of : G → Tally
  pub remaining : G → ℕ
  pub HasKey : G → Type 0

module _ {S G : Type 0} (y : System S G) where
  -- One goroutine makes a step, and any number of steps.
  pub data Step : S → List G → S → List G → Type 0 where
    here :
        {s s' : S} {p p' : G} {ps : List G}
        → y.step s p ≡ done (s', p')
        → Step s (p ∷ ps) s' (p' ∷ ps)
    there : {s s' : S} {p : G} {ps ps' : List G} → Step s ps s' ps' → Step s (p ∷ ps) s' (p ∷ ps')

  pub data Steps (s : S) (ps : List G) : S → List G → Type 0 where
    begun : Steps s ps s ps
    next :
        {s1 s2 : S} {ps1 ps2 : List G} → Steps s ps s1 ps1 → Step s1 ps1 s2 ps2 → Steps s ps s2 ps2

  abbrev pub sum_of : List G → Tally
  sum_of [] = none_yet
  sum_of (p ∷ ps) = y.tally_of p ⊕ sum_of ps

  abbrev pub AllHaveKeys : List G → Type 0
  AllHaveKeys [] = Unit
  AllHaveKeys (p ∷ ps) = y.HasKey p × AllHaveKeys ps

  abbrev pub AllFinished : List G → Type 0
  AllFinished [] = Unit
  AllFinished (p ∷ ps) = (y.remaining p ≡ 0) × AllFinished ps

  -- Every goroutine can make its next step, which brings it nearer to its answer.
  abbrev pub AllGoOn : S → List G → Type 0
  AllGoOn s [] = Unit
  AllGoOn s (p ∷ ps) =
      ((s' : S) × (p' : G) × (y.step s p ≡ done (s', p')) × (y.remaining p' ≤ y.remaining p - 1))
      × AllGoOn s ps

  module _ (Shared : Tally → S → Type 0) where
    -- What one step of a goroutine does: it does not panic or loop. `rest` is what the others did.
    pub record Advanced (rest : Tally) (s : S) (p : G) : Type 0 where
      pub store : S
      pub after : G
      pub run : y.step s p ≡ done (store, after)
      pub nearer : y.remaining after ≤ y.remaining p - 1
      pub key : y.HasKey after
      pub shared : Shared (rest ⊕ y.tally_of after) store

    -- Every goroutine advances, as long as less than `bound` is written.
    pub record IsLawful (bound : ℕ) : Type 0 where
      pub written-le : (p : G) → (y.tally_of p).written ≤ 1
      pub advance :
          (rest : Tally) (s : S) (p : G)
          → y.HasKey p
          → rest.written + 1 ≤ bound
          → Shared (rest ⊕ y.tally_of p) s
          → Advanced rest s p

    -- What holds of the goroutines after a step; `rest` is what those to the left did.
    pub record Kept (rest : Tally) (ps : List G) (s' : S) (ps' : List G) : Type 0 where
      pub shared : Shared (rest ⊕ sum_of ps') s'
      pub keys : AllHaveKeys ps'
      pub same_length : length ps' ≡ length ps

    module _ {bound : ℕ} (laws : IsLawful bound) where
      sum_of-written-le : (ps : List G) → (sum_of ps).written ≤ length ps
      sum_of-written-le [] = omega arith
      sum_of-written-le (p ∷ ps) = omega (arith, laws.written-le p, sum_of-written-le ps)

      counted_as : {t t' : Tally} {s s' : S} → s ≡ s' → t ≡ t' → Shared t s → Shared t' s'
      counted_as e f x = subst {A = Tally × S} (λ z. Shared z.0 z.1) (λ j. (f j, e j)) x

      advance_first :
          (rest : Tally) (s : S) (p : G) (ps : List G)
          → y.HasKey p
          → rest.written + length (p ∷ ps) ≤ bound
          → Shared (rest ⊕ sum_of (p ∷ ps)) s
          → Advanced (rest ⊕ sum_of ps) s p
      advance_first rest s p ps key room shared =
          laws.advance (rest ⊕ sum_of ps) s p key (omega (arith, room, sum_of-written-le ps))
            (counted_as refl (moved_last rest (y.tally_of p) (sum_of ps)) shared)

      step_injective :
          {s s' : S} {p p' : G}
          → ◌≡◌ {A = Run (S × G)} (done (s, p)) (done (s', p'))
          → (s ≡ s') × (p ≡ p')
      step_injective h = (cc, cc)

      Step-Kept :
          {s s' : S} {ps ps' : List G} (rest : Tally)
          → Shared (rest ⊕ sum_of ps) s
          → AllHaveKeys ps
          → rest.written + length ps ≤ bound
          → Step s ps s' ps'
          → Kept rest ps s' ps'
      Step-Kept rest shared keys room (here {s} {p} {ps} run) =
          let x = advance_first rest s p ps keys.0 room shared in
          let (stores, afters) = step_injective (sym x.run ∙ run) in
          record {
            shared =
                counted_as stores
                  (sym (moved_last rest (y.tally_of x.after) (sum_of ps))
                    ∙ ap (λ q. rest ⊕ (y.tally_of q ⊕ sum_of ps)) afters)
                  x.shared;
            keys = (subst y.HasKey afters x.key, keys.1);
            same_length = refl;
          }
      Step-Kept rest shared keys room (there {p} {ps} {ps'} more) =
          let r =
            Step-Kept (rest ⊕ y.tally_of p)
              (counted_as refl (moved_first rest (y.tally_of p) (sum_of ps)) shared) keys.1
              (omega (arith, room, laws.written-le p)) more in
          record {
            shared = counted_as refl (sym (moved_first rest (y.tally_of p) (sum_of ps'))) r.shared;
            keys = (keys.0, r.keys);
            same_length = ap suc r.same_length;
          }

      pub Steps-Kept :
          {s : S} {ps : List G}
          → Shared (sum_of ps) s
          → AllHaveKeys ps
          → length ps ≤ bound
          → {s' : S} {ps' : List G} → Steps s ps s' ps'
          → Kept none_yet ps s' ps'
      Steps-Kept {ps} shared keys room begun = record {
        shared = counted_as refl (sym (none_first (sum_of ps))) shared;
        keys = keys;
        same_length = refl;
      }
      Steps-Kept shared keys room (next before x) =
          let r = Steps-Kept shared keys room before in
          let k = Step-Kept none_yet r.shared r.keys (omega (arith, r.same_length, room)) x in
          record { shared = k.shared; keys = k.keys; same_length = k.same_length ∙ r.same_length }

      pub Kept-AllGoOn :
          (rest : Tally) {s : S} (ps : List G)
          → Shared (rest ⊕ sum_of ps) s
          → AllHaveKeys ps
          → rest.written + length ps ≤ bound
          → AllGoOn s ps
      Kept-AllGoOn rest [] shared k room = tt
      Kept-AllGoOn rest {s} (p ∷ ps) shared k room =
          let x = advance_first rest s p ps k.0 room shared in
          (
            (x.store, x.after, x.run, x.nearer),
            Kept-AllGoOn (rest ⊕ y.tally_of p) ps
                (counted_as refl (moved_first rest (y.tally_of p) (sum_of ps)) shared) k.1
                (omega (arith, room, laws.written-le p)),
          )
