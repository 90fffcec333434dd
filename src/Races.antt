-- ===== src/Races.antt =====
-- Methods that hold no lock between their calls, in goroutines: how their steps interleave, and what is
-- kept of a tree and a counter that they share.
pub mod Interleavings
pub mod Trees
use xmongodb.Common.{ℕ, ◌+◌, ◌≡◌, arith}

-- What goroutines have done: how often they have written to the tree or given it up, have entered a key
-- and removed one, and have counted an entry and one less.
pub record Tally : Type 0 where
  pub written : ℕ
  pub entered : ℕ
  pub removed : ℕ
  pub counted : ℕ
  pub uncounted : ℕ

abbrev pub tally : ℕ → ℕ → ℕ → ℕ → ℕ → Tally
tally w e r c u = record { written = w; entered = e; removed = r; counted = c; uncounted = u }

abbrev pub none_yet : Tally
none_yet = tally 0 0 0 0 0

infixl 65 ◌⊕◌
abbrev pub ◌⊕◌ : Tally → Tally → Tally
s ⊕ t = record {
  written = s.written + t.written;
  entered = s.entered + t.entered;
  removed = s.removed + t.removed;
  counted = s.counted + t.counted;
  uncounted = s.uncounted + t.uncounted;
}

Tally_eq :
    {s t : Tally}
    → s.written ≡ t.written
    → s.entered ≡ t.entered
    → s.removed ≡ t.removed
    → s.counted ≡ t.counted
    → s.uncounted ≡ t.uncounted
    → s ≡ t
Tally_eq a b c d e i = record {
  written = a i;
  entered = b i;
  removed = c i;
  counted = d i;
  uncounted = e i;
}

-- One goroutine among the others.
pub moved_last : (rest : Tally) (p s : Tally) → rest ⊕ (p ⊕ s) ≡ (rest ⊕ s) ⊕ p
moved_last rest p s = Tally_eq (omega arith) (omega arith) (omega arith) (omega arith) (omega arith)

pub moved_first : (rest : Tally) (p s : Tally) → rest ⊕ (p ⊕ s) ≡ (rest ⊕ p) ⊕ s
moved_first rest p s =
    Tally_eq (omega arith) (omega arith) (omega arith) (omega arith) (omega arith)

pub none_first : (t : Tally) → none_yet ⊕ t ≡ t
none_first t = Tally_eq (omega arith) (omega arith) (omega arith) (omega arith) (omega arith)
