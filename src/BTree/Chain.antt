-- ===== src/BTree/Chain.antt =====
-- `Range` along the chain of leaves.
use xmongodb.Common.{
  ℕ, zero, suc, ◌<◌, ◌≤◌, Ordering, ◌≡◌, refl, Bool, true, false, Option, none, some, List, [], ◌∷◌,
  ◌++◌, arith, Run, done, length, if◌then◌else◌, Bool-cases, inl, inr,
}
use mathlib.Core.List.{append-nil}
use xmongodb.Bytes.{Bytes, lex, is_lt}
use xmongodb.Bytes.Order.{lex_trans}
use xmongodb.BTree.Heap.{Node, BTree}
use xmongodb.BTree.Find.{find_leaf}
use xmongodb.BTree.Leaf.{Scan, scan_leaf, past_end}
use xmongodb.BTree.Entries.{AreParallel}
use xmongodb.BTree.{range, range_from}

abbrev pub Entries : Type 0
Entries = List (Bytes × Bytes)

-- The entries of a leaf, and of the leaves of a chain.
abbrev pub pair_up : List Bytes → List Bytes → Entries
pair_up [] vs = []
pair_up (k ∷ ks) [] = []
pair_up (k ∷ ks) (v ∷ vs) = (k, v) ∷ pair_up ks vs

abbrev pub all_entries : List Node → Entries
all_entries [] = []
all_entries (n ∷ ns) = pair_up n.keys n.values ++ all_entries ns

-- The entries whose key is at least `start` and below `end`.
abbrev pub in_range : Bytes → Option Bytes → Entries → Entries
in_range start end [] = []
in_range start end ((k, v) ∷ es) =
    let rest = in_range start end es in
    if is_lt (lex k start) then rest else if past_end end k then rest else (k, v) ∷ rest

abbrev pub KeysAbove : Bytes → Entries → Type 0
KeysAbove k [] = Unit
KeysAbove k ((k', v) ∷ es) = (lex k k' ≡ Ordering.lt) × KeysAbove k es

-- Strictly ascending keys.
abbrev pub Ascending : Entries → Type 0
Ascending [] = Unit
Ascending ((k, v) ∷ es) = KeysAbove k es × Ascending es

abbrev pub AllParallel : List Node → Type 0
AllParallel [] = Unit
AllParallel (n ∷ ns) = AreParallel n.keys n.values × AllParallel ns

-- From `p` the `next` pointers lead through `ns` to nil.
pub data Chain (t : BTree) : Option ℕ → List Node → Type 0 where
  end_of_chain : Chain t none []
  link :
      {p : ℕ} {n : Node} {ns : List Node}
      → t.cell p ≡ some n
      → Chain t n.next ns
      → Chain t (some p) (n ∷ ns)

past_end_mono :
    (end : Option Bytes) (k k' : Bytes)
    → lex k k' ≡ Ordering.lt
    → past_end end k ≡ true
    → past_end end k' ≡ true
past_end_mono none k k' h e = e
past_end_mono (some b) k k' h e = ground (arith, lex_trans k k' b)

-- Behind a key past the end nothing is in the range.
in_range-past_end :
    (start : Bytes) (end : Option Bytes) (k : Bytes) (es : Entries)
    → past_end end k ≡ true
    → KeysAbove k es
    → in_range start end es ≡ []
in_range-past_end start end k [] h a = refl
in_range-past_end start end k ((k', v) ∷ es) h a =
    ground (arith, in_range-past_end start end k es h a.1, past_end_mono end k k' a.0 h)

in_range-append :
    (start : Bytes) (end : Option Bytes) (xs ys : Entries)
    → in_range start end (xs ++ ys) ≡ in_range start end xs ++ in_range start end ys
in_range-append start end [] ys = refl
in_range-append start end ((k, v) ∷ xs) ys = ground (arith, in_range-append start end xs ys)

KeysAbove-append :
    (k : Bytes) (xs ys : Entries) → KeysAbove k (xs ++ ys) → KeysAbove k xs × KeysAbove k ys
KeysAbove-append k [] ys a = (tt, a)
KeysAbove-append k ((k', v) ∷ xs) ys a = let (l, r) = KeysAbove-append k xs ys a.1 in ((a.0, l), r)

Ascending-append : (xs ys : Entries) → Ascending (xs ++ ys) → Ascending ys
Ascending-append [] ys a = a
Ascending-append ((k, v) ∷ xs) ys a = Ascending-append xs ys a.1

-- The scan of one leaf: what of it is in the range; a stop means that nothing behind is.
record Scanned (start : Bytes) (end : Option Bytes) (here rest : Entries) (r : Run Scan)
    : Type 0 where
  ended : Bool
  result : r ≡ done (record { entries = in_range start end here; ended = ended })
  nothing : ended ≡ true → in_range start end rest ≡ []

scan_leaf-Scanned :
    (start : Bytes) (end : Option Bytes) (ks vs : List Bytes) (rest : Entries)
    → AreParallel ks vs
    → Ascending (pair_up ks vs ++ rest)
    → Scanned start end (pair_up ks vs) rest (scan_leaf start end ks vs)
unfolding scan_leaf
scan_leaf-Scanned start end [] [] rest h a = record {
  ended = false;
  result = refl;
  nothing = λ e. cc;
}
scan_leaf-Scanned start end [] (v ∷ vs) rest h a = absurd (omega arith)
scan_leaf-Scanned start end (k ∷ ks) [] rest h a = absurd (omega arith)
scan_leaf-Scanned start end (k ∷ ks) (v ∷ vs) rest h a =
    let ih = scan_leaf-Scanned start end ks vs rest (omega arith) a.1 in
    elim (Bool-cases (is_lt (lex k start))) [
      | inl low ↦ record { ended = ih.ended; result = rw low ih.result; nothing = ih.nothing }
      | inr high ↦ elim (Bool-cases (past_end end k)) [
        | inl past ↦
            let (here, behind) = KeysAbove-append k (pair_up ks vs) rest a.0 in
            record {
              ended = true;
              result = rw (high, past, in_range-past_end start end k (pair_up ks vs) past here);
              nothing = λ e. in_range-past_end start end k rest past behind;
            }
        | inr inside ↦ record {
          ended = ih.ended;
          result = rw (high, inside, ih.result);
          nothing = ih.nothing;
        }
      ]
    ]

pub length-pair_up : (ks vs : List Bytes) → AreParallel ks vs → length (pair_up ks vs) ≡ length ks
length-pair_up [] vs h = refl
length-pair_up (k ∷ ks) [] h = absurd (omega arith)
length-pair_up (k ∷ ks) (v ∷ vs) h = omega (arith, length-pair_up ks vs (omega arith))

module _ {t : BTree} (start : Bytes) (end : Option Bytes) where
  pub range_from-in_range :
      (fuel : ℕ) {p : Option ℕ} {ns : List Node}
      → Chain t p ns
      → length ns < fuel
      → AllParallel ns
      → Ascending (all_entries ns)
      → range_from fuel t start end p ≡ done (in_range start end (all_entries ns))
  unfolding range_from
  range_from-in_range zero c h par asc = absurd (omega arith)
  range_from-in_range (suc fuel) end_of_chain h par asc = refl
  range_from-in_range (suc fuel) (link {n} {ns} e c) h par asc =
      let s = scan_leaf-Scanned start end n.keys n.values (all_entries ns) par.0 asc in
      let ih =
        range_from-in_range fuel c (omega arith) par.1
          (Ascending-append (pair_up n.keys n.values) (all_entries ns) asc) in
      elim (Bool-cases s.ended) [
        | inl stop ↦
            rw
              (
                e,
                s.result,
                stop,
                in_range-append start end (pair_up n.keys n.values) (all_entries ns),
                s.nothing stop,
              )
              (rw append-nil)
        | inr go ↦ rw (
          e,
          s.result,
          go,
          ih,
          in_range-append start end (pair_up n.keys n.values) (all_entries ns),
        )
      ]

-- The leaves from the one that `findLeaf` finds on: their lists are parallel, and the keys ascend
-- strictly from leaf to leaf.
pub record Walk (t : BTree) (start : Bytes) : Type 0 where
  pub leaf : ℕ
  pub leaves : List Node
  pub found : find_leaf t start ≡ done leaf
  pub chain : Chain t (some leaf) leaves
  pub fits : length leaves ≤ t.fresh
  pub parallel : AllParallel leaves
  pub ascending : Ascending (all_entries leaves)

-- If `findLeaf` leads to a leaf from which the chain goes through at most as many leaves as there
-- are nodes, whose lists are parallel and whose keys ascend strictly from leaf to leaf, `Range`
-- returns the entries of these leaves whose keys are at least the start and below the end, if there
-- is one, in order.
pub range-in_range :
    {t : BTree} {start : Bytes} (end : Option Bytes) (w : Walk t start)
    → range t start end ≡ done (in_range start end (all_entries w.leaves))
unfolding range
range-in_range {t} {start} end w =
    rw w.found
      (range_from-in_range start end (suc t.fresh) w.chain (omega arith) w.parallel w.ascending)
