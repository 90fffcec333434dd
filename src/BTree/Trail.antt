-- ===== src/BTree/Trail.antt =====
-- The chain of the leaves of a row, in trees of one and two levels.
use xmongodb.Common.{
  ℕ, ◌*◌, ◌/◌, ◌≤◌, ◌≡◌, refl, sym, ap, Option, some, List, [], ◌∷◌, ◌++◌, arith, length, suc,
}
use mathlib.Core.List.{append-nil}
use mathlib.Core.Path.{subst}
use xmongodb.Bytes.{Bytes}
use xmongodb.BTree.Heap.{Node, BTree}
use xmongodb.BTree.Entries.{AreAbove, IsSorted}
use xmongodb.BTree.Chain.{
  Entries, pair_up, all_entries, KeysAbove, Ascending, AllParallel, Chain, end_of_chain, link,
}
use xmongodb.BTree.Row.{
  Within, entries_of, Row, last, more, Row-EntriesFrom, EntriesFrom, KeysAbove-EntriesFrom,
}
use xmongodb.BTree.Shallow.{Shallow, leaf_root, inner_root}

KeysAbove-pair_up :
    (k : Bytes) (ks vs : List Bytes) (es : Entries)
    → AreAbove k ks
    → KeysAbove k es
    → KeysAbove k (pair_up ks vs ++ es)
KeysAbove-pair_up k [] vs es h g = g
KeysAbove-pair_up k (x ∷ ks) [] es h g = g
KeysAbove-pair_up k (x ∷ ks) (v ∷ vs) es h g = (h.0, KeysAbove-pair_up k ks vs es h.1 g)

-- The keys of a leaf ascend, and on into what stands from its upper bound on.
Ascending-pair_up :
    (lo : Option Bytes) (s : Bytes) (ks vs : List Bytes) (es : Entries)
    → IsSorted ks
    → Within lo (some s) ks
    → EntriesFrom (some s) es
    → Ascending es
    → Ascending (pair_up ks vs ++ es)
Ascending-pair_up lo s [] vs es h w f a = a
Ascending-pair_up lo s (k ∷ ks) [] es h w f a = a
Ascending-pair_up lo s (k ∷ ks) (v ∷ vs) es h w f a = (
  KeysAbove-pair_up k ks vs es h.0 (KeysAbove-EntriesFrom k s es (ground (arith, w.1)) f),
  Ascending-pair_up lo s ks vs es h.1 w.2 f a,
)

Ascending-leaf : (ks vs : List Bytes) → IsSorted ks → Ascending (pair_up ks vs ++ [])
Ascending-leaf [] vs h = tt
Ascending-leaf (k ∷ ks) [] h = tt
Ascending-leaf (k ∷ ks) (v ∷ vs) h = (KeysAbove-pair_up k ks vs [] h.0 tt, Ascending-leaf ks vs h.1)

-- The chain from the first leaf of a row on.
pub record Trail (t : BTree) (p : Option ℕ) (ps : List ℕ) (es : Entries) : Type 0 where
  pub leaves : List Node
  pub chain : Chain t p leaves
  pub count : length leaves ≡ length ps
  pub parallel : AllParallel leaves
  pub entries : all_entries leaves ≡ es
  pub ascending : Ascending es

pub trail :
    {order : ℕ} {t : BTree} {up : Option ℕ} {lo : Option Bytes} {seps : List Bytes} {p : ℕ}
    {ps : List ℕ} {es : Entries} {w : ℕ}
    → Row order t up lo seps (p ∷ ps) es w
    → Trail t (some p) (p ∷ ps) es
trail {t} (last {n} l) = record {
  leaves = n ∷ [];
  chain = link l.live (subst {A = Option ℕ} (λ x. Chain t x []) (sym l.next_leaf) end_of_chain);
  count = refl;
  parallel = (l.good.parallel, tt);
  entries = append-nil (entries_of n);
  ascending = rw append-nil at (Ascending-leaf n.keys n.values l.good.sorted);
}
trail {t} {lo} (more {s} {n} {es} l low other r) =
    let x = trail r in
    record {
      leaves = n ∷ x.leaves;
      chain =
          link l.live (subst {A = Option ℕ} (λ y. Chain t y x.leaves) (sym l.next_leaf) x.chain);
      count = ap suc x.count;
      parallel = (l.good.parallel, x.parallel);
      entries = ap (λ rest. entries_of n ++ rest) x.entries;
      ascending =
          Ascending-pair_up lo s n.keys n.values es l.good.sorted l.within (Row-EntriesFrom r)
            x.ascending;
    }

Row-Ascending :
    {order : ℕ} {t : BTree} {up : Option ℕ} {lo : Option Bytes} {seps : List Bytes} {ps : List ℕ}
    {es : Entries} {w : ℕ}
    → Row order t up lo seps ps es w
    → Ascending es
Row-Ascending (last l) = (trail (last l)).ascending
Row-Ascending (more l low other r) = (trail (more l low other r)).ascending

-- Each separator was paid for by half an order of calls.
Row-weight :
    {order : ℕ} {t : BTree} {up : Option ℕ} {lo : Option Bytes} {seps : List Bytes} {ps : List ℕ}
    {es : Entries} {w : ℕ}
    → Row order t up lo seps ps es w
    → length seps * (order / 2) ≤ w
Row-weight (last l) = omega arith
Row-weight {order} (more l low other r) = omega (arith, Row-weight r)

pub Shallow-weight : {t : BTree} {es : Entries} {w k : ℕ} → Shallow t es w k → k * (t.order / 2) ≤ w
Shallow-weight (leaf_root r) = omega arith
Shallow-weight (inner_root e d u old fits r) = Row-weight r

pub Shallow-Ascending : {t : BTree} {es : Entries} {w k : ℕ} → Shallow t es w k → Ascending es
Shallow-Ascending (leaf_root r) = (trail r).ascending
Shallow-Ascending (inner_root e d u old fits r) = Row-Ascending r
