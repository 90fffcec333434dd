-- ===== src/BTree/Halves.antt =====
-- The two halves of a sorted leaf, and the bounds that the key between them sets.
use xmongodb.Common.{
  ℕ, ◌/◌, ◌<◌, ◌≤◌, ◌≡◌, refl, sym, ap, ◌∙◌, true, Option, none, some, List, [], ◌∷◌, ◌++◌, arith,
  length, length-take, length-drop, get_elem?, take, drop, zero, suc, Ordering,
}
use mathlib.Core.List.{append_assoc}
use xmongodb.Bytes.{Bytes, lex}
use xmongodb.Bytes.Order.{lex_refl, lex_trans, lex_symm, eq_of_lex}
use xmongodb.BTree.Heap.{Node}
use xmongodb.BTree.Entries.{AreParallel, AreAbove, IsSorted}
use xmongodb.BTree.Chain.{Entries}
use xmongodb.BTree.Sorted.{pair_up-take-drop}
use xmongodb.BTree.Row.{at_least, above, before, Within, entries_of, excess}
use xmongodb.BTree.Fits.{Fits}
use xmongodb.BTree.SplitLeaf.{left_half, right_half}

pub middle :
    (mid : ℕ) (ks : List Bytes)
    → mid < length ks
    → (sep : Bytes) × (get_elem? (drop mid ks) 0 ≡ some sep)
middle mid [] h = absurd (omega arith)
middle zero (k ∷ ks) h = (k, refl)
middle (suc mid) (k ∷ ks) h = middle mid ks (omega arith)

AreAbove-middle :
    (k sep : Bytes) (mid : ℕ) (ks : List Bytes)
    → AreAbove k ks
    → get_elem? (drop mid ks) 0 ≡ some sep
    → lex k sep ≡ Ordering.lt
AreAbove-middle k sep zero [] a e = cc
AreAbove-middle k sep (suc mid) [] a e = cc
AreAbove-middle k sep zero (x ∷ ks) a e = ground (arith, a.0, e)
AreAbove-middle k sep (suc mid) (x ∷ ks) a e = AreAbove-middle k sep mid ks a.1 e

Within-AreAbove :
    (sep : Bytes) (lo hi : Option Bytes) (ks : List Bytes)
    → AreAbove sep ks
    → Within lo hi ks
    → Within (some sep) hi ks
Within-AreAbove sep lo hi [] a w = tt
Within-AreAbove sep lo hi (k ∷ ks) a w =
    (ground (arith, a.0, lex_symm k sep), w.1, Within-AreAbove sep lo hi ks a.1 w.2)

pub Within-halves :
    (lo hi : Option Bytes) (sep : Bytes) (mid : ℕ) (ks : List Bytes)
    → IsSorted ks
    → Within lo hi ks
    → get_elem? (drop mid ks) 0 ≡ some sep
    → Within lo (some sep) (take mid ks)
      × Within (some sep) hi (drop mid ks)
      × (at_least lo sep ≡ true)
      × (before hi sep ≡ true)
Within-halves lo hi sep zero [] s w e = cc
Within-halves lo hi sep (suc mid) [] s w e = cc
Within-halves lo hi sep zero (k ∷ ks) s w e =
    let k_sep : k ≡ sep = ground (arith, e) in
    (
      tt,
      (
        ground (arith, lex_refl sep, k_sep),
        w.1,
        Within-AreAbove sep lo hi ks (rw k_sep at s.0) w.2,
      ),
      ground (arith, w.0, k_sep),
      ground (arith, w.1, k_sep),
    )
Within-halves lo hi sep (suc mid) (k ∷ ks) s w e =
    let (l, r, a, b) = Within-halves lo hi sep mid ks s.1 w.2 e in
    ((w.0, ground (arith, AreAbove-middle k sep mid ks s.0 e), l), r, a, b)

-- The key between the halves is above the lower bound, if there is a left half.
pub above-middle :
    (lo hi : Option Bytes) (sep : Bytes) (mid : ℕ) (ks : List Bytes)
    → IsSorted ks
    → Within lo hi ks
    → get_elem? (drop mid ks) 0 ≡ some sep
    → 0 < mid
    → above lo sep ≡ true
above-middle lo hi sep zero ks s w e h = absurd (omega arith)
above-middle lo hi sep (suc mid) [] s w e h = cc
above-middle none hi sep (suc mid) (k ∷ ks) s w e h = refl
above-middle (some l) hi sep (suc mid) (k ∷ ks) s w e h =
    ground (
      arith,
      w.0,
      AreAbove-middle k sep mid ks s.0 e,
      lex_trans l k sep,
      lex_symm k l,
      eq_of_lex k l,
    )

AreAbove-take : (x : Bytes) (n : ℕ) (ks : List Bytes) → AreAbove x ks → AreAbove x (take n ks)
AreAbove-take x zero ks a = tt
AreAbove-take x (suc n) [] a = tt
AreAbove-take x (suc n) (k ∷ ks) a = (a.0, AreAbove-take x n ks a.1)

IsSorted-take : (n : ℕ) (ks : List Bytes) → IsSorted ks → IsSorted (take n ks)
IsSorted-take zero ks s = tt
IsSorted-take (suc n) [] s = tt
IsSorted-take (suc n) (k ∷ ks) s = (AreAbove-take k n ks s.0, IsSorted-take n ks s.1)

IsSorted-drop : (n : ℕ) (ks : List Bytes) → IsSorted ks → IsSorted (drop n ks)
IsSorted-drop zero ks s = s
IsSorted-drop (suc n) [] s = tt
IsSorted-drop (suc n) (k ∷ ks) s = IsSorted-drop n ks s.1

-- A leaf that is full, as an insertion leaves it before the split.
pub record IsFull (order : ℕ) (lo hi : Option Bytes) (next : Option ℕ) (n : Node) : Type 0 where
  pub leaf : n.is_leaf ≡ true
  pub next_leaf : n.next ≡ next
  pub parallel : AreParallel n.keys n.values
  pub sorted : IsSorted n.keys
  pub full : length n.keys ≡ order
  pub within : Within lo hi n.keys
  pub order_low : 3 ≤ order

module _ {order : ℕ} {lo hi : Option Bytes} {next : Option ℕ} {n : Node}
    (f : IsFull order lo hi next n) (sep : Bytes)
    (e : get_elem? (drop (length n.keys / 2) n.keys) 0 ≡ some sep) where
  pub left_half-Fits :
      (q : ℕ) (up : Option ℕ)
      → Fits order up lo (some sep) (some q) (left_half (length n.keys / 2) q up n)
  left_half-Fits q up = record {
    leaf = f.leaf;
    parent = refl;
    next_leaf = refl;
    good = record {
      parallel = omega (
        arith,
        f.parallel,
        length-take (length n.keys / 2) n.keys,
        length-take (length n.keys / 2) n.values,
      );
      sorted = IsSorted-take (length n.keys / 2) n.keys f.sorted;
      small = omega (arith, f.full, f.order_low, length-take (length n.keys / 2) n.keys);
    };
    within = (Within-halves lo hi sep (length n.keys / 2) n.keys f.sorted f.within e).0;
  }

  pub right_half-Fits :
      (up : Option ℕ) → Fits order up (some sep) hi next (right_half (length n.keys / 2) up n)
  right_half-Fits up = record {
    leaf = refl;
    parent = refl;
    next_leaf = f.next_leaf;
    good = record {
      parallel = omega (
        arith,
        f.parallel,
        length-drop (length n.keys / 2) n.keys,
        length-drop (length n.keys / 2) n.values,
      );
      sorted = IsSorted-drop (length n.keys / 2) n.keys f.sorted;
      small = omega (arith, f.full, f.order_low, length-drop (length n.keys / 2) n.keys);
    };
    within = (Within-halves lo hi sep (length n.keys / 2) n.keys f.sorted f.within e).1;
  }

  pub excess-halves :
      (q : ℕ) (up : Option ℕ)
      → (excess order (left_half (length n.keys / 2) q up n) ≡ 0)
        × (excess order (right_half (length n.keys / 2) up n) ≡ 0)
  excess-halves q up = (
    omega (arith, f.full, f.order_low, length-take (length n.keys / 2) n.keys),
    omega (arith, f.full, f.order_low, length-drop (length n.keys / 2) n.keys),
  )

  pub entries-halves :
      (q : ℕ) (up : Option ℕ) (post : Entries)
      → entries_of (left_half (length n.keys / 2) q up n)
          ++ (entries_of (right_half (length n.keys / 2) up n) ++ post)
        ≡ entries_of n ++ post
  entries-halves q up post =
      sym (
        append_assoc (entries_of (left_half (length n.keys / 2) q up n))
          (entries_of (right_half (length n.keys / 2) up n)) post)
      ∙ ap (λ x. x ++ post) (pair_up-take-drop (length n.keys / 2) n.keys n.values f.parallel)
