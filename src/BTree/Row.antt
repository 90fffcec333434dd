-- ===== src/BTree/Row.antt =====
-- The leaves of a tree as a row: their addresses from left to right, the separators between them, and
-- the entries that they hold.
use xmongodb.Common.{
  ℕ, ◌+◌, ◌-◌, ◌/◌, ◌<◌, ◌≤◌, ◌≡◌, ◌≢◌, refl, Bool, true, not, Option, none, some, List, [], ◌∷◌,
  ◌++◌, arith, length,
}
use mathlib.Core.List.{append-nil}
use xmongodb.Bytes.{Bytes, lex, is_lt}
use xmongodb.Bytes.Order.{lex_trans, lex_symm, eq_of_lex}
use xmongodb.BTree.Heap.{Node, BTree}
use xmongodb.BTree.Leaf.{past_end}
use xmongodb.BTree.Valid.{IsLeafNode}
use xmongodb.BTree.Chain.{Entries, pair_up, KeysAbove}
use xmongodb.BTree.Sorted.{KeysBelow}

-- The bounds of a leaf: `none` is no bound. Its keys are at least the lower one and below the upper one.
abbrev pub at_least : Option Bytes → Bytes → Bool
at_least none k = true
at_least (some l) k = not (is_lt (lex k l))

abbrev pub above : Option Bytes → Bytes → Bool
above none k = true
above (some l) k = is_lt (lex l k)

abbrev pub before : Option Bytes → Bytes → Bool
before hi k = not (past_end hi k)

abbrev pub Within : Option Bytes → Option Bytes → List Bytes → Type 0
Within lo hi [] = Unit
Within lo hi (k ∷ ks) = (at_least lo k ≡ true) × (before hi k ≡ true) × Within lo hi ks

abbrev pub AllOther : ℕ → List ℕ → Type 0
AllOther p [] = Unit
AllOther p (q ∷ qs) = (p ≢ q) × AllOther p qs

abbrev pub entries_of : Node → Entries
entries_of n = pair_up n.keys n.values

-- How many keys a leaf of a tree of this order has more than a leaf that a split makes.
abbrev pub excess : ℕ → Node → ℕ
excess order n = length n.keys - (order - order / 2)

pub record IsLeafAt (order : ℕ) (t : BTree) (up : Option ℕ) (lo hi : Option Bytes) (next : Option ℕ)
    (p : ℕ) (n : Node) : Type 0 where
  pub live : t.cell p ≡ some n
  pub old : p < t.fresh
  pub leaf : n.is_leaf ≡ true
  pub parent : n.parent ≡ up
  pub next_leaf : n.next ≡ next
  pub good : IsLeafNode order n
  pub within : Within lo hi n.keys

-- A row of leaves below `up`, all at least `lo`. The last index is what splits and excess keys count.
pub data Row (order : ℕ) (t : BTree) (up : Option ℕ)
    : Option Bytes → List Bytes → List ℕ → Entries → ℕ → Type 0 where
  last :
      {lo : Option Bytes} {p : ℕ} {n : Node}
      → IsLeafAt order t up lo none none p n
      → Row order t up lo [] (p ∷ []) (entries_of n) (excess order n)
  more :
      {lo : Option Bytes} {s : Bytes} {seps : List Bytes} {p q : ℕ} {ps : List ℕ} {n : Node}
      {es : Entries} {w : ℕ}
      → IsLeafAt order t up lo (some s) (some q) p n
      → at_least lo s ≡ true
      → AllOther p (q ∷ ps)
      → Row order t up (some s) seps (q ∷ ps) es w
      → Row order t up lo
          (s ∷ seps)
          (p ∷ q ∷ ps)
          (entries_of n ++ es)
          (order / 2 + excess order n + w)

-- `t'` has the leaves of `t`, except the one at `p`.
pub record Keeps (t t' : BTree) (p : ℕ) : Type 0 where
  pub grows : t.fresh ≤ t'.fresh
  pub same :
      (j : ℕ) (n : Node)
      → t.cell j ≡ some n
      → n.is_leaf ≡ true
      → j < t.fresh
      → p ≢ j
      → t'.cell j ≡ some n

module _ {order : ℕ} {t t' : BTree} {up : Option ℕ} {p : ℕ} (k : Keeps t t' p) where
  pub kept :
      {lo hi : Option Bytes} {next : Option ℕ} {j : ℕ} {n : Node}
      → p ≢ j
      → IsLeafAt order t up lo hi next j n
      → IsLeafAt order t' up lo hi next j n
  kept {j} {n} ne l = record {
    live = k.same j n l.live l.leaf l.old ne;
    old = omega (arith, l.old, k.grows);
    leaf = l.leaf;
    parent = l.parent;
    next_leaf = l.next_leaf;
    good = l.good;
    within = l.within;
  }

  pub Row-Keeps :
      {lo : Option Bytes} {seps : List Bytes} {ps : List ℕ} {es : Entries} {w : ℕ}
      → AllOther p ps
      → Row order t up lo seps ps es w
      → Row order t' up lo seps ps es w
  Row-Keeps ne (last l) = last (kept ne.0 l)
  Row-Keeps ne (more l low other r) = more (kept ne.0 l) low other (Row-Keeps ne.1 r)

at_least_trans :
    (lo : Option Bytes) (s k : Bytes)
    → at_least lo s ≡ true
    → at_least (some s) k ≡ true
    → at_least lo k ≡ true
at_least_trans none s k h g = refl
at_least_trans (some l) s k h g =
    ground (arith, lex_trans k l s, lex_symm k s, lex_symm l s, eq_of_lex s l)

-- Entries within bounds.
abbrev pub EntriesFrom : Option Bytes → Entries → Type 0
EntriesFrom lo [] = Unit
EntriesFrom lo ((k, v) ∷ es) = (at_least lo k ≡ true) × EntriesFrom lo es

EntriesFrom-pair_up :
    (lo hi : Option Bytes) (ks vs : List Bytes) (es : Entries)
    → Within lo hi ks
    → EntriesFrom lo es
    → EntriesFrom lo (pair_up ks vs ++ es)
EntriesFrom-pair_up lo hi [] vs es h g = g
EntriesFrom-pair_up lo hi (k ∷ ks) [] es h g = g
EntriesFrom-pair_up lo hi (k ∷ ks) (v ∷ vs) es h g = (h.0, EntriesFrom-pair_up lo hi ks vs es h.2 g)

EntriesFrom-lower :
    (lo : Option Bytes) (s : Bytes) (es : Entries)
    → at_least lo s ≡ true
    → EntriesFrom (some s) es
    → EntriesFrom lo es
EntriesFrom-lower lo s [] h g = tt
EntriesFrom-lower lo s ((k, v) ∷ es) h g =
    (at_least_trans lo s k h g.0, EntriesFrom-lower lo s es h g.1)

pub Row-EntriesFrom :
    {order : ℕ} {t : BTree} {up : Option ℕ} {lo : Option Bytes} {seps : List Bytes} {ps : List ℕ}
    {es : Entries} {w : ℕ}
    → Row order t up lo seps ps es w
    → EntriesFrom lo es
Row-EntriesFrom {lo} (last {n} l) =
    rw append-nil at (EntriesFrom-pair_up lo none n.keys n.values [] l.within tt)
Row-EntriesFrom {lo} (more {s} {n} {es} l low other r) =
    EntriesFrom-pair_up lo (some s) n.keys n.values es l.within
      (EntriesFrom-lower lo s es low (Row-EntriesFrom r))

-- Keys before a bound that `key` has reached are below `key`; keys from a bound that it has not are above.
pub KeysBelow-Within :
    (key : Bytes) (lo : Option Bytes) (s : Bytes) (ks vs : List Bytes) (es : Entries)
    → at_least (some s) key ≡ true
    → Within lo (some s) ks
    → KeysBelow key es
    → KeysBelow key (pair_up ks vs ++ es)
KeysBelow-Within key lo s [] vs es h g b = b
KeysBelow-Within key lo s (k ∷ ks) [] es h g b = b
KeysBelow-Within key lo s (k ∷ ks) (v ∷ vs) es h g b = (
  ground (arith, g.1, lex_trans k s key, lex_symm key s, eq_of_lex key s),
  KeysBelow-Within key lo s ks vs es h g.2 b,
)

pub KeysAbove-EntriesFrom :
    (key s : Bytes) (es : Entries)
    → is_lt (lex key s) ≡ true
    → EntriesFrom (some s) es
    → KeysAbove key es
KeysAbove-EntriesFrom key s [] h g = tt
KeysAbove-EntriesFrom key s ((k, v) ∷ es) h g = (
  ground (arith, g.0, lex_trans key s k, lex_symm k s, eq_of_lex k s),
  KeysAbove-EntriesFrom key s es h g.1,
)
