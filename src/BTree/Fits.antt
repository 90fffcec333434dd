-- ===== src/BTree/Fits.antt =====
-- Leaves at their places in a row, and what a new address and a new bound leave as they are.
use xmongodb.Common.{
  ℕ, ◌<◌, ◌≤◌, ◌≡◌, ◌≢◌, refl, true, Option, none, some, List, [], ◌∷◌, arith, get_elem?, insert_at,
  zero, suc,
}
use mathlib.Core.Path.{subst}
use xmongodb.Bytes.{Bytes}
use xmongodb.Bytes.Order.{lex_trans, lex_symm, eq_of_lex}
use xmongodb.BTree.Heap.{Node, BTree}
use xmongodb.BTree.Valid.{IsLeafNode}
use xmongodb.BTree.Chain.{Entries}
use xmongodb.BTree.Row.{at_least, above, Within, AllOther, IsLeafAt, Row, last, more}

-- What a leaf must hold to stand at a place of the row.
pub record Fits (order : ℕ) (up : Option ℕ) (lo hi : Option Bytes) (next : Option ℕ) (n : Node)
    : Type 0 where
  pub leaf : n.is_leaf ≡ true
  pub parent : n.parent ≡ up
  pub next_leaf : n.next ≡ next
  pub good : IsLeafNode order n
  pub within : Within lo hi n.keys

pub placed :
    {order : ℕ} {t : BTree} {up : Option ℕ} {lo hi : Option Bytes} {next : Option ℕ} {p : ℕ}
    {n : Node}
    → t.cell p ≡ some n
    → p < t.fresh
    → Fits order up lo hi next n
    → IsLeafAt order t up lo hi next p n
placed e h f = record {
  live = e;
  old = h;
  leaf = f.leaf;
  parent = f.parent;
  next_leaf = f.next_leaf;
  good = f.good;
  within = f.within;
}

pub retyped :
    {order : ℕ} {t : BTree} {up : Option ℕ} {lo : Option Bytes} {seps : List Bytes} {ps : List ℕ}
    {es es' : Entries} {w w' : ℕ}
    → es ≡ es'
    → w ≡ w'
    → Row order t up lo seps ps es w
    → Row order t up lo seps ps es' w'
retyped {order} {t} {up} {lo} {seps} {ps} e f r =
    subst {A = Entries × ℕ} (λ x. Row order t up lo seps ps (x.0) (x.1)) (λ i. (e i, f i)) r

-- A new address is none of the row.
pub Row-AllOther :
    {order : ℕ} {t : BTree} {up : Option ℕ} {lo : Option Bytes} {seps : List Bytes} {ps : List ℕ}
    {es : Entries} {w : ℕ} (q : ℕ)
    → t.fresh ≤ q
    → Row order t up lo seps ps es w
    → AllOther q ps
Row-AllOther q h (last l) = ((λ e. omega (arith, l.old)), tt)
Row-AllOther q h (more l low other r) = ((λ e. omega (arith, l.old)), Row-AllOther q h r)

pub AllOther-get : {p c : ℕ} (i : ℕ) (qs : List ℕ) → AllOther p qs → get_elem? qs i ≡ some c → c ≢ p
AllOther-get i [] a e = cc
AllOther-get zero (q ∷ qs) a e = λ x. a.0 (ground arith)
AllOther-get (suc i) (q ∷ qs) a e = AllOther-get i qs a.1 e

pub AllOther-insert_at :
    {p : ℕ} (i x : ℕ) (qs : List ℕ) → p ≢ x → AllOther p qs → AllOther p (insert_at i x qs)
AllOther-insert_at zero x qs n a = (n, a)
AllOther-insert_at (suc i) x [] n a = (n, tt)
AllOther-insert_at (suc i) x (q ∷ qs) n a = (a.0, AllOther-insert_at i x qs n a.1)

pub above_trans :
    (lo : Option Bytes) (s k : Bytes)
    → at_least lo s ≡ true
    → above (some s) k ≡ true
    → above lo k ≡ true
above_trans none s k h g = refl
above_trans (some l) s k h g = ground (arith, lex_trans l s k, lex_symm l s, eq_of_lex s l)
