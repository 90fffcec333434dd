-- ===== src/BTree/Focus.antt =====
-- The leaf of a row to which a key leads, and the row after that leaf was replaced or split.
use xmongodb.Common.{
  ℕ, ◌+◌, ◌/◌, ◌<◌, ◌≤◌, ◌≡◌, ◌≢◌, refl, sym, ap, ◌∙◌, true, false, Option, none, some, List, [],
  ◌∷◌, ◌++◌, arith, get_elem?, insert_at, suc, Bool-cases, inl, inr,
}
use mathlib.Core.List.{append-nil, append_assoc}
use xmongodb.Bytes.{Bytes, lex, is_lt}
use xmongodb.Bytes.Order.{lex_symm}
use xmongodb.BTree.Heap.{Node, BTree}
use xmongodb.BTree.Find.{child_index, insert_index}
use xmongodb.BTree.Chain.{Entries, KeysAbove}
use xmongodb.BTree.Sorted.{KeysBelow}
use xmongodb.BTree.Row.{
  at_least, above, before, AllOther, entries_of, excess, IsLeafAt, Row, last, more, Keeps,
  Row-Keeps, kept, Row-EntriesFrom, KeysBelow-Within, KeysAbove-EntriesFrom,
}
use xmongodb.BTree.Fits.{
  Fits, placed, retyped, Row-AllOther, AllOther-get, AllOther-insert_at, above_trans,
}

pub record Focus (order : ℕ) (t : BTree) (up : Option ℕ) (lo : Option Bytes) (seps : List Bytes)
    (ps : List ℕ) (es : Entries) (w : ℕ) (key : Bytes) : Type 0 where
  pub address : ℕ
  pub node : Node
  pub low : Option Bytes
  pub high : Option Bytes
  pub next : Option ℕ
  pub pre : Entries
  pub post : Entries
  pub rest : ℕ
  pub at : get_elem? ps (child_index key seps) ≡ some address
  pub here : IsLeafAt order t up low high next address node
  pub reached : at_least low key ≡ true
  pub not_passed : before high key ≡ true
  pub entries : es ≡ pre ++ (entries_of node ++ post)
  pub weight : w ≡ rest + excess order node
  pub below : KeysBelow key pre
  pub behind : KeysAbove key post
  pub lifts : (k : Bytes) → above low k ≡ true → above lo k ≡ true
  pub place :
      (k : Bytes)
      → above low k ≡ true
      → before high k ≡ true
      → insert_index k seps ≡ child_index key seps
  -- The row after the leaf was replaced, and after it was split in two.
  pub replaced :
      (t' : BTree) (n : Node)
      → Keeps t t' address
      → t'.cell address ≡ some n
      → Fits order up low high next n
      → Row order t' up lo seps ps (pre ++ (entries_of n ++ post)) (rest + excess order n)
  pub split :
      (t' : BTree) (q : ℕ) (sep : Bytes) (l r : Node)
      → Keeps t t' address
      → t'.cell address ≡ some l
      → t'.cell q ≡ some r
      → t.fresh ≤ q
      → q < t'.fresh
      → at_least low sep ≡ true
      → before high sep ≡ true
      → Fits order up low (some sep) (some q) l
      → Fits order up (some sep) high next r
      → Row order t' up lo
          (insert_at (child_index key seps) sep seps)
          (insert_at (suc (child_index key seps)) q ps)
          (pre ++ (entries_of l ++ (entries_of r ++ post)))
          (order / 2 + rest + excess order l + excess order r)

module _ {order : ℕ} {t : BTree} {up : Option ℕ} {lo : Option Bytes} (key : Bytes)
    (h : at_least lo key ≡ true) where
  Focus-last :
      {p : ℕ} {n : Node}
      → IsLeafAt order t up lo none none p n
      → Focus order t up lo [] (p ∷ []) (entries_of n) (excess order n) key
  unfolding child_index insert_index
  Focus-last {p} {n} l = record {
    address = p;
    node = n;
    low = lo;
    high = none;
    next = none;
    pre = [];
    post = [];
    rest = 0;
    at = refl;
    here = l;
    reached = h;
    not_passed = refl;
    entries = rw append-nil;
    weight = omega arith;
    below = tt;
    behind = tt;
    lifts = λ k a. a;
    place = λ k a b. refl;
    replaced = λ t' m k e f.
        retyped (rw append-nil) (omega arith) (last (placed e (omega (arith, l.old, k.grows)) f));
    split = λ t' q sep a b k e g old new al bh fa fb. retyped (rw append-nil) (omega arith) (
        more (placed e (omega (arith, l.old, k.grows)) fa) al ((λ x. omega (arith, l.old)), tt)
          (last (placed g new fb)));
  }

  Focus-here :
      {s : Bytes} {seps : List Bytes} {p q : ℕ} {ps : List ℕ} {n : Node} {es : Entries} {w : ℕ}
      → IsLeafAt order t up lo (some s) (some q) p n
      → at_least lo s ≡ true
      → AllOther p (q ∷ ps)
      → Row order t up (some s) seps (q ∷ ps) es w
      → is_lt (lex key s) ≡ true
      → Focus order t up lo
          (s ∷ seps)
          (p ∷ q ∷ ps)
          (entries_of n ++ es)
          (order / 2 + excess order n + w)
          key
  unfolding child_index insert_index
  Focus-here {s} {seps} {p} {q} {ps} {n} {es} {w} l low other r left = record {
    address = p;
    node = n;
    low = lo;
    high = some s;
    next = some q;
    pre = [];
    post = es;
    rest = order / 2 + w;
    at = rw left;
    here = l;
    reached = h;
    not_passed = ground arith;
    entries = refl;
    weight = omega arith;
    below = tt;
    behind = KeysAbove-EntriesFrom key s es left (Row-EntriesFrom r);
    lifts = λ k a. a;
    place = λ k a b. ground arith;
    replaced = λ t' m k e f.
        retyped refl (omega arith)
          (more (placed e (omega (arith, l.old, k.grows)) f) low other (Row-Keeps k other r));
    split = λ t' x sep a b k e g old new al bh fa fb.
        let rest : Row order t' up (some s) seps (q ∷ ps) es w = Row-Keeps k other r in
        let second =
          more (placed g new fb) (ground (arith, bh, lex_symm sep s)) (Row-AllOther x old r) rest in
        rw left (
          retyped refl (omega arith) (
            more (placed e (omega (arith, l.old, k.grows)) fa) al
              ((λ y. omega (arith, l.old)), other) second));
  }

  Focus-rest :
      {s : Bytes} {seps : List Bytes} {p q : ℕ} {ps : List ℕ} {n : Node} {es : Entries} {w : ℕ}
      → IsLeafAt order t up lo (some s) (some q) p n
      → at_least lo s ≡ true
      → AllOther p (q ∷ ps)
      → Row order t up (some s) seps (q ∷ ps) es w
      → is_lt (lex key s) ≡ false
      → Focus order t up (some s) seps (q ∷ ps) es w key
      → Focus order t up lo
          (s ∷ seps)
          (p ∷ q ∷ ps)
          (entries_of n ++ es)
          (order / 2 + excess order n + w)
          key
  unfolding child_index insert_index
  Focus-rest {s} {seps} {p} {q} {ps} {n} {es} {w} l low other r right f = record {
    address = f.address;
    node = f.node;
    low = f.low;
    high = f.high;
    next = f.next;
    pre = entries_of n ++ f.pre;
    post = f.post;
    rest = order / 2 + excess order n + f.rest;
    at = rw right f.at;
    here = f.here;
    reached = f.reached;
    not_passed = f.not_passed;
    entries =
        ap (λ x. entries_of n ++ x) f.entries
        ∙ sym (append_assoc (entries_of n) f.pre (entries_of f.node ++ f.post));
    weight = omega (arith, f.weight);
    below = KeysBelow-Within key lo s n.keys n.values f.pre (ground arith) l.within f.below;
    behind = f.behind;
    lifts = λ k a. above_trans lo s k low (f.lifts k a);
    place = λ k a b. ground (arith, right, f.lifts k a, lex_symm k s, f.place k a b);
    replaced = λ t' m k e g.
        let apart : f.address ≢ p = AllOther-get (child_index key seps) (q ∷ ps) other f.at in
        retyped (sym (append_assoc (entries_of n) f.pre (entries_of m ++ f.post))) (omega arith)
          (more (kept k apart l) low other (f.replaced t' m k e g));
    split = λ t' x sep a b k e g old new al bh fa fb.
        let i = child_index key seps in
        let apart : f.address ≢ p = AllOther-get i (q ∷ ps) other f.at in
        let far : p ≢ x = λ y. omega (arith, l.old) in
        rw right (
          retyped
            (sym (append_assoc (entries_of n) f.pre (entries_of a ++ (entries_of b ++ f.post))))
            (omega arith)
            (more (kept k apart l) low (other.0, AllOther-insert_at i x ps far other.1)
              (f.split t' x sep a b k e g old new al bh fa fb)));
  }

pub focus :
    {order : ℕ} {t : BTree} {up : Option ℕ} {lo : Option Bytes} {seps : List Bytes} {ps : List ℕ}
    {es : Entries} {w : ℕ} (key : Bytes)
    → Row order t up lo seps ps es w
    → at_least lo key ≡ true
    → Focus order t up lo seps ps es w key
focus {order} {t} {up} {lo} key (last l) h = Focus-last key h l
focus {order} {t} {up} {lo} key (more {s} l low other r) h = elim (Bool-cases (is_lt (lex key s))) [
  | inl left ↦ Focus-here key h l low other r left
  | inr right ↦ Focus-rest key h l low other r right (focus key r (ground arith))
]
