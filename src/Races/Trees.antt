-- ===== src/Races/Trees.antt =====
-- A tree of one level or two and a counter that goroutines share.
use xmongodb.Common.{
  ℕ, ◌+◌, ◌*◌, ◌-◌, ◌%◌, ◌^◌, ◌≤◌, ◌≡◌, ◌≢◌, ap, ◌∙◌, none, some, [], ◌∷◌, arith, refl, ok, length,
}
use xmongodb.Common.Int.{ℤ, pos, negsuc, sub_ℕ}
use xmongodb.Common.Word.{add_int64, int64}
use xmongodb.Bytes.{Bytes}
use xmongodb.BTree
use xmongodb.BTree.Heap.{BTree}
use xmongodb.BTree.Chain.{Entries}
use xmongodb.BTree.Sorted.{insert_in, lookup_in, delete_in, delete_in-missing}
use xmongodb.BTree.Shallow.{Shallow}
use xmongodb.BTree.Steps.{After}
use xmongodb.BTree.Inserts.{insert-After}
use xmongodb.BTree.Deletes.{delete-After, delete_answer}
use xmongodb.BTree.Refines.{Shallow-room, new_btree-Shallow}
use xmongodb.Races.{Tally, tally, none_yet, ◌⊕◌}

-- `c - u` as an int64, which wraps round.
abbrev pub net : ℕ → ℕ → ℤ
net c u = int64 ((c + (2 ^ 64 - u % 2 ^ 64)) % 2 ^ 64)

net_up : (c c' u : ℕ) → c' ≡ c + 1 → add_int64 (net c u) (pos 1) ≡ net c' u
unfolding add_int64
net_up c c' u h = ground arith

net_down : (c u u' : ℕ) → u' ≡ u + 1 → add_int64 (net c u) (negsuc 0) ≡ net c u'
unfolding add_int64
net_down c u u' h = ground arith

pub net_small : (c u i d : ℕ) → c ≡ i → u ≡ d → i ≤ 64 * 127 → d ≤ 64 * 127 → net c u ≡ sub_ℕ i d
net_small c u i d e f h k = ground arith

-- The tree and the counter after what the goroutines have done.
pub record Shared (t : Tally) (tree : BTree) (counter : ℤ) : Type 0 where
  pub entries : Entries
  pub weight : ℕ
  pub seps : ℕ
  pub order : tree.order ≡ 128
  pub shallow : Shallow tree entries weight seps
  pub light : weight ≤ t.written
  pub few : length entries + t.removed ≤ t.entered
  pub count : counter ≡ net t.counted t.uncounted

pub new-Shared : Shared none_yet (BTree.new_btree 128) (pos 0)
new-Shared = record {
  entries = [];
  weight = 0;
  seps = 0;
  order = unfold BTree.new_btree in refl;
  shallow = new_btree-Shallow 128;
  light = omega arith;
  few = omega arith;
  count = refl;
}

length-insert_in-le : (key v : Bytes) (es : Entries) → length (insert_in key v es) ≤ length es + 1
length-insert_in-le key v [] = omega arith
length-insert_in-le key v ((k, w) ∷ es) = ground (arith, length-insert_in-le key v es)

length-delete_in :
    (key old : Bytes) (es : Entries)
    → lookup_in key es ≡ some old
    → length (delete_in key es) + 1 ≡ length es
length-delete_in key old [] h = cc
length-delete_in key old ((k, w) ∷ es) h = ground (arith, length-delete_in key old es)

module _ {tree : BTree} {counter : ℤ} where
  -- The tree stays, and no key is entered or removed.
  pub stays :
      (t t' : Tally) (z : ℤ)
      → Shared t tree counter
      → t.written ≤ t'.written
      → t'.entered ≡ t.entered
      → t'.removed ≡ t.removed
      → z ≡ net t'.counted t'.uncounted
      → Shared t' tree z
  stays t t' z s more entered removed count = record {
    entries = s.entries;
    weight = s.weight;
    seps = s.seps;
    order = s.order;
    shallow = s.shallow;
    light = omega (arith, s.light, more);
    few = omega (arith, s.few, entered, removed);
    count = count;
  }

  -- A write is given up.
  pub gives_up :
      (rest : Tally)
      → Shared (rest ⊕ none_yet) tree counter
      → Shared (rest ⊕ tally 1 0 0 0 0) tree counter
  gives_up rest s = stays _ _ counter s (omega arith) refl refl s.count

  -- One more, behind a key that was entered.
  pub counts :
      (rest : Tally)
      → Shared (rest ⊕ tally 1 1 0 0 0) tree counter
      → Shared (rest ⊕ tally 1 1 0 1 0) tree (add_int64 counter (pos 1))
  counts rest s =
      stays _ _ _ s (omega arith) refl refl
        (ap (λ z. add_int64 z (pos 1)) s.count ∙ net_up _ _ _ (omega arith))

  -- One less, behind a key that was removed.
  pub uncounts :
      (rest : Tally)
      → Shared (rest ⊕ tally 1 0 1 0 0) tree counter
      → Shared (rest ⊕ tally 1 0 1 0 1) tree (add_int64 counter (negsuc 0))
  uncounts rest s =
      stays _ _ _ s (omega arith) refl refl
        (ap (λ z. add_int64 z (negsuc 0)) s.count ∙ net_down _ _ _ (omega arith))

  module _ (rest : Tally) (s : Shared (rest ⊕ none_yet) tree counter) (key : Bytes)
      (ne : key ≢ []) where
    -- A key is entered.
    pub enters :
        (v : Bytes)
        → rest.written + 1 ≤ 64 * 127
        → After tree s.weight (BTree.insert tree key v) (ok tt) (insert_in key v s.entries)
    enters v room = insert-After key v s.shallow ne (omega (arith, s.order)) (
        Shallow-room s.shallow (omega (arith, s.order)) (rw s.order (omega (arith, s.light, room))))

    pub enters-Shared :
        (v : Bytes) (room : rest.written + 1 ≤ 64 * 127)
        → Shared (rest ⊕ tally 1 1 0 0 0) (enters v room).tree counter
    enters-Shared v room =
        let a = enters v room in
        record {
          entries = insert_in key v s.entries;
          weight = a.weight;
          seps = a.seps;
          order = a.order ∙ s.order;
          shallow = a.shallow;
          light = omega (arith, a.light, s.light);
          few = omega (arith, length-insert_in-le key v s.entries, s.few);
          count = s.count;
        }

    -- A key is deleted, and was there or not.
    pub deletes :
        After tree s.weight
          (BTree.delete tree key)
          (delete_answer (lookup_in key s.entries))
          (delete_in key s.entries)
    deletes = delete-After key s.shallow ne

    pub deletes-Shared_missing :
        lookup_in key s.entries ≡ none → Shared (rest ⊕ tally 1 0 0 0 0) deletes.tree counter
    deletes-Shared_missing absent =
        let a = deletes in
        record {
          entries = delete_in key s.entries;
          weight = a.weight;
          seps = a.seps;
          order = a.order ∙ s.order;
          shallow = a.shallow;
          light = omega (arith, a.light, s.light);
          few = rw (delete_in-missing key s.entries absent) s.few;
          count = s.count;
        }

    pub deletes-Shared :
        (old : Bytes)
        → lookup_in key s.entries ≡ some old
        → Shared (rest ⊕ tally 1 0 1 0 0) deletes.tree counter
    deletes-Shared old e =
        let a = deletes in
        record {
          entries = delete_in key s.entries;
          weight = a.weight;
          seps = a.seps;
          order = a.order ∙ s.order;
          shallow = a.shallow;
          light = omega (arith, a.light, s.light);
          few = omega (arith, length-delete_in key old s.entries e, s.few);
          count = s.count;
        }
