-- ===== src/BTree/Refines.antt =====
-- A tree on which a client calls `Insert` and `Delete`, next to a sorted list with the same calls.
use xmongodb.Common.{
  ℕ, ◌+◌, ◌*◌, ◌-◌, ◌/◌, ◌<◌, ◌≤◌, ◌≡◌, ◌≢◌, refl, ◌∙◌, Option, List, [], ◌∷◌, arith, Run, done,
  ◌>>=◌, Result, ok, length,
}
use mathlib.Core.Path.{subst}
use native.Mathlib.Nat.{lt_of_mul-lt-mul_right}
use xmongodb.Bytes.{Bytes}
use xmongodb.BTree.Heap.{BTree}
use xmongodb.BTree.Chain.{Entries, in_range}
use xmongodb.BTree.Sorted.{lookup_in, insert_in, delete_in}
use xmongodb.BTree.Row.{last}
use xmongodb.BTree.Shallow.{Shallow, leaf_root, get-lookup_in}
use xmongodb.BTree.Steps.{After}
use xmongodb.BTree.Inserts.{insert-After}
use xmongodb.BTree.Deletes.{delete-After, delete_answer}
use xmongodb.BTree.Trail.{Shallow-weight}
use xmongodb.BTree.Ranges.{range-Shallow, size-Shallow}
use xmongodb.BTree.Writes.{Write, put, remove, GiveKeys, written_key}
use xmongodb.BTree.{TreeError, new_btree, insert, delete, get, range, size}

abbrev pub Answers : Type 0
Answers = List (Result TreeError (Unit {0}))

-- One call on the tree, and a list of calls with their answers.
unfoldable pub call : BTree → Write → Run (Result TreeError (Unit {0}) × BTree)
call t (put key value) = insert t key value
call t (remove key) = delete t key

unfoldable pub call_all : BTree → List Write → Run (Answers × BTree)
call_all t [] = done ([], t)
call_all t (w ∷ ws) = call t w >>= λ o. call_all o.1 ws >>= λ r. done (o.0 ∷ r.0, r.1)

-- The same calls on the sorted list.
abbrev pub call_list : Entries → Write → Result TreeError (Unit {0}) × Entries
call_list es (put key value) = (ok tt, insert_in key value es)
call_list es (remove key) = (delete_answer (lookup_in key es), delete_in key es)

abbrev pub call_all_list : Entries → List Write → Answers × Entries
call_all_list es [] = ([], es)
call_all_list es (w ∷ ws) =
    let r = call_all_list (call_list es w).1 ws in ((call_list es w).0 ∷ r.0, r.1)

-- `Get`, `Range` and `Size` of the tree are those of the sorted list.
pub record ShowsList (t : BTree) (es : Entries) : Type 0 where
  pub gets : (key : Bytes) → key ≢ [] → get t key ≡ done (lookup_in key es)
  pub ranges :
      (start : Bytes) (end : Option Bytes) → range t start end ≡ done (in_range start end es)
  pub counts : size t ≡ done (length es)

pub Shallow-ShowsList : {t : BTree} {es : Entries} {w k : ℕ} → Shallow t es w k → ShowsList t es
Shallow-ShowsList s = record {
  gets = λ key ne. get-lookup_in s key ne;
  ranges = λ start end. range-Shallow s start end;
  counts = size-Shallow s;
}

-- A row of separators that calls have paid for, while there are few calls, leaves room for one more.
pub Shallow-room :
    {t : BTree} {es : Entries} {w k : ℕ}
    → Shallow t es w k
    → 3 ≤ t.order
    → w < (t.order / 2) * (t.order - 1)
    → k + 1 < t.order
Shallow-room {t} {k} s low few =
    let half : k * (t.order / 2) < (t.order - 1) * (t.order / 2) =
      omega (arith, Shallow-weight s, few) in
    let below : k < t.order - 1 = lt_of_mul-lt-mul_right (t.order / 2) half in
    omega (arith, below, low)

pub new_btree-Shallow : (order : ℕ) → Shallow (new_btree order) [] 0 0
unfolding new_btree
new_btree-Shallow order =
    subst {A = ℕ} (λ w. Shallow (new_btree order) [] w 0) (omega arith)
      (leaf_root (
        last (record {
          live = refl;
          old = omega arith;
          leaf = refl;
          parent = refl;
          next_leaf = refl;
          good = record { parallel = refl; sorted = tt; small = ground arith };
          within = tt;
        })))

pub new_btree-order_low : (order : ℕ) → 3 ≤ (new_btree order).order
unfolding new_btree
new_btree-order_low order = ground arith

call-After :
    {t : BTree} {es : Entries} {w k : ℕ} (c : Write)
    → Shallow t es w k
    → written_key c ≢ []
    → 3 ≤ t.order
    → k + 1 < t.order
    → After t w (call t c) (call_list es c).0 (call_list es c).1
unfolding call
call-After (put key value) s ne low room = insert-After key value s ne low room
call-After (remove key) s ne low room = delete-After key s ne

-- The tree after calls.
pub record Built (t : BTree) (ws : List Write) (es : Entries) : Type 0 where
  pub tree : BTree
  pub weight : ℕ
  pub seps : ℕ
  pub run : call_all t ws ≡ done ((call_all_list es ws).0, tree)
  pub shallow : Shallow tree (call_all_list es ws).1 weight seps

call_all-Shallow :
    (ws : List Write) {order bound w k : ℕ} {t : BTree} {es : Entries}
    → Shallow t es w k
    → t.order ≡ order
    → 3 ≤ order
    → w ≤ bound
    → bound + length ws < (order / 2) * (order - 1)
    → GiveKeys ws
    → Built t ws es
unfolding call_all
call_all-Shallow [] {w} {k} {t} s o low h few keys = record {
  tree = t;
  weight = w;
  seps = k;
  run = refl;
  shallow = s;
}
call_all-Shallow (c ∷ ws) {order} {bound} {t} {es} s o low h few keys =
    let room = Shallow-room s (rw o low) (rw o (omega (arith, few, h))) in
    let a : After t _ (call t c) (call_list es c).0 (call_list es c).1 =
      call-After c s keys.0 (rw o low) room in
    let rest : Built a.tree ws (call_list es c).1 =
      call_all-Shallow ws {bound = bound + 1} a.shallow (a.order ∙ o) low
        (omega (arith, a.light, h)) (omega (arith, few)) keys.1 in
    record {
      tree = rest.tree;
      weight = rest.weight;
      seps = rest.seps;
      run = rw (a.run, rest.run) refl;
      shallow = rest.shallow;
    }

pub few_calls-Built :
    (order : ℕ) (ws : List Write)
    → length ws < ((new_btree order).order / 2) * ((new_btree order).order - 1)
    → GiveKeys ws
    → Built (new_btree order) ws []
few_calls-Built order ws few keys =
    call_all-Shallow ws {bound = 0} (new_btree-Shallow order) refl (new_btree-order_low order)
      (omega arith) (omega (arith, few)) keys

-- On a new tree of order `o`, fewer than `(o / 2) * (o - 1)` calls of `Insert` and `Delete`, on keys that
-- are not empty, neither panic nor loop, though they split leaves: each answers as on a sorted list, and
-- afterwards `Get` of every key that is not empty, `Range` between all bounds and `Size` are those of the list.
pub call_all-ShowsList :
    (order : ℕ) (ws : List Write)
    → length ws < ((new_btree order).order / 2) * ((new_btree order).order - 1)
    → GiveKeys ws
    → (t : BTree) × (call_all (new_btree order) ws ≡ done ((call_all_list [] ws).0, t))
      × ShowsList t (call_all_list [] ws).1
call_all-ShowsList order ws few keys =
    let b = few_calls-Built order ws few keys in (b.tree, b.run, Shallow-ShowsList b.shallow)
