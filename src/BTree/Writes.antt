-- ===== src/BTree/Writes.antt =====
-- A tree on which a client calls `Insert` and `Delete`, next to the map that the client has in mind.
use xmongodb.Common.{
  ℕ, zero, suc, ◌+◌, ◌<◌, ◌≡◌, ◌≢◌, refl, ap, ◌∙◌, true, Option, none, some, List, [], ◌∷◌, arith,
  Run, done, ◌>>=◌, length, if◌then◌else◌, inl, inr,
}
use xmongodb.Bytes.{Bytes, bytes_equal}
use xmongodb.Bytes.Order.{eq_of_bytes_equal}
use xmongodb.BTree.Heap.{Node, BTree, new_leaf_node}
use xmongodb.BTree.Find.{child_index, descend, find_leaf}
use xmongodb.BTree.Valid.{IsValid, Found}
use xmongodb.BTree.Update.{Updated, insert-Updated, delete-Updated}
use xmongodb.BTree.Replace.{LeafRoot, new_btree-IsValid, get-new_btree}
use xmongodb.BTree.{new_btree, insert, get, delete}

pub data Write : Type 0 where
  put : (key value : Bytes) → Write
  remove : (key : Bytes) → Write

abbrev pub written_key : Write → Bytes
written_key (put key value) = key
written_key (remove key) = key

-- One call, and a list of calls; the client does not read the errors.
unfoldable write : BTree → Write → Run BTree
write t (put key value) = insert t key value >>= λ r. done r.1
write t (remove key) = delete t key >>= λ r. done r.1

unfoldable write_all : BTree → List Write → Run BTree
write_all t [] = done t
write_all t (w ∷ ws) = write t w >>= λ t'. write_all t' ws

abbrev Content : Type 0
Content = Bytes → Option Bytes

-- The map after a call, and after a list of calls.
abbrev content_after : Content → Write → Content
content_after m (put key value) j = if bytes_equal key j then some value else m j
content_after m (remove key) j = if bytes_equal key j then none else m j

abbrev content_of : Content → List Write → Content
content_of m [] = m
content_of m (w ∷ ws) = content_of (content_after m w) ws

abbrev pub GiveKeys : List Write → Type 0
GiveKeys [] = Unit
GiveKeys (w ∷ ws) = (written_key w ≢ []) × GiveKeys ws

-- The tree holds the map, in a root that is a leaf with at most `bound` keys.
record Holds (order bound : ℕ) (m : Content) (t : BTree) : Type 0 where
  valid : IsValid t
  same_order : t.order ≡ order
  root : LeafRoot t bound
  same : (j : Bytes) → get t j ≡ done (m j)

pub descend-leaf :
    (t : BTree) (fuel : ℕ) (pick : List Bytes → ℕ) {p : ℕ} {n : Node}
    → t.cell p ≡ some n
    → n.is_leaf ≡ true
    → 0 < fuel
    → descend fuel t pick p ≡ done p
unfolding descend
descend-leaf t zero pick e l h = absurd (omega arith)
descend-leaf t (suc fuel) pick e l h = rw e (simp l)

root-Found :
    {bound : ℕ} {t : BTree}
    → IsValid t
    → LeafRoot t bound
    → (key : Bytes) → Found t (find_leaf t key)
unfolding find_leaf
root-Found {t} v root key = record {
  leaf = t.root;
  node = root.0;
  result = descend-leaf t t.fresh (child_index key) root.1 root.2 (omega (arith, v.root_low));
  holds = root.1;
  is_leaf = root.2;
}

-- The leaf of a key, in a tree whose root is a leaf with room.
root-room :
    {bound : ℕ} {t : BTree} (v : IsValid t) (root : LeafRoot t bound) (key : Bytes)
    → bound + 1 < t.order
    → length (root-Found v root key).node.keys + 1 < t.order
unfolding root-Found
root-room v root key h = omega (arith, root.3, h)

Holds-Updated :
    {order bound : ℕ} {m : Content} {t t' : BTree} (key : Bytes) (r : Option Bytes) (m' : Content)
    → Holds order bound m t
    → Updated t key r t'
    → ((j : Bytes) → (if bytes_equal key j then r else m j) ≡ m' j)
    → Holds order (bound + 1) m' t'
Holds-Updated {bound} key r m' h u e = record {
  valid = u.valid;
  same_order = u.order ∙ h.same_order;
  root = u.leaf_root bound h.root;
  same = λ j. ground (arith, u.gets j, h.same j, e j);
}

write-Holds :
    {order bound : ℕ} {m : Content} {t : BTree} (w : Write)
    → Holds order bound m t
    → bound + 1 < order
    → written_key w ≢ []
    → (t' : BTree) × (write t w ≡ done t') × Holds order (bound + 1) (content_after m w) t'
unfolding write root-Found
write-Holds {bound} {m} (put key value) h room ne =
    let f = root-Found h.valid h.root key in
    let (t', run, u) =
      insert-Updated h.valid key value f ne (omega (arith, h.same_order, h.root.3)) in
    (t', rw run, Holds-Updated key (some value) (content_after m (put key value)) h u (λ j. refl))
write-Holds {bound} {m} {t} (remove key) h room ne = elim (delete-Updated h.valid key ne) [
  | inl (absent, run) ↦ (
    t,
    rw run,
    record {
      valid = h.valid;
      same_order = h.same_order;
      root = (h.root.0, h.root.1, h.root.2, omega (arith, h.root.3));
      same = λ j. ground (arith, h.same j, absent, h.same key, ap (get t), eq_of_bytes_equal key j);
    },
  )
  | inr (value, t', present, run, u) ↦
      (t', rw run, Holds-Updated key none (content_after m (remove key)) h u (λ j. refl))
]

write_all-Holds :
    (ws : List Write) {order bound : ℕ} {m : Content} {t : BTree}
    → Holds order bound m t
    → bound + length ws < order
    → GiveKeys ws
    → (t' : BTree) × (write_all t ws ≡ done t')
      × ((j : Bytes) → get t' j ≡ done (content_of m ws j))
unfolding write_all
write_all-Holds [] {t} h room keys = (t, refl, h.same)
write_all-Holds (w ∷ ws) {t} h room keys =
    let (t1, first, h1) = write-Holds w h (omega arith) keys.0 in
    let (t2, rest, same) = write_all-Holds ws h1 (omega arith) keys.1 in (t2, rw first rest, same)

-- On a new tree, fewer calls of `Insert` and `Delete` than the order, on keys that are not empty,
-- neither panic nor loop, and `Get` of every key then returns what the calls, read as writes to a map,
-- leave under it.
write_all-content_of :
    (order : ℕ) (ws : List Write)
    → length ws < (new_btree order).order
    → GiveKeys ws
    → (t' : BTree) × (write_all (new_btree order) ws ≡ done t')
      × ((j : Bytes) → get t' j ≡ done (content_of (λ k. none) ws j))
write_all-content_of order ws room keys =
    let h : Holds (new_btree order).order 0 (λ k. none) (new_btree order) = record {
      valid = new_btree-IsValid order;
      same_order = refl;
      root = unfold new_btree in (new_leaf_node, refl, refl, omega arith);
      same = get-new_btree order;
    } in
    write_all-Holds ws h (omega (arith, room)) keys
