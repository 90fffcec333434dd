-- ===== src/BTree/Sizes.antt =====
-- `Size` along the chain of leaves.
use xmongodb.Common.{
  ℕ, zero, suc, ◌+◌, ◌<◌, ◌≤◌, ◌≡◌, ap, ◌∙◌, Option, some, List, ◌∷◌, arith, done, length,
  length-append,
}
use xmongodb.BTree.Heap.{Node, BTree}
use xmongodb.BTree.Find.{find_first_leaf}
use xmongodb.BTree.{size, size_from}
use xmongodb.BTree.Chain.{
  all_entries, pair_up, AllParallel, Chain, end_of_chain, link, length-pair_up,
}

size_from-length :
    {t : BTree} (fuel count : ℕ) {p : Option ℕ} {ns : List Node}
    → Chain t p ns
    → length ns < fuel
    → AllParallel ns
    → size_from fuel t p count ≡ done (count + length (all_entries ns))
unfolding size_from
size_from-length zero count c h par = absurd (omega arith)
size_from-length (suc fuel) count end_of_chain h par = ap done (omega arith)
size_from-length (suc fuel) count (link {n} {ns} e c) h par =
    let pairs : length (all_entries (n ∷ ns)) ≡ length n.keys + length (all_entries ns) = omega (
      arith,
      length-append (pair_up n.keys n.values) (all_entries ns),
      length-pair_up n.keys n.values par.0,
    ) in
    rw e
      (size_from-length fuel (count + length n.keys) c (omega arith) par.1 ∙ ap done (omega arith))

-- If `findFirstLeaf` leads to a leaf from which the chain goes through at most as many leaves as
-- there are nodes, whose lists are parallel, `Size` counts the entries of these leaves.
pub size-length :
    {t : BTree} {p : ℕ} {ns : List Node}
    → find_first_leaf t ≡ done p
    → Chain t (some p) ns
    → length ns ≤ t.fresh
    → AllParallel ns
    → size t ≡ done (length (all_entries ns))
unfolding size
size-length {t} found c h par =
    rw found (size_from-length (suc t.fresh) 0 c (omega arith) par ∙ ap done (omega arith))
