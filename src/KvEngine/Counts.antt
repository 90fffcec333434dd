-- ===== src/KvEngine/Counts.antt =====
-- What a new record store does to the statistics.
use xmongodb.Common.{
  ℕ, zero, suc, ◌+◌, ◌<◌, ◌≡◌, refl, ap, ◌∙◌, Option, none, some, List, [], ◌∷◌, ◌++◌, arith,
  Result, ok, err, length, length-append, get_elem?,
}
use xmongodb.Common.Int.{ℤ, pos}
use xmongodb.Common.Word.{add_int64}
use xmongodb.Bytes.{Bytes}
use xmongodb.Dict
use xmongodb.Dict.{Dict}
use xmongodb.RecordStore.{new_record_store}
use xmongodb.KvEngine.{KvEngine, KvError, store_exists, create_record_store}
use xmongodb.KvEngine.Stats.{get_stats, sum_from, add_object}

-- Every number in the map is that of an object.
abbrev pub AreObjects : ℕ → Dict ℕ → Type 0
AreObjects n [] = Unit
AreObjects n ((key, p) ∷ rest) = (p < n) × AreObjects n rest

insert-absent :
    (k : Bytes) (v : ℕ) (m : Dict ℕ)
    → Dict.lookup k m ≡ none
    → Dict.insert k v m ≡ m ++ ((k, v) ∷ [])
unfolding Dict.insert Dict.lookup
insert-absent k v [] h = refl
insert-absent k v ((j, w) ∷ m) h = ground (arith, insert-absent k v m)

-- A sum stays the same where a zero is added.
add_zero : (a b : ℤ) → add_int64 (add_int64 a b) (pos 0) ≡ add_int64 a b
unfolding add_int64
add_zero a b = ground arith

get_elem?-before :
    {A : Type 0} (xs ys : List A) (p : ℕ) → p < length xs → get_elem? (xs ++ ys) p ≡ get_elem? xs p
get_elem?-before [] ys p h = absurd (omega arith)
get_elem?-before (x ∷ xs) ys zero h = refl
get_elem?-before (x ∷ xs) ys (suc p) h = get_elem?-before xs ys p (omega arith)

get_elem?-behind :
    {A : Type 0} (xs : List A) (y : A) → get_elem? (xs ++ (y ∷ [])) (length xs) ≡ some y
get_elem?-behind [] y = refl
get_elem?-behind (x ∷ xs) y = get_elem?-behind xs y

module _ {A : Type 0} (count : A → ℤ) (objects : List A) where
  sum_from-append :
      (y : A) (key : Bytes) (m : Dict ℕ) (sum : ℤ)
      → AreObjects (length objects) m
      → sum_from count (objects ++ (y ∷ [])) (m ++ ((key, length objects) ∷ [])) sum
        ≡ add_int64 (sum_from count objects m sum) (count y)
  sum_from-append y key [] sum h = ap (add_object count sum) (get_elem?-behind objects y)
  sum_from-append y key ((k, p) ∷ m) sum h =
      ap
        (λ o.
          sum_from count (objects ++ (y ∷ [])) (m ++ ((key, length objects) ∷ []))
            (add_object count sum o))
        (get_elem?-before objects (y ∷ []) p h.0)
      ∙ sum_from-append y key m (add_object count sum (get_elem? objects p)) h.1

  add_object_zero :
      (sum : ℤ) (o : Option A)
      → add_int64 sum (pos 0) ≡ sum
      → add_int64 (add_object count sum o) (pos 0) ≡ add_object count sum o
  add_object_zero sum none h = h
  add_object_zero sum (some a) h = add_zero sum (count a)

  sum_from_zero :
      (m : Dict ℕ) (sum : ℤ)
      → add_int64 sum (pos 0) ≡ sum
      → add_int64 (sum_from count objects m sum) (pos 0) ≡ sum_from count objects m sum
  sum_from_zero [] sum h = h
  sum_from_zero ((k, p) ∷ m) sum h =
      sum_from_zero m (add_object count sum (get_elem? objects p))
        (add_object_zero sum (get_elem? objects p) h)

  -- A new object that counts nothing.
  sum_from-new :
      (y : A) (key : Bytes) (m : Dict ℕ)
      → AreObjects (length objects) m
      → count y ≡ pos 0
      → Dict.lookup key m ≡ none
      → sum_from count (objects ++ (y ∷ [])) (Dict.insert key (length objects) m) (pos 0)
        ≡ sum_from count objects m (pos 0)
  sum_from-new y key m h none_yet absent =
      ap (λ d. sum_from count (objects ++ (y ∷ [])) d (pos 0))
        (insert-absent key (length objects) m absent)
      ∙ sum_from-append y key m (pos 0) h
      ∙ ap (add_int64 (sum_from count objects m (pos 0))) none_yet
      ∙ sum_from_zero m (pos 0) (unfold add_int64 in refl)

length-insert_absent :
    (k : Bytes) (v : ℕ) (m : Dict ℕ)
    → Dict.lookup k m ≡ none
    → length (Dict.insert k v m) ≡ length m + 1
length-insert_absent k v m absent =
    omega (arith, ap length (insert-absent k v m absent), length-append m ((k, v) ∷ []))

abbrev with_new : {W : Type 0} → Bytes → KvEngine W → KvEngine W
with_new namespace e = record e {
  record_stores = Dict.insert namespace (length e.store_objects) e.record_stores;
  store_objects = e.store_objects ++ (new_record_store namespace ∷ []);
}

create_record_store-with_new :
    {W : Type 0} (e : KvEngine W) (namespace : Bytes)
    → Dict.lookup namespace e.record_stores ≡ none
    → (create_record_store namespace e).1 ≡ with_new namespace e
unfolding create_record_store
create_record_store-with_new {W} e namespace absent =
    ap (λ (r : Result KvError ℕ × KvEngine W). r.1)
      (ap
        (λ (o : Option ℕ). elim o [
          | some p ↦ (err store_exists, e)
          | none ↦ (ok (length e.store_objects), with_new namespace e)
        ])
        absent)

-- `CreateRecordStore` of a namespace that has no record store, in an engine whose record stores are all
-- objects, adds one to the number of record stores that `GetStats` tells, and changes nothing else in
-- what it tells.
pub get_stats-create_record_store :
    {W : Type 0} (e : KvEngine W) (namespace : Bytes)
    → AreObjects (length e.store_objects) e.record_stores
    → Dict.lookup namespace e.record_stores ≡ none
    → get_stats (create_record_store namespace e).1
      ≡ record (get_stats e) { record_stores = (get_stats e).record_stores + 1 }
unfolding get_stats
get_stats-create_record_store e namespace h absent =
    let fresh = new_record_store namespace in
    ap get_stats (create_record_store-with_new e namespace absent)
    ∙ rw
        (
          length-insert_absent namespace (length e.store_objects) e.record_stores absent,
          sum_from-new (λ rs. rs.num_records) e.store_objects fresh namespace e.record_stores h
              (unfold new_record_store in refl) absent,
          sum_from-new (λ rs. rs.data_size) e.store_objects fresh namespace e.record_stores h
              (unfold new_record_store in refl) absent,
        )
        refl
