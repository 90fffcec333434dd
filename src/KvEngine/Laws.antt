-- ===== src/KvEngine/Laws.antt =====
-- What the engine keeps: the limit on sessions, and the maps of stores and indexes.
use xmongodb.Common.{
  ℕ, ◌≡◌, refl, sym, ap, ◌∙◌, ◌⊎◌, inl, inr, Bool-cases, true, false, [], ◌∷◌, ◌++◌, arith, ok, err,
  length, length-append, take-append, if◌then◌else◌,
}
use xmongodb.Common.Int.{pos, ◌≤ℤ◌}
use xmongodb.Bytes.{Bytes, bytes_equal, lex}
use xmongodb.Bytes.Order.{bytes_equal_refl}
use xmongodb.Dict
use xmongodb.Dict.{lookup-insert, lookup-remove_if, length-insert}
use xmongodb.RecordStore.{new_record_store}
use xmongodb.Session
use xmongodb.Session.{Session}
use xmongodb.KvEngine.{
  KvEngine, store_missing, store_exists, index_missing, make_index_key, has_namespace,
  create_session, get_record_store, create_record_store, drop_record_store, get_sorted_data,
}

-- The key begins with the bytes of the namespace and goes on.
abbrev pub GoesOn : (namespace key : Bytes) → Type 0
GoesOn namespace key = (b : ℕ) × (rest : Bytes) × (key ≡ namespace ++ (b ∷ rest))

has_namespace-append :
    (namespace : Bytes) (b : ℕ) (rest : Bytes)
    → has_namespace namespace (namespace ++ (b ∷ rest)) ≡ true
has_namespace-append namespace b rest =
    rw (take-append namespace (b ∷ rest))
      (ground (arith, length-append namespace (b ∷ rest), bytes_equal_refl namespace))

has_namespace-cons :
    (x y : ℕ) (namespace key : Bytes)
    → has_namespace (x ∷ namespace) (y ∷ key) ≡ true
    → (x ≡ y) × (has_namespace namespace key ≡ true)
unfolding lex
has_namespace-cons x y namespace key h = ground arith

-- A key that passes the test of `DropRecordStore` goes on behind the namespace.
has_namespace-GoesOn :
    (namespace key : Bytes) → has_namespace namespace key ≡ true → GoesOn namespace key
has_namespace-GoesOn [] [] h = cc
has_namespace-GoesOn [] (b ∷ rest) h = (b, rest, refl)
has_namespace-GoesOn (x ∷ namespace) [] h = absurd (ground arith)
has_namespace-GoesOn (x ∷ namespace) (y ∷ key) h =
    let (same, front) = has_namespace-cons x y namespace key h in
    let (b, rest, e) = has_namespace-GoesOn namespace key front in (b, rest, cc)

missed_GoesOn :
    (namespace key : Bytes) → has_namespace namespace key ≡ false → ¬ GoesOn namespace key
missed_GoesOn namespace key h (b, rest, e) =
    ground (arith, sym h ∙ ap (has_namespace namespace) e ∙ has_namespace-append namespace b rest)

module _ {W : Type 0} where
  -- If the number of sessions is within the configured limit, it is so after `CreateSession`,
  -- whatever the identifier and whether it succeeds.
  pub create_session_bound :
      (uuid : Bytes) (now : ℕ) (e : KvEngine W)
      → pos (length e.sessions) ≤ℤ e.config.max_sessions
      → pos (length (create_session uuid now e).1.sessions) ≤ℤ e.config.max_sessions
  unfolding create_session Session.begin Session.new_engine_session
  create_session_bound uuid now e h =
      ground (arith, length-insert uuid (length e.session_objects) e.sessions)

  -- `CreateRecordStore` of a new namespace makes a store that `GetRecordStore` then returns, and leaves
  -- every other namespace as it was.
  pub create_record_store_lem :
      (namespace : Bytes) (e : KvEngine W)
      → get_record_store namespace e ≡ err store_missing
      → (e' : KvEngine W) × (p : ℕ) × (create_record_store namespace e ≡ (ok p, e'))
        × ((other : Bytes)
            → get_record_store other e'
              ≡ (if bytes_equal namespace other then ok p else get_record_store other e))
  unfolding get_record_store create_record_store
  create_record_store_lem namespace e h = (
    record e {
      record_stores = Dict.insert namespace (length e.store_objects) e.record_stores;
      store_objects = e.store_objects ++ (new_record_store namespace ∷ []);
    },
    length e.store_objects,
    ground arith,
    λ other. ground (arith, lookup-insert namespace other (length e.store_objects) e.record_stores),
  )

  -- Of a namespace that is there, `CreateRecordStore` fails, and changes nothing.
  pub create_record_store_exists :
      (namespace : Bytes) (e : KvEngine W) (p : ℕ)
      → get_record_store namespace e ≡ ok p
      → create_record_store namespace e ≡ (err store_exists, e)
  unfolding get_record_store create_record_store
  create_record_store_exists namespace e p h = ground arith

  get_sorted_data_after :
      (namespace other name : Bytes) (e e' : KvEngine W)
      → e'.indexes ≡ Dict.remove_if (has_namespace namespace) e.indexes
      → (GoesOn namespace (make_index_key other name)
          × (get_sorted_data other name e' ≡ err index_missing))
        ⊎ ((¬ GoesOn namespace (make_index_key other name))
            × (get_sorted_data other name e' ≡ get_sorted_data other name e))
  unfolding get_sorted_data
  get_sorted_data_after namespace other name e e' same =
      let key = make_index_key other name in
      let kept = lookup-remove_if (has_namespace namespace) key e.indexes in
      elim (Bool-cases (has_namespace namespace key)) [
        | inl on ↦ inl (has_namespace-GoesOn namespace key on, ground (arith, same, kept, on))
        | inr off ↦ inr (missed_GoesOn namespace key off, ground (arith, same, kept, off))
      ]

  -- `DropRecordStore` of a namespace that is there removes its store alone among the stores, and
  -- of the indexes those whose key begins with the bytes of the namespace and goes on, and no other:
  -- afterwards `GetSortedDataInterface` misses each index whose namespace, a dot and its name make such
  -- a key, and answers as before for all others.
  pub drop_record_store_lem :
      (namespace : Bytes) (e : KvEngine W) (p : ℕ)
      → get_record_store namespace e ≡ ok p
      → (e' : KvEngine W) × (drop_record_store namespace e ≡ (ok tt, e'))
        × ((other : Bytes)
            → get_record_store other e' ≡ (
                if bytes_equal namespace other
                then err store_missing
                else get_record_store other e))
        × ((other name : Bytes)
            → (GoesOn namespace (other ++ (b'.' ∷ name))
                × (get_sorted_data other name e' ≡ err index_missing))
              ⊎ ((¬ GoesOn namespace (other ++ (b'.' ∷ name)))
                  × (get_sorted_data other name e' ≡ get_sorted_data other name e)))
  unfolding get_record_store drop_record_store make_index_key
  drop_record_store_lem namespace e p h = (
    record e {
      record_stores = Dict.remove namespace e.record_stores;
      indexes = Dict.remove_if (has_namespace namespace) e.indexes;
    },
    ground arith,
    λ other. ground (arith, lookup-remove_if (bytes_equal namespace) other e.record_stores),
    λ other name.
        get_sorted_data_after namespace other name e
          (record e {
            record_stores = Dict.remove namespace e.record_stores;
            indexes = Dict.remove_if (has_namespace namespace) e.indexes;
          })
          refl,
  )
