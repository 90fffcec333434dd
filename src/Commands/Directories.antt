-- ===== src/Commands/Directories.antt =====
-- The directories that `InitializeDatabase` makes, one after the other.
use xmongodb.Common.{◌≡◌, refl, List, [], ◌∷◌, ◌++◌, Result, ok, err, ◌⊎◌, inl, inr}
use xmongodb.Bytes.{Bytes}
use xmongodb.RecordId.Text.{codes}
use xmongodb.Os.{Os, Failure}
use xmongodb.Config.{Config}
use xmongodb.Commands.{
  Line, default_database_ends, directory_failed, admin_failed, local_failed, config_failed,
  directories_failed, default_database_failed, Step, directories_of, and_then, made, make_all,
  create_directories, database_dir, create_default_database, initialize_database,
}

module _ {F : Type 0} (os : Os F) where
  -- `MkdirAll` succeeds for these, one after the other, and takes the files along.
  pub data Made : List Bytes → F → F → Type 0 where
    all_made : {f : F} → Made [] f f
    one_made :
        {d : Bytes} {ds : List Bytes} {f f1 f2 : F}
        → os.mkdir_all d 0o755 f ≡ (ok tt, f1)
        → Made ds f1 f2
        → Made (d ∷ ds) f f2

  -- It fails for one of them, and then no more is tried.
  pub data Stopped : List Bytes → F → F → Type 0 where
    fails :
        {d : Bytes} {ds : List Bytes} {e : Failure} {f f1 : F}
        → os.mkdir_all d 0o755 f ≡ (err e, f1)
        → Stopped (d ∷ ds) f f1
    goes_on :
        {d : Bytes} {ds : List Bytes} {f f1 f2 : F}
        → os.mkdir_all d 0o755 f ≡ (ok tt, f1)
        → Stopped ds f1 f2
        → Stopped (d ∷ ds) f f2

  abbrev pub Does : {E : Type 0} → List Bytes → F → Step E F → Type 0
  Does ds f r = ((r.0 ≡ ok tt) × Made ds f r.2) ⊎ ((e : _) × (r.0 ≡ err e) × Stopped ds f r.2)

  Made-append :
      {ds ds' : List Bytes} {f f1 f2 : F} → Made ds f f1 → Made ds' f1 f2 → Made (ds ++ ds') f f2
  Made-append all_made m = m
  Made-append (one_made h l) m = one_made h (Made-append l m)

  Stopped-append :
      {ds : List Bytes} (ds' : List Bytes) {f f1 : F} → Stopped ds f f1 → Stopped (ds ++ ds') f f1
  Stopped-append ds' (fails h) = fails h
  Stopped-append ds' (goes_on h s) = goes_on h (Stopped-append ds' s)

  Stopped-after :
      {ds ds' : List Bytes} {f f1 f2 : F}
      → Made ds f f1
      → Stopped ds' f1 f2
      → Stopped (ds ++ ds') f f2
  Stopped-after all_made s = s
  Stopped-after (one_made h l) s = goes_on h (Stopped-after l s)

  made-Does :
      {E : Type 0} (fail : Failure → E) (out : List Line) (d : Bytes) (f : F)
      → Does (d ∷ []) f (made os fail out (os.mkdir_all d 0o755 f))
  made-Does fail out d f = go (os.mkdir_all d 0o755 f) refl
    where
      go :
          (r : Result Failure (Unit {0}) × F)
          → os.mkdir_all d 0o755 f ≡ r
          → Does (d ∷ []) f (made os fail out r)
      go (ok _, f1) h = inl (refl, one_made h all_made)
      go (err e, f1) h = inr (fail e, refl, fails h)

  and_then-Does :
      {E E' : Type 0} {ds ds' : List Bytes} {f : F} (wrap : E → E') (r : Step E F)
      (next : F → Step E' F)
      → Does ds f r
      → ((f1 : F) → Does ds' f1 (next f1))
      → Does (ds ++ ds') f (and_then wrap r next)
  and_then-Does wrap (ok _, out, f1) next (inr (e, h, s)) more = absurd (cc h)
  and_then-Does wrap (err e, out, f1) next (inl (h, m)) more = absurd (cc h)
  and_then-Does wrap (ok _, out, f1) next (inl (h, m)) more = elim (more f1) [
    | inl (h', m') ↦ inl (h', Made-append m m')
    | inr (e, h', s) ↦ inr (e, h', Stopped-after m s)
  ]
  and_then-Does wrap (err e, out, f1) next (inr (e', h, s)) more =
      inr (wrap e, refl, Stopped-append _ s)

  make_all-Does : (ds : List Bytes) (f : F) → Does ds f (make_all os ds f)
  unfolding make_all
  make_all-Does [] f = inl (refl, all_made)
  make_all-Does (d ∷ ds) f =
      and_then-Does (λ e. e) _ (make_all os ds) (made-Does (directory_failed d) _ d f)
        (make_all-Does ds)

  abbrev pub databases_of : Config → List Bytes
  databases_of cfg =
      database_dir os cfg (codes "admin")
      ∷ database_dir os cfg (codes "local")
      ∷ database_dir os cfg (codes "config")
      ∷ []

  create_default_database-Does :
      (cfg : Config) (f : F) → Does (databases_of cfg) f (create_default_database os cfg f)
  unfolding create_default_database
  create_default_database-Does cfg f =
      and_then-Does (λ e. e) _ _ (made-Does admin_failed [] _ f)
        (λ f1.
          and_then-Does (λ e. e) _ _ (made-Does local_failed [] _ f1)
            (λ f2. made-Does config_failed (default_database_ends ∷ []) _ f2))

  -- The directories of a database, with those of the three databases that there always are.
  abbrev pub wanted : Config → List Bytes
  wanted cfg =
      cfg.server.data_dir
      ∷ cfg.storage.directory_for_db
      ∷ os.join cfg.server.data_dir (codes "journal")
      ∷ os.join cfg.server.data_dir (codes "logs")
      ∷ os.join cfg.server.data_dir (codes "tmp")
      ∷ os.join cfg.storage.directory_for_db (codes "admin")
      ∷ os.join cfg.storage.directory_for_db (codes "local")
      ∷ os.join cfg.storage.directory_for_db (codes "config")
      ∷ []

  pub initialize_database-Does :
      (cfg : Config) (f : F) → Does (wanted cfg) f (initialize_database os cfg f)
  unfolding initialize_database create_directories
  initialize_database-Does cfg f =
      and_then-Does directories_failed _ _ (make_all-Does (directories_of os cfg) f) (λ f1.
        and_then-Does default_database_failed _ _ (create_default_database-Does cfg f1)
          (λ f2. inl (refl, all_made)))
