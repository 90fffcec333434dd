-- ===== src/Commands/There.antt =====
-- Which directories there are when `InitializeDatabase` has returned.
use mathlib.Core.Path.{subst}
use xmongodb.Common.{
  ◌≡◌, refl, sym, ap, ◌∙◌, true, List, [], ◌∷◌, ◌++◌, Result, ok, err, ◌⊎◌, inl, inr,
}
use xmongodb.Bytes.{Bytes}
use xmongodb.Os
use xmongodb.Os.{Os, Failure}
use xmongodb.Config.{Config}
use xmongodb.Commands.{InitError, initialize_database}
use xmongodb.Commands.Directories.{
  Made, all_made, one_made, Stopped, fails, goes_on, wanted, initialize_database-Does,
}

module _ {F : Type 0} (os : Os F) (files : Os.IsLawful os) where
  abbrev pub AllThere : List Bytes → F → Type 0
  AllThere [] f = Unit
  AllThere (d ∷ ds) f = (files.is_dir d f ≡ true) × AllThere ds f

  Made-kept :
      {ds : List Bytes} {f f' : F} (q : Bytes)
      → Made os ds f f'
      → files.is_dir q f ≡ true
      → files.is_dir q f' ≡ true
  Made-kept q all_made h = h
  Made-kept q (one_made {d} {f} e m) h =
      Made-kept q m (ap (λ r. files.is_dir q r.1) (sym e) ∙ files.is_dir-kept d q 0o755 f h)

  Made-AllThere : {ds : List Bytes} {f f' : F} → Made os ds f f' → AllThere ds f'
  Made-AllThere all_made = tt
  Made-AllThere (one_made {d} {f} e m) = (
    Made-kept d m
        (ap (λ r. files.is_dir d r.1) (sym e) ∙ files.is_dir-mkdir_all d 0o755 f (ap (λ r. r.0) e)),
    Made-AllThere m,
  )

  -- One of the directories could not be made, and those in front of it are there.
  pub record StoppedAt (ds : List Bytes) (f' : F) : Type 0 where
    pub before : List Bytes
    pub dir : Bytes
    pub after : List Bytes
    pub failure : Failure
    pub files_then : F
    pub split : ds ≡ before ++ (dir ∷ after)
    pub there : AllThere before f'
    pub failed : os.mkdir_all dir 0o755 files_then ≡ (err failure, f')

  Stopped-kept :
      {ds : List Bytes} {f f' : F} (q : Bytes)
      → Stopped os ds f f'
      → files.is_dir q f ≡ true
      → files.is_dir q f' ≡ true
  Stopped-kept q (fails {d} {f} e) h =
      ap (λ r. files.is_dir q r.1) (sym e) ∙ files.is_dir-kept d q 0o755 f h
  Stopped-kept q (goes_on {d} {f} e s) h =
      Stopped-kept q s (ap (λ r. files.is_dir q r.1) (sym e) ∙ files.is_dir-kept d q 0o755 f h)

  Stopped-StoppedAt : {ds : List Bytes} {f f' : F} → Stopped os ds f f' → StoppedAt ds f'
  Stopped-StoppedAt (fails {d} {ds} {e} {f} h) = record {
    before = [];
    dir = d;
    after = ds;
    failure = e;
    files_then = f;
    split = refl;
    there = tt;
    failed = h;
  }
  Stopped-StoppedAt (goes_on {d} {f} h s) =
      let rest = Stopped-StoppedAt s in
      let now =
        ap (λ r. files.is_dir d r.1) (sym h) ∙ files.is_dir-mkdir_all d 0o755 f (ap (λ r. r.0) h) in
      record {
        before = d ∷ rest.before;
        dir = rest.dir;
        after = rest.after;
        failure = rest.failure;
        files_then = rest.files_then;
        split = ap (λ l. d ∷ l) rest.split;
        there = (Stopped-kept d s now, rest.there);
        failed = rest.failed;
      }

  -- With the package `os` as it documents: `InitializeDatabase` returns no error, and then the eight
  -- directories of a database are there, or it returns an error, and then one of them could not be made,
  -- those in front of it are there, and the files are as the failed call left them.
  pub initialize_database-AllThere :
      (cfg : Config) (f : F)
      → let r = initialize_database os cfg f in
        ((r.0 ≡ ok tt) × AllThere (wanted os cfg) r.2)
        ⊎ ((e : InitError) × (r.0 ≡ err e) × StoppedAt (wanted os cfg) r.2)
  initialize_database-AllThere cfg f = elim (initialize_database-Does os cfg f) [
    | inl (h, m) ↦ inl (h, Made-AllThere m)
    | inr (e, h, s) ↦ inr (e, h, Stopped-StoppedAt s)
  ]

  made_before :
      {d : Bytes} {f f1 : F} {r : Result Failure (Unit {0})}
      → os.mkdir_all d 0o755 f ≡ (r, f1)
      → files.is_dir d f ≡ true
      → (r ≡ ok tt) × (f1 ≡ f)
  made_before {d} {f} e there =
      let both = sym e ∙ files.mkdir_all-is_dir d 0o755 f there in
      (ap (λ r. r.0) both, ap (λ r. r.1) both)

  nothing_new : {ds : List Bytes} {f f' : F} → Made os ds f f' → AllThere ds f → f' ≡ f
  nothing_new all_made there = refl
  nothing_new (one_made {ds} e m) (d_there, there) =
      let same = (made_before e d_there).1 in
      nothing_new m (subst (AllThere ds) (sym same) there) ∙ same

  none_fails : {ds : List Bytes} {f f' : F} → Stopped os ds f f' → AllThere ds f → ⊥
  none_fails (fails e) (d_there, there) = let wrong = (made_before e d_there).0 in cc
  none_fails (goes_on {ds} e s) (d_there, there) =
      none_fails s (subst (AllThere ds) (sym (made_before e d_there).1) there)

  -- Where `InitializeDatabase` has succeeded, a second call succeeds too, and changes no file.
  pub initialize_database_twice :
      (cfg : Config) (f : F)
      → (initialize_database os cfg f).0 ≡ ok tt
      → let f' = (initialize_database os cfg f).2 in
        ((initialize_database os cfg f').0 ≡ ok tt) × ((initialize_database os cfg f').2 ≡ f')
  initialize_database_twice cfg f good = elim (initialize_database-Does os cfg f) [
    | inr (e, h, s) ↦ absurd cc
    | inl (h, m) ↦
        let there = Made-AllThere m in
        elim (initialize_database-Does os cfg (initialize_database os cfg f).2) [
          | inl (h', m') ↦ (h', nothing_new m' there)
          | inr (e, h', s) ↦ absurd (none_fails s there)
        ]
  ]
