-- ===== src/Commands.antt =====
-- cmd/init.go: the directories of a new database. What it prints is the list of the lines, by what they
-- say.
pub mod Directories
pub mod There
pub mod Main
pub mod Runs
mod Tests
use xmongodb.Common.{List, [], ◌∷◌, ◌++◌, Result, ok, err}
use xmongodb.Bytes.{Bytes}
use xmongodb.RecordId.Text.{codes}
use xmongodb.Os.{Os, Failure}
use xmongodb.Config.{Config}

pub data Line : Type 0 where
  initialize_begins initialize_ends : Line
  directory_made : Bytes → Line
  storage_initialized : (engine : Bytes) → Line
  default_database_begins default_database_ends : Line

-- The errors of the parts, wrapped as the messages do; `directory_failed` names the directory.
pub data DirectoryError : Type 0 where
  directory_failed : Bytes → Failure → DirectoryError

pub data DatabaseError : Type 0 where
  admin_failed local_failed config_failed : Failure → DatabaseError

pub data InitError : Type 0 where
  directories_failed : DirectoryError → InitError
  default_database_failed : DatabaseError → InitError

-- The answer of a part, the lines it prints, and the files after it.
abbrev pub Step : Type 0 → Type 0 → Type 0
Step E F = Result E (Unit {0}) × List Line × F

abbrev pub directories_of : {F : Type 0} → Os F → Config → List Bytes
directories_of os cfg =
    cfg.server.data_dir
    ∷ cfg.storage.directory_for_db
    ∷ os.join cfg.server.data_dir (codes "journal")
    ∷ os.join cfg.server.data_dir (codes "logs")
    ∷ os.join cfg.server.data_dir (codes "tmp")
    ∷ []

-- A part, and then another if there was no error, with the error and the lines in front.
abbrev pub and_then : {E E' F : Type 0} → (E → E') → Step E F → (F → Step E' F) → Step E' F
and_then wrap (ok _, out, f) next = let r = next f in (r.0, out ++ r.1, r.2)
and_then wrap (err e, out, f) next = (err (wrap e), out, f)

module _ {F : Type 0} (os : Os F) where
  -- A call of `MkdirAll`, with the error and the line that follow it.
  abbrev made : {E : Type 0} → (Failure → E) → List Line → Result Failure (Unit {0}) × F → Step E F
  made fail out (ok _, f) = (ok tt, out, f)
  made fail out (err e, f) = (err (fail e), [], f)

  -- The loop of `createDirectories`.
  unfoldable pub make_all : List Bytes → F → Step DirectoryError F
  make_all [] f = (ok tt, [], f)
  make_all (d ∷ ds) f =
      and_then (λ e. e) (made (directory_failed d) (directory_made d ∷ []) (os.mkdir_all d 0o755 f))
        (make_all ds)

  unfoldable pub create_directories : Config → F → Step DirectoryError F
  unfolding make_all
  create_directories cfg = make_all (directories_of os cfg)

  -- `initializeStorage` only prints.
  abbrev pub initialize_storage : {E : Type 0} → Config → F → Step E F
  initialize_storage cfg f = (ok tt, storage_initialized cfg.storage.engine ∷ [], f)

  abbrev pub database_dir : Config → Bytes → Bytes
  database_dir cfg name = os.join cfg.storage.directory_for_db name

  abbrev pub print : {E : Type 0} → Line → Step E F → Step E F
  print l (r, out, f) = (r, l ∷ out, f)

  unfoldable pub create_default_database : Config → F → Step DatabaseError F
  create_default_database cfg f = print default_database_begins (
      and_then (λ e. e)
        (made admin_failed [] (os.mkdir_all (database_dir cfg (codes "admin")) 0o755 f))
        (λ f1.
          and_then (λ e. e)
            (made local_failed [] (os.mkdir_all (database_dir cfg (codes "local")) 0o755 f1))
            (λ f2.
              made config_failed (default_database_ends ∷ [])
                (os.mkdir_all (database_dir cfg (codes "config")) 0o755 f2))))

  unfoldable pub initialize_database : Config → F → Step InitError F
  unfolding create_directories create_default_database
  initialize_database cfg f = print initialize_begins (
      and_then directories_failed (create_directories cfg f) (λ f1.
        and_then (λ e. e) (initialize_storage cfg f1)
          (λ f2.
            and_then default_database_failed (create_default_database cfg f2)
              (λ f3. (ok tt, initialize_ends ∷ [], f3)))))
