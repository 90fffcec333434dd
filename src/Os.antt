-- ===== src/Os.antt =====
-- What the program takes from Go's packages `os` and `path/filepath`: a parameter, on files `F` that are a type of its own.
pub mod Memory
use xmongodb.Common.{◌≡◌, ℕ, true, Bool, Option, some, Result, ok}
use xmongodb.Bytes.{Bytes}

-- The text of an `error`.
abbrev pub Failure : Type 0
Failure = Bytes

-- `join` is `filepath.Join`. `stat` tells whether `os.Stat` gives no error. The numbers are the permissions.
pub record Os (F : Type 0) : Type 0 where
  pub stat : Bytes → F → Bool
  pub write_file : (path text : Bytes) (mode : ℕ) → F → Result Failure (Unit {0}) × F
  pub mkdir_all : (path : Bytes) (mode : ℕ) → F → Result Failure (Unit {0}) × F
  pub join : Bytes → Bytes → Bytes

-- What the package documents, said of the text of a file and of the directories that there are.
pub record IsLawful {F : Type 0} (os : Os F) : Type 0 where
  pub content : Bytes → F → Option Bytes
  pub is_dir : Bytes → F → Bool
  pub stat-content : (p text : Bytes) (f : F) → content p f ≡ some text → os.stat p f ≡ true
  pub content-write_file :
      (p text : Bytes) (mode : ℕ) (f : F)
      → (os.write_file p text mode f).0 ≡ ok tt
      → content p (os.write_file p text mode f).1 ≡ some text
  pub is_dir-mkdir_all :
      (p : Bytes) (mode : ℕ) (f : F)
      → (os.mkdir_all p mode f).0 ≡ ok tt
      → is_dir p (os.mkdir_all p mode f).1 ≡ true
  pub is_dir-kept :
      (p q : Bytes) (mode : ℕ) (f : F)
      → is_dir q f ≡ true
      → is_dir q (os.mkdir_all p mode f).1 ≡ true
  pub mkdir_all-is_dir :
      (p : Bytes) (mode : ℕ) (f : F) → is_dir p f ≡ true → os.mkdir_all p mode f ≡ (ok tt, f)
