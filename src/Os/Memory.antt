-- ===== src/Os/Memory.antt =====
-- Files and directories kept in a list, and that they are as the package `os` documents.
use xmongodb.Common.{◌≡◌, Bool, true, false, Option, none, some, Result, ok, err, arith, ◌++◌}
use xmongodb.Bytes.{Bytes}
use xmongodb.Bytes.Order.{lex_refl}
use xmongodb.RecordId.Text.{codes}
use xmongodb.Dict
use xmongodb.Dict.{Dict, lookup-insert}
use xmongodb.Os.{Os, IsLawful, Failure}

pub data Node : Type 0 where
  file : Bytes → Node
  directory : Node

abbrev content_of : Option Node → Option Bytes
content_of (some (file text)) = some text
content_of (some directory) = none
content_of none = none

abbrev directory_at : Option Node → Bool
directory_at (some (file text)) = false
directory_at (some directory) = true
directory_at none = false

abbrev is_there : Option Node → Bool
is_there (some n) = true
is_there none = false

abbrev write : Option Node → Bytes → Bytes → Dict Node → Result Failure (Unit {0}) × Dict Node
write (some directory) p text f = (err (codes "is a directory"), f)
write (some (file old)) p text f = (ok tt, Dict.insert p (file text) f)
write none p text f = (ok tt, Dict.insert p (file text) f)

abbrev make : Option Node → Bytes → Dict Node → Result Failure (Unit {0}) × Dict Node
make (some directory) p f = (ok tt, f)
make (some (file text)) p f = (err (codes "not a directory"), f)
make none p f = (ok tt, Dict.insert p directory f)

abbrev pub memory : Os (Dict Node)
memory = record {
  stat = λ p f. is_there (Dict.lookup p f);
  write_file = λ p text mode f. write (Dict.lookup p f) p text f;
  mkdir_all = λ p mode f. make (Dict.lookup p f) p f;
  join = λ a b. a ++ codes "/" ++ b;
}

pub stat_content : (n : Option Node) (text : Bytes) → content_of n ≡ some text → is_there n ≡ true
stat_content n text h = ground arith

pub content_write :
    (n : Option Node) (p text : Bytes) (f : Dict Node)
    → (write n p text f).0 ≡ ok tt
    → content_of (Dict.lookup p (write n p text f).1) ≡ some text
content_write n p text f h = ground (arith, lookup-insert p p (file text) f, lex_refl p)

pub directory_make :
    (p : Bytes) (f : Dict Node)
    → (make (Dict.lookup p f) p f).0 ≡ ok tt
    → directory_at (Dict.lookup p (make (Dict.lookup p f) p f).1) ≡ true
directory_make p f h = ground (arith, lookup-insert p p directory f, lex_refl p)

pub directory_kept :
    (p q : Bytes) (f : Dict Node)
    → directory_at (Dict.lookup q f) ≡ true
    → directory_at (Dict.lookup q (make (Dict.lookup p f) p f).1) ≡ true
directory_kept p q f h = ground (arith, lookup-insert p q directory f)

pub make_again :
    (n : Option Node) (p : Bytes) (f : Dict Node) → directory_at n ≡ true → make n p f ≡ (ok tt, f)
make_again n p f h = ground arith

unfoldable pub memory-IsLawful : IsLawful memory
memory-IsLawful = record {
  content = λ p f. content_of (Dict.lookup p f);
  is_dir = λ p f. directory_at (Dict.lookup p f);
  stat-content = λ p text f. stat_content (Dict.lookup p f) text;
  content-write_file = λ p text mode f. content_write (Dict.lookup p f) p text f;
  is_dir-mkdir_all = λ p mode f. directory_make p f;
  is_dir-kept = λ p q mode f. directory_kept p q f;
  mkdir_all-is_dir = λ p mode f. make_again (Dict.lookup p f) p f;
}
