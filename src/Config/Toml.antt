-- ===== src/Config/Toml.antt =====
-- A reader of a part of TOML, the format of the settings: comments, blank lines, tables, and lines
-- `key = value`, whose values are texts without escapes, numbers of at most 18 digits, and `true` and
-- `false`. It refuses what it does not know. The keys come out as viper names them, `table.key`.
use mathlib.Core.Option
use xmongodb.Common.{
  ℕ, ◌+◌, ◌-◌, ◌*◌, Bool, true, false, not, ◌&&◌, ◌||◌, Option, none, some, List, [], ◌∷◌, ◌++◌,
  length, leb, ◌==◌, if◌then◌else◌,
}
use xmongodb.Common.Int.{pos}
use xmongodb.Bytes.{Bytes, bytes_equal, lex}
use xmongodb.RecordId.Text.{codes}
use xmongodb.Dict
use xmongodb.Dict.{Dict}
use xmongodb.Config.{Setting, text, number, flag}

-- The lines, without the bytes that end them.
abbrev add_first : ℕ → List Bytes → List Bytes
add_first b [] = (b ∷ []) ∷ []
add_first b (l ∷ ls) = (b ∷ l) ∷ ls

lines : Bytes → List Bytes
lines [] = []
lines (b ∷ bs) = let rest = lines bs in if b == 10 then [] ∷ rest else add_first b rest

abbrev is_digit : ℕ → Bool
is_digit b = leb b'0' b && leb b b'9'

-- What a key or the name of a table is made of; capital letters are left out, which viper turns small.
abbrev is_bare : ℕ → Bool
is_bare b = is_digit b || (leb b'a' b && leb b b'z') || b == b'_'

all : (ℕ → Bool) → Bytes → Bool
all p [] = true
all p (b ∷ bs) = p b && all p bs

is_name : Bytes → Bool
unfolding all
is_name [] = false
is_name (b ∷ bs) = all is_bare (b ∷ bs)

abbrev is_continuation : ℕ → Bool
is_continuation b = leb 128 b && leb b 191

-- Printed characters of ASCII, and those that UTF-8 writes in three bytes of which the first is not one
-- of the two that restrict the second.
is_printed : Bytes → Bool
is_printed [] = true
is_printed (a ∷ []) = leb 32 a && leb a 126
is_printed (a ∷ b ∷ []) = leb 32 a && leb a 126 && leb 32 b && leb b 126
is_printed (a ∷ b ∷ c ∷ bs) =
    let ascii = is_printed (b ∷ c ∷ bs) in
    let wide = is_printed bs in
    if leb 32 a && leb a 126
    then ascii
    else leb 225 a && leb a 236 && is_continuation b && is_continuation c && wide

-- The text up to the quotation mark that ends the line.
quoted : Bytes → Option Bytes
quoted [] = none
quoted (b ∷ []) = if b == b'"' then some [] else none
quoted (b ∷ c ∷ bs) =
    let rest = quoted (c ∷ bs) in
    if b == b'"' || b == b'\\' then none else elim rest [ none ↦ none | some t ↦ some (b ∷ t) ]

value_of : ℕ → Bytes → ℕ
value_of n [] = n
value_of n (b ∷ bs) = value_of (n * 10 + (b - b'0')) bs

-- No number but 0 begins with a 0.
number_of : Bytes → Option Setting
unfolding all value_of
number_of [] = none
number_of (b ∷ bs) =
    if all is_digit (b ∷ bs) && leb (length bs) 17 && (not (b == b'0') || length bs == 0)
    then some (number (pos (value_of 0 (b ∷ bs))))
    else none

literal : Bytes → Option Setting
unfolding lex quoted number_of is_printed
literal [] = none
literal (b ∷ bs) =
    if b == b'"'
    then (if is_printed bs then Option.map text (quoted bs) else none)
    else if bytes_equal (b ∷ bs) (codes "true")
    then some (flag true)
    else if bytes_equal (b ∷ bs) (codes "false")
    then some (flag false)
    else number_of (b ∷ bs)

-- The part of a line in front of the first byte that ends it, and what stands behind.
cut : ℕ → Bytes → Option (Bytes × Bytes)
cut e [] = none
cut e (b ∷ bs) =
    let rest = cut e bs in
    if b == e then some ([], bs) else elim rest [ none ↦ none | some r ↦ some (b ∷ r.0, r.1) ]

pub data TomlLine : Type 0 where
  nothing : TomlLine
  table : Bytes → TomlLine
  pair : Bytes → Setting → TomlLine

-- `[name]` without its first byte.
table_line : Bytes → Option TomlLine
unfolding cut is_name all
table_line bs = elim (cut b']' bs) [
  | none ↦ none
  | some (name, []) ↦ if is_name name then some (table name) else none
  | some (name, _) ↦ none
]

-- `key = value`
pair_of : Bytes → Bytes → Option TomlLine
unfolding literal is_name all
pair_of key [] = none
pair_of key (b ∷ bs) = if is_name key && b == b' ' then Option.map (pair key) (literal bs) else none

pair_line : Bytes → Option TomlLine
unfolding cut pair_of
pair_line bs = elim (cut b' ' bs) [
  | some (key, e ∷ after) ↦ if e == b'=' then pair_of key after else none
  | _ ↦ none
]

line_of : Bytes → Option TomlLine
unfolding table_line pair_line is_printed
line_of [] = some nothing
line_of (b ∷ bs) =
    if b == b'#'
    then (if is_printed bs then some nothing else none)
    else if b == b'['
    then table_line bs
    else pair_line (b ∷ bs)

-- The keys that there are, and the tables; none comes twice. No key stands in front of the tables.
pub record Reading : Type 0 where
  pub tables : Dict (Unit {0})
  pub current : Bytes
  pub keys : Dict Setting

is_new : {V : Type 0} → Option V → Bool
is_new none = true
is_new (some v) = false

read_line : Reading → TomlLine → Option Reading
unfolding is_new Dict.lookup lex
read_line r nothing = some r
read_line r (table name) =
    if is_new (Dict.lookup name r.tables)
    then some (record r { tables = (name, tt) ∷ r.tables; current = name })
    else none
read_line r (pair key v) =
    let full = r.current ++ codes "." ++ key in
    if not (bytes_equal r.current []) && is_new (Dict.lookup full r.keys)
    then some (record r { keys = r.keys ++ (full, v) ∷ [] })
    else none

read_lines : Reading → List Bytes → Option (Dict Setting)
unfolding read_line line_of
read_lines r [] = some r.keys
read_lines r (l ∷ ls) = elim (line_of l) [
  | none ↦ none
  | some x ↦ elim (read_line r x) [ none ↦ none | some r' ↦ read_lines r' ls ]
]

unfoldable pub read_toml : Bytes → Option (Dict Setting)
unfolding read_lines lines
read_toml bs = read_lines (record { tables = []; current = []; keys = [] }) (lines bs)
