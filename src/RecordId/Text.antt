-- ===== src/RecordId/Text.antt =====
-- `RecordId.String`: the decimal and hexadecimal forms that `fmt.Sprintf` writes for %d and %x.
use Prim.Native.String.{String}
use Prim.Native.Char.{code}
use xmongodb.Common.{
  ℕ, zero, suc, ◌+◌, ◌-◌, ◌/◌, ◌%◌, ◌≡◌, refl, [], ◌∷◌, ◌++◌, ltb, ◌==◌, if◌then◌else◌,
}
use xmongodb.Common.Int.{ℤ, pos, negsuc}
use xmongodb.Bytes.{Bytes}
use xmongodb.RecordId.{RecordId, new_record_id_from_long, new_record_id_from_bytes}

-- The bytes of an ASCII text.
abbrev pub codes : String → Bytes
codes String.[] = []
codes (String.◌∷◌ c s) = code c ∷ codes s

-- The decimal digits in front of `after`; an int64 has 19 at most, so 20 rounds are enough.
digits : ℕ → ℕ → Bytes → Bytes
digits zero n after = after
digits (suc fuel) n after =
    let last = (b'0' + n % 10) ∷ after in
    let more = digits fuel (n / 10) last in if ltb n 10 then last else more

-- %d
unfoldable pub decimal : ℤ → Bytes
unfolding digits
decimal (pos n) = digits 20 n []
decimal (negsuc n) = b'-' ∷ digits 20 (suc n) []

abbrev hex_digit : ℕ → ℕ
hex_digit d = if ltb d 10 then b'0' + d else b'a' + (d - 10)

-- %x of a byte slice
hex : Bytes → Bytes
hex [] = []
hex (b ∷ bs) = hex_digit (b / 16) ∷ hex_digit (b % 16) ∷ hex bs

unfoldable pub string : RecordId → Bytes
unfolding decimal hex
string r =
    if r.repr == 0
    then codes "RecordId(null)"
    else if r.repr == 1
    then codes "RecordId(" ++ (decimal r.long ++ codes ")")
    else if r.repr == 2
    then codes "RecordId(0x" ++ (hex r.bytes ++ codes ")")
    else codes "RecordId(unknown)"

string-long : string (new_record_id_from_long (pos 1204)) ≡ codes "RecordId(1204)"
unfolding string
string-long = refl

string-bytes : string (new_record_id_from_bytes (10 ∷ 255 ∷ [])) ≡ codes "RecordId(0x0aff)"
unfolding string
string-bytes = refl
