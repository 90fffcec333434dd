-- ===== src/RecordId/Tests.antt =====
-- The theorems on identifiers at concrete ones.
use xmongodb.Common.{◌≡◌, ◌↔◌, true, false, [], ◌∷◌, arith, done}
use xmongodb.Common.Int.{pos, negsuc}
use xmongodb.Bytes.{lex, compare_bytes}
use xmongodb.Bytes.Compare.{compare_bytes-eq-lex, sign}
use xmongodb.RecordId.{new_record_id_from_long, compare}
use xmongodb.RecordId.Key.{long_key, compare-lex_iff}

compare_bytes-eq-lex_example :
    compare_bytes (1 ∷ 2 ∷ []) (1 ∷ 3 ∷ []) ≡ done (sign (lex (1 ∷ 2 ∷ []) (1 ∷ 3 ∷ [])))
compare_bytes-eq-lex_example = compare_bytes-eq-lex (1 ∷ 2 ∷ []) (1 ∷ 3 ∷ [])

compare-lex_iff_example :
    (compare (new_record_id_from_long (negsuc 4)) (new_record_id_from_long (pos 3))
      ≡ done (sign (lex (long_key (negsuc 4)) (long_key (pos 3)))))
    ↔ (true ≡ false)
compare-lex_iff_example =
    compare-lex_iff (negsuc 4) (pos 3) (omega arith, omega arith) (omega arith, omega arith)
