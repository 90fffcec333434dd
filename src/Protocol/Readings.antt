-- ===== src/Protocol/Readings.antt =====
-- What `Read` returns is what `Serialize` wrote.
use mathlib.Core.Option.{some-injective}
use mathlib.Core.Path.{subst}
use xmongodb.Common.{
  ℕ, zero, suc, ◌^◌, ◌<◌, ◌≤◌, ◌≡◌, ◌↔◌, refl, sym, ap, ◌∙◌, some, [], ◌∷◌, ◌++◌, arith, done,
  length, length-take, take, drop, take-append-drop, Option-cases, inl, inr,
}
use xmongodb.Bytes.{Bytes}
use xmongodb.Bytes.Value.{AreBytes}
use xmongodb.Protocol.{
  MessageHeader, Message, message, put32, get32, parse_message_header, parse_message, read,
  read_frame, serialize,
}
use xmongodb.Protocol.Frames.{IsFramed, read-serialize, length-serialize}
use xmongodb.Protocol.Streams.{read-bounds}

-- Four bytes that are read and written.
put32-get32 :
    (a b c d : ℕ)
    → a < 256
    → b < 256
    → c < 256
    → d < 256
    → put32 (get32 a b c d) ≡ a ∷ b ∷ c ∷ d ∷ []
put32-get32 a b c d ha hb hc hd = ground arith

four :
    (a b c d : ℕ)
    → a < 256
    → b < 256
    → c < 256
    → d < 256
    → (put32 (get32 a b c d) ≡ a ∷ b ∷ c ∷ d ∷ []) × (get32 a b c d < 2 ^ 32)
four a b c d ha hb hc hd = (put32-get32 a b c d ha hb hc hd, omega (arith, ha, hb, hc, hd))

joined :
    {p q r s p' q' r' s' : Bytes}
    → p ≡ p'
    → q ≡ q'
    → r ≡ r'
    → s ≡ s'
    → p ++ (q ++ (r ++ s)) ≡ p' ++ (q' ++ (r' ++ s'))
joined e f g h i = e i ++ (f i ++ (g i ++ h i))

-- The four fields of a header are int32, and are written as the 16 bytes from which they came.
record IsTyped (bytes : Bytes) (h : MessageHeader) : Type 0 where
  length_typed : h.message_length < 2 ^ 32
  request_typed : h.request_id < 2 ^ 32
  response_typed : h.response_to < 2 ^ 32
  code_typed : h.op_code < 2 ^ 32
  written :
      put32 h.message_length ++ (put32 h.request_id ++ (put32 h.response_to ++ put32 h.op_code))
      ≡ take 16 bytes

parse-IsTyped :
    (bytes : Bytes) (header : MessageHeader)
    → AreBytes bytes
    → parse_message_header bytes ≡ some header
    → IsTyped bytes header
unfolding parse_message_header
parse-IsTyped ([]) header are parsed = cc
parse-IsTyped (a ∷ []) header are parsed = cc
parse-IsTyped (a ∷ b ∷ []) header are parsed = cc
parse-IsTyped (a ∷ b ∷ c ∷ []) header are parsed = cc
parse-IsTyped (a ∷ b ∷ c ∷ d ∷ []) header are parsed = cc
parse-IsTyped (a ∷ b ∷ c ∷ d ∷ e ∷ []) header are parsed = cc
parse-IsTyped (a ∷ b ∷ c ∷ d ∷ e ∷ f ∷ []) header are parsed = cc
parse-IsTyped (a ∷ b ∷ c ∷ d ∷ e ∷ f ∷ g ∷ []) header are parsed = cc
parse-IsTyped (a ∷ b ∷ c ∷ d ∷ e ∷ f ∷ g ∷ h ∷ []) header are parsed = cc
parse-IsTyped (a ∷ b ∷ c ∷ d ∷ e ∷ f ∷ g ∷ h ∷ i ∷ []) header are parsed = cc
parse-IsTyped (a ∷ b ∷ c ∷ d ∷ e ∷ f ∷ g ∷ h ∷ i ∷ j ∷ []) header are parsed = cc
parse-IsTyped (a ∷ b ∷ c ∷ d ∷ e ∷ f ∷ g ∷ h ∷ i ∷ j ∷ k ∷ []) header are parsed = cc
parse-IsTyped (a ∷ b ∷ c ∷ d ∷ e ∷ f ∷ g ∷ h ∷ i ∷ j ∷ k ∷ l ∷ []) header are parsed = cc
parse-IsTyped (a ∷ b ∷ c ∷ d ∷ e ∷ f ∷ g ∷ h ∷ i ∷ j ∷ k ∷ l ∷ m ∷ []) header are parsed = cc
parse-IsTyped (a ∷ b ∷ c ∷ d ∷ e ∷ f ∷ g ∷ h ∷ i ∷ j ∷ k ∷ l ∷ m ∷ n ∷ []) header are parsed = cc
parse-IsTyped (a ∷ b ∷ c ∷ d ∷ e ∷ f ∷ g ∷ h ∷ i ∷ j ∷ k ∷ l ∷ m ∷ n ∷ o ∷ []) header are parsed =
    cc
parse-IsTyped (a ∷ b ∷ c ∷ d ∷ e ∷ f ∷ g ∷ h ∷ i ∷ j ∷ k ∷ l ∷ m ∷ n ∷ o ∷ p ∷ rest) header are
      parsed =
    let u = are.1.1.1.1 in
    let v = u.1.1.1.1 in
    let t = v.1.1.1.1 in
    let (first, x) = four a b c d are.0 are.1.0 are.1.1.0 are.1.1.1.0 in
    let (second, y) = four e f g h u.0 u.1.0 u.1.1.0 u.1.1.1.0 in
    let (third, z) = four i j k l v.0 v.1.0 v.1.1.0 v.1.1.1.0 in
    let (fourth, w) = four m n o p t.0 t.1.0 t.1.1.0 t.1.1.1.0 in
    subst (IsTyped (a ∷ b ∷ c ∷ d ∷ e ∷ f ∷ g ∷ h ∷ i ∷ j ∷ k ∷ l ∷ m ∷ n ∷ o ∷ p ∷ rest))
      (some-injective _ header parsed)
      (record {
        length_typed = x;
        request_typed = y;
        response_typed = z;
        code_typed = w;
        written = joined first second third fourth;
      })

take-take : (k n : ℕ) (xs : Bytes) → k ≤ n → take k (take n xs) ≡ take k xs
take-take zero n xs h = refl
take-take (suc k) zero xs h = absurd (omega arith)
take-take (suc k) (suc n) [] h = refl
take-take (suc k) (suc n) (x ∷ xs) h = ap (λ l. x ∷ l) (take-take k n xs (omega arith))

-- The header of a message that `Read` returns is the one that was parsed, and its length is no negative
-- int32.
record IsRead (bytes : Bytes) (m : Message) : Type 0 where
  parsed : parse_message_header bytes ≡ some m.header
  short : m.header.message_length < 2 ^ 31
  same_code : m.op_code ≡ m.header.op_code

read-IsRead :
    (bytes : Bytes) (m : Message) (n : ℕ) → read bytes ≡ done (message m n) → IsRead bytes m
unfolding read read_frame parse_message
read-IsRead bytes m n h = elim (Option-cases (parse_message_header bytes)) [
  | inl bad ↦ absurd (ground (arith, bad))
  | inr (header, good) ↦ record {
    parsed = ground (arith, good);
    short = ground (arith, good);
    same_code = ground (arith, good);
  }
]

serialize-joined :
    (m : Message)
    → serialize m
      ≡ (put32 m.header.message_length
          ++ (put32 m.header.request_id ++ (put32 m.header.response_to ++ put32 m.header.op_code)))
        ++ m.body
unfolding serialize
serialize-joined m = refl

module _ (bytes : Bytes) (m : Message) (n : ℕ) (are : AreBytes bytes)
    (got : read bytes ≡ done (message m n)) where
  read-serialized : serialize m ≡ take n bytes
  read-serialized =
      let (enough, there, body, size) = read-bounds bytes m n got in
      let header = parse-IsTyped bytes m.header are (read-IsRead bytes m n got).parsed in
      serialize-joined m
      ∙ (λ i. header.written i ++ body i)
      ∙ ap (λ l. l ++ drop 16 (take n bytes)) (sym (take-take 16 n bytes enough))
      ∙ take-append-drop 16 (take n bytes)

  read-IsFramed : IsFramed m
  read-IsFramed =
      let (enough, there, body, size) = read-bounds bytes m n got in
      let r = read-IsRead bytes m n got in
      let header = parse-IsTyped bytes m.header are r.parsed in
      record {
        exact = omega (
          arith,
          size,
          there,
          ap length read-serialized,
          length-serialize m,
          length-take n bytes,
        );
        short = r.short;
        request = header.request_typed;
        response = header.response_typed;
        code = header.code_typed;
        same_code = r.same_code;
      }

-- Of bytes that have arrived, `Read` returns a message and how many bytes it takes exactly if they have
-- arrived, `Serialize` writes this message as these bytes, and the message is well-formed: the fields of
-- its header are int32, its length is that of the frame and not negative, and its code is that of the
-- header.
pub read_iff :
    (bytes : Bytes) (m : Message) (n : ℕ)
    → AreBytes bytes
    → (read bytes ≡ done (message m n))
      ↔ (IsFramed m × (n ≤ length bytes) × (serialize m ≡ take n bytes))
read_iff bytes m n are = (
  λ got. (
    read-IsFramed bytes m n are got,
    (read-bounds bytes m n got).1,
    read-serialized bytes m n are got,
  ),
  λ given.
      let (framed, there, written) = given in
      let size : m.header.message_length ≡ n =
        omega (
          arith,
          framed.exact,
          length-serialize m,
          ap length written,
          length-take n bytes,
          there,
        ) in
      ap read (sym (take-append-drop n bytes) ∙ ap (λ l. l ++ drop n bytes) (sym written))
      ∙ read-serialize m (drop n bytes) framed
      ∙ ap (λ k. done (message m k)) size,
)
