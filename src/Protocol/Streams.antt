-- ===== src/Protocol/Streams.antt =====
-- A stream of messages that arrives in pieces: where `Read` cuts it.
use xmongodb.Common.{
  ℕ, ◌+◌, ◌<◌, ◌≤◌, ◌≡◌, refl, sym, ap, ◌∙◌, some, List, [], ◌∷◌, ◌++◌, arith, Run, done, length,
  length-take, take, drop, drop-append, inl, inr, ◌↔◌, ltb, Bool-cases, Option-cases, suc, ◌-◌,
}
use mathlib.Core.Path.{subst}
use mathlib.Core.List.{append_assoc, append-nil}
use xmongodb.Bytes.{Bytes}
use xmongodb.Protocol.{
  Message, ReadResult, message, wait, read, read_frame, parse_message, parse_message_header,
  serialize,
}
use xmongodb.Protocol.Frames.{IsFramed, read-serialize, length-serialize, parse-serialize}

-- The messages that `Read` cuts off, one call after the other, until it waits, and the bytes it leaves.
pub data Cuts : Bytes → List Message → Bytes → Type 0 where
  waits : {bytes : Bytes} → read bytes ≡ done wait → Cuts bytes [] bytes
  cut :
      {bytes rest : Bytes} {m : Message} {n : ℕ} {ms : List Message}
      → read bytes ≡ done (message m n)
      → Cuts (drop n bytes) ms rest
      → Cuts bytes (m ∷ ms) rest

abbrev pub AllFramed : List Message → Type 0
AllFramed [] = Unit
AllFramed (m ∷ ms) = IsFramed m × AllFramed ms

abbrev pub serialize_all : List Message → Bytes
serialize_all [] = []
serialize_all (m ∷ ms) = serialize m ++ serialize_all ms

header_and : ℕ → ℕ
header_and k =
    suc
      (suc (suc (suc (suc (suc (suc (suc (suc (suc (suc (suc (suc (suc (suc (suc (k))))))))))))))))

header_and_lem : (k : ℕ) → header_and k ≡ 16 + k
unfolding header_and
header_and_lem k = omega arith

-- A beginning of a message that has the header is the message with the beginning of its body.
take-serialize :
    (m : Message) (k : ℕ)
    → take (header_and k) (serialize m) ≡ serialize (record m { body = take k m.body })
unfolding serialize header_and
take-serialize m k = refl

read_beginning :
    (m : Message) (k : ℕ)
    → IsFramed m
    → k < length m.body
    → read (serialize (record m { body = take k m.body })) ≡ done wait
unfolding read read_frame
read_beginning m k f h =
    let cut = record m { body = take k m.body } in
    let parsed : parse_message_header (serialize cut) ≡ some m.header =
      ap parse_message_header (sym (append-nil (serialize cut)))
      ∙ parse-serialize cut [] (omega (arith, f.short)) f.request f.response f.code in
    ground (arith, parsed, f.short, f.exact, length-serialize cut, length-take k m.body)

-- A beginning of a message that is not all of it makes `Read` wait.
pub read-take :
    (m : Message) (n : ℕ)
    → IsFramed m
    → n < length (serialize m)
    → read (take n (serialize m)) ≡ done wait
unfolding read
read-take m n f h = elim (Bool-cases (ltb n 16)) [
  | inl low ↦ ground (arith, low, length-take n (serialize m))
  | inr high ↦
      let above : 16 ≤ n = ground (arith, high) in
      let size : n ≡ header_and (n - 16) = omega (arith, above, header_and_lem (n - 16)) in
      ap (λ k. read (take k (serialize m))) size
      ∙ ap read (take-serialize m (n - 16))
      ∙ read_beginning m (n - 16) f (omega (arith, above, h, length-serialize m))
]

message_injective :
    {m m' : Message} {n n' : ℕ}
    → ◌≡◌ {A = Run ReadResult} (done (message m n)) (done (message m' n'))
    → (m ≡ m') × (n ≡ n')
message_injective h = (cc, cc)

-- The calls cut a stream in one way.
Cuts-unique :
    {bytes rest rest' : Bytes} {ms ms' : List Message}
    → Cuts bytes ms rest
    → Cuts bytes ms' rest'
    → (ms ≡ ms') × (rest ≡ rest')
Cuts-unique (waits h) (waits h') = (refl, refl)
Cuts-unique (waits h) (cut h' c') = absurd (ground (arith, h, h'))
Cuts-unique (cut h c) (waits h') = absurd (ground (arith, h, h'))
Cuts-unique {bytes} {rest' = rest'} (cut h c) (cut {ms = ms'} h' c') =
    let (same, sizes) = message_injective (sym h ∙ h') in
    let (tail, left) =
      Cuts-unique c (subst {A = ℕ} (λ k. Cuts (drop k bytes) ms' rest') (sym sizes) c') in
    (rw (same, tail) refl, left)

pub Cuts-serialize_all :
    (ms : List Message) (m : Message) (n : ℕ)
    → AllFramed ms
    → IsFramed m
    → n < length (serialize m)
    → Cuts (serialize_all ms ++ take n (serialize m)) ms (take n (serialize m))
Cuts-serialize_all [] m n a f h = waits (read-take m n f h)
Cuts-serialize_all (x ∷ ms) m n a f h =
    let rest = serialize_all ms ++ take n (serialize m) in
    let shape : serialize x ++ rest ≡ serialize_all (x ∷ ms) ++ take n (serialize m) =
      sym (append_assoc (serialize x) (serialize_all ms) (take n (serialize m))) in
    let left : drop x.header.message_length (serialize x ++ rest) ≡ rest =
      ap (λ k. drop k (serialize x ++ rest)) (a.0.exact ∙ sym (length-serialize x))
      ∙ drop-append (serialize x) rest in
    subst {A = Bytes} (λ bytes. Cuts bytes (x ∷ ms) (take n (serialize m))) shape
      (cut (read-serialize x rest a.0) (rw left (Cuts-serialize_all ms m n a.1 f h)))

-- Messages whose headers fit are written one after the other, with the beginning of one more. Then calls
-- of `Read` cut off these messages as they were written, and leave the beginning, and nothing else.
pub Cuts_iff :
    (ms : List Message) (m : Message) (n : ℕ)
    → AllFramed ms
    → IsFramed m
    → n < length (serialize m)
    → (ms' : List Message) (rest : Bytes)
    → Cuts (serialize_all ms ++ take n (serialize m)) ms' rest
      ↔ ((ms ≡ ms') × (rest ≡ take n (serialize m)))
Cuts_iff ms m n a f h ms' rest =
    let here = Cuts-serialize_all ms m n a f h in
    (
      λ c. let (same, left) = Cuts-unique here c in (same, sym left),
      λ e.
          subst {A = List Message × Bytes}
            (λ x. Cuts (serialize_all ms ++ take n (serialize m)) x.0 x.1) (λ i. (e.0 i, sym e.1 i))
            here,
    )

-- A message that `Read` returns has at least 16 bytes, all of which have arrived, and its body is what
-- follows the header in them.
pub read-bounds :
    (bytes : Bytes) (m : Message) (n : ℕ)
    → read bytes ≡ done (message m n)
    → (16 ≤ n)
      × (n ≤ length bytes)
      × (m.body ≡ drop 16 (take n bytes))
      × (m.header.message_length ≡ n)
unfolding read read_frame parse_message
read-bounds bytes m n h = elim (Option-cases (parse_message_header bytes)) [
  | inl bad ↦ absurd (ground (arith, bad))
  | inr (header, good) ↦ ground (arith, good, length-take header.message_length bytes)
]
