-- ===== src/Protocol/Frames.antt =====
-- Reading what was written, and the frames that make the reader panic.
use xmongodb.Common.{
  ℕ, ◌+◌, ◌/◌, ◌%◌, ◌^◌, ◌<◌, ◌≤◌, ◌≡◌, sym, ap, ◌∙◌, some, ◌++◌, arith, done, panic, length,
  length-append, length-take, take, take-append, ◌⊎◌,
}
use xmongodb.Common.Int.{pos}
use xmongodb.Bytes.{Bytes}
use xmongodb.Protocol.{
  MessageHeader, Message, message, get32, parse_message_header, parse_message, read, read_frame,
  serialize,
}

-- The fields of the header are int32, its length is that of the frame, and the code is the header's.
pub record IsFramed (m : Message) : Type 0 where
  pub exact : m.header.message_length ≡ 16 + length m.body
  pub short : m.header.message_length < 2 ^ 31
  pub request : m.header.request_id < 2 ^ 32
  pub response : m.header.response_to < 2 ^ 32
  pub code : m.header.op_code < 2 ^ 32
  pub same_code : m.op_code ≡ m.header.op_code

get32-put32 :
    (w : ℕ)
    → w < 2 ^ 32
    → get32 (w % 256) (w / 2 ^ 8 % 256) (w / 2 ^ 16 % 256) (w / 2 ^ 24 % 256) ≡ w
get32-put32 w h = omega arith

pub length-serialize : (m : Message) → length (serialize m) ≡ 16 + length m.body
unfolding serialize
length-serialize m = omega arith

pub parse-serialize :
    (m : Message) (rest : Bytes)
    → m.header.message_length < 2 ^ 32
    → m.header.request_id < 2 ^ 32
    → m.header.response_to < 2 ^ 32
    → m.header.op_code < 2 ^ 32
    → parse_message_header (serialize m ++ rest) ≡ some m.header
unfolding parse_message_header serialize
parse-serialize m rest l q r c = ground (
  arith,
  get32-put32 m.header.message_length,
  get32-put32 m.header.request_id,
  get32-put32 m.header.response_to,
  get32-put32 m.header.op_code,
)

parse_message-serialize :
    (m : Message) → m.op_code ≡ m.header.op_code → parse_message (serialize m) m.header ≡ done m
unfolding parse_message serialize
parse_message-serialize m h = ground (arith, h)

read_frame-serialize :
    (m : Message) (rest : Bytes)
    → IsFramed m
    → read_frame (serialize m ++ rest) m.header (pos m.header.message_length)
      ≡ done (message m m.header.message_length)
unfolding read_frame
read_frame-serialize m rest f =
    let size : m.header.message_length ≡ length (serialize m) =
      f.exact ∙ sym (length-serialize m) in
    let cut : take m.header.message_length (serialize m ++ rest) ≡ serialize m =
      ap (λ n. take n (serialize m ++ rest)) size ∙ take-append (serialize m) rest in
    let whole : m.header.message_length ≤ length (serialize m ++ rest) =
      omega (arith, size, length-append (serialize m) rest) in
    ground (arith, cut, whole, parse_message-serialize m f.same_code)

-- If the fields of a header fit in an int32, its length is that of the frame and below 2 ^ 31, and
-- its code is that of the message, reading what `Serialize` wrote gives back the message and its
-- length, whatever bytes follow.
pub read-serialize :
    (m : Message) (rest : Bytes)
    → IsFramed m
    → read (serialize m ++ rest) ≡ done (message m m.header.message_length)
unfolding read
read-serialize m rest f =
    let enough : 16 ≤ length (serialize m ++ rest) =
      omega (arith, length-serialize m, length-append (serialize m) rest) in
    ground (
      arith,
      f.short,
      enough,
      parse-serialize m rest (omega (arith, f.short)) f.request f.response f.code,
      read_frame-serialize m rest f,
    )

-- When at least 16 bytes have arrived, a header whose length field is below 16, or is 2 ^ 31 or
-- more and so a negative int32, makes the reader panic, whatever the other bytes are.
pub read-panic :
    (bytes : Bytes) (header : MessageHeader)
    → 16 ≤ length bytes
    → parse_message_header bytes ≡ some header
    → (header.message_length < 16) ⊎ (2 ^ 31 ≤ header.message_length)
    → read bytes ≡ panic
unfolding read read_frame parse_message
read-panic bytes header h e bad = ground (arith, h, e, bad, length-take header.message_length bytes)
