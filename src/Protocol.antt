-- ===== src/Protocol.antt =====
-- server/protocol/handler.go: the header and the frame of a message. An int32 is its four bytes as a
-- number below 2 ^ 32; `signed32` is the integer that it stands for. The `getty` library calls `read`
-- with the bytes that have arrived.
pub mod Frames
pub mod Replies
pub mod Codes
pub mod Streams
pub mod Readings
pub mod Conversations
mod Tests
use xmongodb.Common.{
  ℕ, ◌+◌, ◌-◌, ◌*◌, ◌/◌, ◌%◌, ◌^◌, Bool, Option, none, some, List, [], ◌∷◌, ◌++◌, Run, done, panic,
  ◌>>=◌, length, take, drop, ltb, leb, if◌then◌else◌,
}
use xmongodb.Common.Int.{ℤ, pos, negsuc}
use xmongodb.Bytes.{Bytes}

abbrev pub signed32 : ℕ → ℤ
signed32 w = if ltb w (2 ^ 31) then pos w else negsuc (2 ^ 32 - 1 - w)

pub record MessageHeader : Type 0 where
  pub message_length : ℕ
  pub request_id : ℕ
  pub response_to : ℕ
  pub op_code : ℕ

pub record Message : Type 0 where
  pub header : MessageHeader
  pub body : Bytes
  pub op_code : ℕ

-- binary.Write of an int32 in little-endian order.
abbrev pub put32 : ℕ → Bytes
put32 w = (w % 256) ∷ (w / 2 ^ 8 % 256) ∷ (w / 2 ^ 16 % 256) ∷ (w / 2 ^ 24 % 256) ∷ []

-- binary.Read of an int32 in little-endian order.
abbrev pub get32 : ℕ → ℕ → ℕ → ℕ → ℕ
get32 a b c d = a + b * 2 ^ 8 + c * 2 ^ 16 + d * 2 ^ 24

-- `parseMessageHeader`: `none` is its error, for fewer than 16 bytes.
unfoldable pub parse_message_header : Bytes → Option MessageHeader
parse_message_header (a ∷ b ∷ c ∷ d ∷ e ∷ f ∷ g ∷ h ∷ i ∷ j ∷ k ∷ l ∷ m ∷ n ∷ o ∷ p ∷ rest) =
    some (record {
      message_length = get32 a b c d;
      request_id = get32 e f g h;
      response_to = get32 i j k l;
      op_code = get32 m n o p;
    })
parse_message_header _ = none

-- `parseMessage`: `data[16:]` panics if there are fewer than 16 bytes.
unfoldable pub parse_message : Bytes → MessageHeader → Run Message
parse_message bytes header =
    if ltb (length bytes) 16
    then panic
    else done (record { header = header; body = drop 16 bytes; op_code = header.op_code })

-- What `Read` returns: more bytes are wanted, or a message and the bytes that it takes, or an error.
pub data ReadResult : Type 0 where
  wait : ReadResult
  message : Message → ℕ → ReadResult
  bad_header : ReadResult

-- `data[:header.MessageLength]` and what follows. A negative length passes the test on the length and
-- then panics in the slice expression.
unfoldable pub read_frame : Bytes → MessageHeader → ℤ → Run ReadResult
unfolding parse_message
read_frame bytes header (negsuc n) = panic
read_frame bytes header (pos n) =
    if ltb (length bytes) n
    then done wait
    else (parse_message (take n bytes) header >>= λ m. done (message m n))

-- `Read`
unfoldable pub read : Bytes → Run ReadResult
unfolding parse_message_header read_frame
read bytes =
    let framed : Run ReadResult = elim (parse_message_header bytes) [
      | none ↦ done bad_header
      | some header ↦ read_frame bytes header (signed32 header.message_length)
    ] in
    if ltb (length bytes) 16 then done wait else framed

-- `Serialize`
unfoldable pub serialize : Message → Bytes
serialize m =
    put32 m.header.message_length
    ++ (put32 m.header.request_id
        ++ (put32 m.header.response_to ++ (put32 m.header.op_code ++ m.body)))

-- What `getty` passes as `interface{}`: a message, or a value of some other type.
pub data Package : Type 0 where
  message_package : Message → Package
  other_package : Package

-- `Write`: `none` is its error. `Serialize` never fails: a buffer in memory takes every write.
unfoldable pub write : Package → Option Bytes
unfolding serialize
write (message_package m) = some (serialize m)
write other_package = none
