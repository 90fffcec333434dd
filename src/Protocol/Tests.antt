-- ===== src/Protocol/Tests.antt =====
-- The theorems on frames at concrete messages.
use xmongodb.Common.{
  map, take, drop, ◌≤◌, ◌<◌, ◌↔◌, ◌≡◌, refl, inr, some, [], ◌∷◌, ◌++◌, arith, done, panic, length,
}
use xmongodb.Bytes.{Bytes}
use xmongodb.RecordId.Text.{codes}
use xmongodb.Protocol.Codes.{op_code_name}
use xmongodb.Protocol.Streams.{Cuts, serialize_all, Cuts_iff, read-bounds}
use xmongodb.Protocol.Conversations.{sent_all, Cuts-sent_all}
use xmongodb.Protocol.{
  message_package, other_package, MessageHeader, Message, message, read, serialize,
  parse_message_header,
}
use xmongodb.Bytes.Value.{AreBytes}
use xmongodb.Protocol.Readings.{read_iff}
use xmongodb.Protocol.Frames.{IsFramed, read-panic}
use xmongodb.Protocol.Replies.{handle_message}

-- An insertion of two bytes.
abbrev request : Message
request = record {
  header = record { message_length = 18; request_id = 77; response_to = 0; op_code = 2002 };
  body = 4 ∷ 5 ∷ [];
  op_code = 2002;
}

request-IsFramed : IsFramed request
request-IsFramed = record {
  exact = refl;
  short = omega arith;
  request = omega arith;
  response = omega arith;
  code = omega arith;
  same_code = refl;
}

-- A header whose length is the int32 -1.
abbrev negative : Bytes
negative = 255 ∷ 255 ∷ 255 ∷ 255 ∷ 1 ∷ 0 ∷ 0 ∷ 0 ∷ 0 ∷ 0 ∷ 0 ∷ 0 ∷ 1 ∷ 0 ∷ 0 ∷ 0 ∷ []

abbrev negative_header : MessageHeader
negative_header = record {
  message_length = 4294967295;
  request_id = 1;
  response_to = 0;
  op_code = 1;
}

parse_negative : parse_message_header negative ≡ some negative_header
unfolding parse_message_header
parse_negative = refl

read-panic_example : read negative ≡ panic
read-panic_example =
    read-panic negative negative_header (omega arith) parse_negative (inr (omega arith))

five_short : 5 < length (serialize request)
unfolding serialize
five_short = omega arith

-- The stream of one message and five bytes of the next.
Cuts_iff_example :
    Cuts
      (serialize_all (request ∷ []) ++ take 5 (serialize request))
      (request ∷ [])
      (take 5 (serialize request))
    ↔ ((request ∷ [] ≡ request ∷ []) × (take 5 (serialize request) ≡ take 5 (serialize request)))
Cuts_iff_example =
    Cuts_iff (request ∷ []) request 5 (request-IsFramed, tt) request-IsFramed five_short
      (request ∷ []) (take 5 (serialize request))

read_request : read (serialize request) ≡ done (message request 18)
unfolding read serialize parse_message_header
read_request = refl

read-bounds_example :
    (16 ≤ 18)
    × (18 ≤ length (serialize request))
    × (request.body ≡ drop 16 (take 18 (serialize request)))
    × (request.header.message_length ≡ 18)
read-bounds_example = read-bounds (serialize request) request 18 read_request

Cuts-sent_all_example :
    Cuts
      (sent_all (message_package request ∷ other_package ∷ []))
      (map handle_message (request ∷ []))
      []
    × (map (λ (r : Message). r.header.response_to) (map handle_message (request ∷ []))
        ≡ map (λ (m : Message). m.header.request_id) (request ∷ []))
Cuts-sent_all_example =
    Cuts-sent_all (message_package request ∷ other_package ∷ []) (omega arith, tt)

insert_name : op_code_name 2002 ≡ codes "OP_INSERT"
unfolding op_code_name
insert_name = refl

request_bytes : AreBytes (serialize request)
unfolding serialize
request_bytes = omega arith

read_iff_example : (read (serialize request) ≡ done (message request 18)) ↔ (
    IsFramed request
    × (18 ≤ length (serialize request))
    × (serialize request ≡ take 18 (serialize request)))
read_iff_example = read_iff (serialize request) request 18 request_bytes
