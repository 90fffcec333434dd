-- ===== src/Protocol/Conversations.antt =====
-- What a client reads that sends one message after the other.
use xmongodb.Common.{
  ◌^◌, ◌<◌, ◌≡◌, refl, sym, ap, ◌∙◌, Option, none, some, List, [], ◌∷◌, ◌++◌, map, arith,
}
use mathlib.Core.List.{append-nil}
use mathlib.Core.Path.{subst}
use xmongodb.Bytes.{Bytes}
use xmongodb.Protocol.{Message, Package, message_package, other_package, write, serialize}
use xmongodb.Protocol.Frames.{IsFramed, length-serialize}
use xmongodb.Protocol.Replies.{handle_message, on_message, handle_message-IsFramed}
use xmongodb.Protocol.Streams.{Cuts, Cuts-serialize_all, AllFramed, serialize_all}

-- The bytes that the session sends for what `Read` hands to `OnMessage`.
abbrev pub sent : Option Package → Bytes
sent none = []
sent (some p) = elim (write p) [ none ↦ [] | some bytes ↦ bytes ]

abbrev pub sent_all : List Package → Bytes
sent_all [] = []
sent_all (p ∷ ps) = sent (on_message p) ++ sent_all ps

-- The messages among the packages.
abbrev pub messages : List Package → List Message
messages [] = []
messages (message_package m ∷ ps) = m ∷ messages ps
messages (other_package ∷ ps) = messages ps

abbrev pub AllInt32 : List Message → Type 0
AllInt32 [] = Unit
AllInt32 (m ∷ ms) = (m.header.request_id < 2 ^ 32) × AllInt32 ms

sent_all_lem : (ps : List Package) → sent_all ps ≡ serialize_all (map handle_message (messages ps))
unfolding on_message write
sent_all_lem [] = refl
sent_all_lem (message_package m ∷ ps) =
    ap (λ rest. serialize (handle_message m) ++ rest) (sent_all_lem ps)
sent_all_lem (other_package ∷ ps) = sent_all_lem ps

AllFramed-map : (ms : List Message) → AllInt32 ms → AllFramed (map handle_message ms)
AllFramed-map [] h = tt
AllFramed-map (m ∷ ms) h = (handle_message-IsFramed m h.0, AllFramed-map ms h.1)

answered :
    (ms : List Message)
    → map (λ (r : Message). r.header.response_to) (map handle_message ms)
      ≡ map (λ (m : Message). m.header.request_id) ms
unfolding handle_message
answered [] = refl
answered (m ∷ ms) = ap (λ rest. m.header.request_id ∷ rest) (answered ms)

abbrev blank : Message
blank = record {
  header = record { message_length = 16; request_id = 0; response_to = 0; op_code = 0 };
  body = [];
  op_code = 0;
}

blank-IsFramed : IsFramed blank
blank-IsFramed = record {
  exact = refl;
  short = omega arith;
  request = omega arith;
  response = omega arith;
  code = omega arith;
  same_code = refl;
}

-- Of what is handed to `OnMessage`, with request identifiers that fit in an int32, the session sends bytes
-- that calls of `Read` cut into one reply for each message, in order, and nothing else, and the replies
-- name the identifiers of the requests.
pub Cuts-sent_all :
    (ps : List Package)
    → AllInt32 (messages ps)
    → Cuts (sent_all ps) (map handle_message (messages ps)) []
      × (map (λ (r : Message). r.header.response_to) (map handle_message (messages ps))
          ≡ map (λ (m : Message). m.header.request_id) (messages ps))
Cuts-sent_all ps h =
    let replies = map handle_message (messages ps) in
    (
      subst {A = Bytes} (λ bytes. Cuts bytes replies [])
          (append-nil (serialize_all replies) ∙ sym (sent_all_lem ps))
          (Cuts-serialize_all replies blank 0 (AllFramed-map (messages ps) h) blank-IsFramed
            (omega (arith, length-serialize blank))),
      answered (messages ps),
    )
