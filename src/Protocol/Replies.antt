-- ===== src/Protocol/Replies.antt =====
-- server/protocol/listener.go: the reply to a message. The handlers are not implemented: each answers
-- with a fixed text, in UTF-8. What is logged is left out.
use xmongodb.Common.{
  Option, none, some, ℕ, ◌+◌, ◌%◌, ◌^◌, ◌<◌, ◌≡◌, refl, sym, ap, ◌∙◌, [], ◌∷◌, ◌++◌, arith, done,
  length, ◌==◌, if◌then◌else◌,
}
use xmongodb.Bytes.{Bytes}
use xmongodb.Protocol.{Package, message_package, other_package, Message, message, serialize, read}
use xmongodb.Protocol.Frames.{IsFramed, read-serialize, length-serialize}

abbrev pub op_reply : ℕ
op_reply = 1

-- `generateRequestID`
abbrev pub generate_request_id : ℕ
generate_request_id = 1

-- `createSuccessResponse`, and `createErrorResponse` on the bytes of its text.
unfoldable pub create_response : Message → Bytes → Message
create_response request text = record {
  header = record {
    message_length = (16 + length text) % 2 ^ 32;
    request_id = generate_request_id;
    response_to = request.header.request_id;
    op_code = op_reply;
  };
  body = text;
  op_code = op_reply;
}

abbrev pub query_result : Bytes
query_result = 230 ∷ 159 ∷ 165 ∷ 232 ∷ 175 ∷ 162 ∷ 231 ∷ 187 ∷ 147 ∷ 230 ∷ 158 ∷ 156 ∷ []

abbrev pub inserted : Bytes
inserted = 230 ∷ 143 ∷ 146 ∷ 229 ∷ 133 ∷ 165 ∷ 230 ∷ 136 ∷ 144 ∷ 229 ∷ 138 ∷ 159 ∷ []

abbrev pub updated : Bytes
updated = 230 ∷ 155 ∷ 180 ∷ 230 ∷ 150 ∷ 176 ∷ 230 ∷ 136 ∷ 144 ∷ 229 ∷ 138 ∷ 159 ∷ []

abbrev pub deleted : Bytes
deleted = 229 ∷ 136 ∷ 160 ∷ 233 ∷ 153 ∷ 164 ∷ 230 ∷ 136 ∷ 144 ∷ 229 ∷ 138 ∷ 159 ∷ []

abbrev pub command_done : Bytes
command_done =
    229 ∷ 145 ∷ 189 ∷ 228 ∷ 187 ∷ 164 ∷ 230 ∷ 137 ∷ 167 ∷ 232 ∷ 161 ∷ 140 ∷ 230 ∷ 136 ∷ 144 ∷ 229
    ∷ 138 ∷ 159 ∷ []

abbrev pub message_done : Bytes
message_done =
    230 ∷ 182 ∷ 136 ∷ 230 ∷ 129 ∷ 175 ∷ 229 ∷ 164 ∷ 132 ∷ 231 ∷ 144 ∷ 134 ∷ 230 ∷ 136 ∷ 144 ∷ 229
    ∷ 138 ∷ 159 ∷ []

abbrev pub not_supported : Bytes
not_supported =
    228 ∷ 184 ∷ 141 ∷ 230 ∷ 148 ∷ 175 ∷ 230 ∷ 140 ∷ 129 ∷ 231 ∷ 154 ∷ 132 ∷ 230 ∷ 147 ∷ 141 ∷ 228
    ∷ 189 ∷ 156 ∷ []

-- `handleMessage` and the handlers that it calls.
unfoldable pub reply_text : ℕ → Bytes
reply_text code =
    if code == 2004
    then query_result
    else if code == 2002
    then inserted
    else if code == 2001
    then updated
    else if code == 2006
    then deleted
    else if code == 2010
    then command_done
    else if code == 2013
    then message_done
    else not_supported

unfoldable pub handle_message : Message → Message
unfolding create_response reply_text
handle_message request = create_response request (reply_text request.op_code)

-- `OnMessage`: what it hands to `session.WritePkg`, if anything. The error of `WritePkg` is only logged.
unfoldable pub on_message : Package → Option Package
unfolding handle_message
on_message (message_package m) = some (message_package (handle_message m))
on_message other_package = none

reply_text-short : (code : ℕ) → length (reply_text code) < 32
unfolding reply_text
reply_text-short code = ground arith

pub handle_message-IsFramed :
    (request : Message) → request.header.request_id < 2 ^ 32 → IsFramed (handle_message request)
unfolding handle_message create_response
handle_message-IsFramed request h =
    let short = reply_text-short request.op_code in
    record {
      exact = omega (arith, short);
      short = omega (arith, short);
      request = omega arith;
      response = h;
      code = omega arith;
      same_code = refl;
    }

-- A client that reads the bytes of the reply to a message whose request identifier fits in an int32
-- gets one message that takes all of those bytes, whatever follows, and that answers that request.
pub read-handle_message :
    (request : Message) (rest : Bytes)
    → request.header.request_id < 2 ^ 32
    → (read (serialize (handle_message request) ++ rest)
        ≡ done (message (handle_message request) (length (serialize (handle_message request)))))
      × ((handle_message request).header.response_to ≡ request.header.request_id)
unfolding handle_message create_response
read-handle_message request rest h =
    let framed = handle_message-IsFramed request h in
    (
      read-serialize (handle_message request) rest framed
          ∙ ap (λ n. done (message (handle_message request) n))
              (framed.exact ∙ sym (length-serialize (handle_message request))),
      refl,
    )
