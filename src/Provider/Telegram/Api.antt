-- ===== src/Provider/Telegram/Api.antt =====
-- The calls of the Bot API in provider/telegram.rs: how an answer is read. The HTTP exchange is a
-- parameter, by what it ended with; decoding a type is serde's.
use Prim.Native.String.{◌++◌ as append}
use chatbridge.Prelude.{
  ◌≡◌, refl, String, true, false, Option, none, some, arith, and_then, unwrap_or, Option-cases, inl,
  inr,
}
use chatbridge.Prelude.Ints.{ℤ}
use chatbridge.Prelude.Json.{Json, null, text, object, member, end, get, as_bool, as_str}
use chatbridge.Prelude.Results.{Result, Result-cases, ok, err}
use chatbridge.Provider.Telegram.{TelegramChat}

pub data OutboundMessage : Type 0 where
  text_message : String → OutboundMessage

pub record SentMessage : Type 0 where
  pub message_id : ℤ
  pub chat : TelegramChat

-- What an exchange ends with.
pub data Response : Type 0 where
  unreachable unreadable : (reason : String) → Response
  answered : Json → Response

-- `call`: the `result` of an answer that is `ok`, or its description.
unfoldable pub call : Response → Result String Json
call (unreachable reason) = err (append "HTTP request failed: " reason)
call (unreadable reason) = err (append "failed to parse response: " reason)
call (answered json) = elim (and_then (get "ok" json) as_bool) [
  | some true ↦ ok (unwrap_or (get "result" json) null)
  | some false ↦ err (unwrap_or (and_then (get "description" json) as_str) "unknown error")
  | none ↦ err (unwrap_or (and_then (get "description" json) as_str) "unknown error")
]

-- An answer that is taken says that it is `ok`.
call-answered :
    (r : Response) (result : Json)
    → call r ≡ ok result
    → (json : Json) × (r ≡ answered json)
      × (and_then (get "ok" json) as_bool ≡ some true)
      × (result ≡ unwrap_or (get "result" json) null)
unfolding call
call-answered (unreachable reason) result h = absurd (ground arith)
call-answered (unreadable reason) result h = absurd (ground arith)
call-answered (answered json) result h = elim (Option-cases (and_then (get "ok" json) as_bool)) [
  | inl e ↦ absurd (ground arith)
  | inr (false, e) ↦ absurd (ground arith)
  | inr (true, e) ↦ (json, refl, e, ground arith)
]

abbrev read_as :
    {A : Type 0} → String → (Json → Result String A) → Result String Json → Result String A
read_as context decode (err e) = err e
read_as context decode (ok json) = elim (decode json) [
  | err e ↦ err (append context e)
  | ok a ↦ ok a
]

-- The exchange is over the address and the body, where one is posted.
module _ (exchange : (url : String) → Option Json → Response) (base : String) where
  abbrev method_url : String → String → String
  method_url bot_token method = append base (append "/bot" (append bot_token (append "/" method)))

  -- `get_me`, `get_webhook_info`: a GET whose result is decoded.
  unfoldable pub get_me : {A : Type 0} → (Json → Result String A) → String → Result String A
  unfolding call
  get_me decode bot_token =
      read_as "unexpected getMe response: " decode
        (call (exchange (method_url bot_token "getMe") none))

  unfoldable pub get_webhook_info :
      {A : Type 0} → (Json → Result String A) → String → Result String A
  unfolding call
  get_webhook_info decode bot_token =
      read_as "unexpected getWebhookInfo response: " decode
        (call (exchange (method_url bot_token "getWebhookInfo") none))

  abbrev done : Result String Json → Result String (Unit {0})
  done (err e) = err e
  done (ok _) = ok tt

  -- `set_webhook`
  unfoldable pub set_webhook : (bot_token url secret : String) → Result String (Unit {0})
  unfolding call
  set_webhook bot_token url secret =
      let body = object (member "url" (text url) (member "secret_token" (text secret) end)) in
      done (call (exchange (method_url bot_token "setWebhook") (some body)))

  -- `delete_webhook`
  unfoldable pub delete_webhook : String → Result String (Unit {0})
  unfolding call
  delete_webhook bot_token =
      done (call (exchange (method_url bot_token "deleteWebhook") (some (object end))))

  module _ (decode : Json → Result String SentMessage) where
    -- `send`
    unfoldable pub send : (bot_token chat_id : String) → OutboundMessage → Result String SentMessage
    unfolding call
    send bot_token chat_id (text_message body) =
        let posted = object (member "chat_id" (text chat_id) (member "text" (text body) end)) in
        read_as "unexpected sendMessage response: " decode
          (call (exchange (method_url bot_token "sendMessage") (some posted)))

    -- A message counts as sent only if Telegram answered the one request that posts it with an `ok` that
    -- is true and with a message.
    pub send-answered :
        (bot_token chat_id body : String) (sent : SentMessage)
        → send bot_token chat_id (text_message body) ≡ ok sent
        → (json : Json) × (exchange
              (method_url bot_token "sendMessage")
              (some (object (member "chat_id" (text chat_id) (member "text" (text body) end))))
            ≡ answered json)
          × (and_then (get "ok" json) as_bool ≡ some true)
          × (decode (unwrap_or (get "result" json) null) ≡ ok sent)
    unfolding send
    send-answered bot_token chat_id body sent h =
        let posted = object (member "chat_id" (text chat_id) (member "text" (text body) end)) in
        let response = exchange (method_url bot_token "sendMessage") (some posted) in
        elim (Result-cases (call response)) [
          | inr (e, k) ↦ absurd (ground arith)
          | inl (result, k) ↦
              let (json, answered_by, fine, same) = call-answered response result k in
              elim (Result-cases (decode result)) [
                | inr (e, k') ↦ absurd (ground arith)
                | inl (m, k') ↦ (json, answered_by, fine, ground arith)
              ]
        ]
