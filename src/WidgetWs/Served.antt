-- ===== src/WidgetWs/Served.antt =====
-- What a widget's connection does for the widget: it answers, it forwards, and it stays.
use Prim.Native.String.{◌++◌ as append}
use chatbridge.Prelude.{
  ◌≡◌, refl, ◌∙◌, sym, ap, ℕ, String, Bool, true, Option, none, some, List, [], ◌∷◌, ◌++◌, Uuid,
  All,
}
use chatbridge.Prelude.Json.{Json}
use chatbridge.Prelude.Results.{Result, ok, err}
use chatbridge.Model.{message, WsInbound, WsOutbound, ack, error, event_of_action}
use chatbridge.World.{Env, World}
use chatbridge.Pipeline.Persist.{persist_and_publish}
use chatbridge.Pipeline.Events.{Outcome, persist_and_publish-Outcome}
use chatbridge.WidgetWs.{
  text, close, pong, other, Received, frame, recv_error, ended, Turn, payload, unregistered,
  received, idle, shutdown, Sent, outbound, forwarded, ping, bye, SendOutcome, sent, Conn, Ws,
  widget_message, store, by_kind, reply, send, send_outbound, answer, process_text_message,
  await_pong, on_received, turn, loop, go_on,
}

-- The payloads of the registry among what was sent.
abbrev pub forwards : List Sent → List String
forwards [] = []
forwards (forwarded p ∷ ss) = p ∷ forwards ss
forwards (outbound _ ∷ ss) = forwards ss
forwards (ping ∷ ss) = forwards ss
forwards (bye ∷ ss) = forwards ss

forwards-append : (xs ys : List Sent) → forwards (xs ++ ys) ≡ forwards xs ++ forwards ys
forwards-append [] ys = refl
forwards-append (forwarded p ∷ xs) ys = ap (λ r. p ∷ r) (forwards-append xs ys)
forwards-append (outbound _ ∷ xs) ys = forwards-append xs ys
forwards-append (ping ∷ xs) ys = forwards-append xs ys
forwards-append (bye ∷ xs) ys = forwards-append xs ys

append_nil : {A : Type 0} (xs : List A) → xs ++ [] ≡ xs
append_nil [] = refl
append_nil (x ∷ xs) = ap (λ r. x ∷ r) (append_nil xs)

append_assoc : {A : Type 0} (xs ys zs : List A) → (xs ++ ys) ++ zs ≡ xs ++ (ys ++ zs)
append_assoc [] ys zs = refl
append_assoc (x ∷ xs) ys zs = ap (λ r. x ∷ r) (append_assoc xs ys zs)

-- What the registry handed to the session.
abbrev pub payloads : List Turn → List String
payloads [] = []
payloads (payload p ∷ ts) = p ∷ payloads ts
payloads (unregistered ∷ ts) = payloads ts
payloads (received _ ∷ ts) = payloads ts
payloads (idle _ ∷ ts) = payloads ts
payloads (shutdown ∷ ts) = payloads ts

-- Nothing that says goodbye: a frame that is not a close.
abbrev pub IsTalk : Received → Type 0
IsTalk (frame close) = ⊥
IsTalk (frame (text _)) = Unit
IsTalk (frame pong) = Unit
IsTalk (frame other) = Unit
IsTalk recv_error = ⊥
IsTalk ended = ⊥

-- A pong comes before the deadline, and no goodbye before it.
abbrev pub IsAwake : List Received → Type 0
IsAwake [] = ⊥
IsAwake (frame pong ∷ _) = Unit
IsAwake (frame (text _) ∷ rs) = IsAwake rs
IsAwake (frame other ∷ rs) = IsAwake rs
IsAwake (frame close ∷ _) = ⊥
IsAwake (recv_error ∷ _) = ⊥
IsAwake (ended ∷ _) = ⊥

-- A turn that is no reason to end the session.
abbrev pub IsPeaceful : Turn → Type 0
IsPeaceful (payload _) = Unit
IsPeaceful (received r) = IsTalk r
IsPeaceful (idle rs) = IsAwake rs
IsPeaceful unregistered = ⊥
IsPeaceful shutdown = ⊥

payloads_cons : (t : Turn) (ts : List Turn) → payloads (t ∷ []) ++ payloads ts ≡ payloads (t ∷ ts)
payloads_cons (payload p) ts = refl
payloads_cons unregistered ts = refl
payloads_cons (received r) ts = refl
payloads_cons (idle rs) ts = refl
payloads_cons shutdown ts = refl

module _ (env : Env) (print_uuid : Uuid → String) (decode : String → Result String WsInbound)
    (to_json : WsInbound → Json) where
  store-acks :
      (channel_id client_id : Uuid) (inbound : WsInbound) (w : World)
      → event_of_action inbound.action ≡ message
      → let (answered, w') = store env print_uuid decode to_json channel_id client_id inbound w in
        let msg = widget_message env print_uuid decode to_json channel_id client_id inbound in
        (id : Option Uuid) × (answered ≡ some (ack inbound.mid id)) × Outcome env msg w id w'
  unfolding store
  store-acks channel_id client_id inbound w kind =
      let msg = widget_message env print_uuid decode to_json channel_id client_id inbound in
      (
        (persist_and_publish env msg w).0,
        refl,
        persist_and_publish-Outcome env msg w (unfold widget_message in kind),
      )

  reply_stores :
      (channel_id client_id : Uuid) (body : String) (inbound : WsInbound) (w : World)
      → decode body ≡ ok inbound
      → event_of_action inbound.action ≡ message
      → reply env print_uuid decode to_json channel_id client_id body w
        ≡ store env print_uuid decode to_json channel_id client_id inbound w
  unfolding reply by_kind
  reply_stores channel_id client_id body inbound w decoded kind =
      ap (λ r. read_as r) decoded
      ∙ ap (λ k. by_kind env print_uuid decode to_json channel_id client_id k inbound w) kind
    where
      read_as : Result String WsInbound → Option WsOutbound × World
      read_as (err e) = (some (error (append "invalid message: " e)), w)
      read_as (ok i) =
          by_kind env print_uuid decode to_json channel_id client_id (event_of_action i.action) i w

  -- A message of the widget is acknowledged under the id that it has there, with the id of its row if
  -- one was stored, of which one event was then handed to Redis, or without an id and with no event.
  pub reply-acks :
      (channel_id client_id : Uuid) (body : String) (inbound : WsInbound) (w : World)
      → decode body ≡ ok inbound
      → event_of_action inbound.action ≡ message
      → let (answered, w') = reply env print_uuid decode to_json channel_id client_id body w in
        let msg = widget_message env print_uuid decode to_json channel_id client_id inbound in
        (id : Option Uuid) × (answered ≡ some (ack inbound.mid id)) × Outcome env msg w id w'
  reply-acks channel_id client_id body inbound w decoded kind =
      rw (reply_stores channel_id client_id body inbound w decoded kind)
        (store-acks channel_id client_id inbound w kind)

  module _ (sends : ℕ → SendOutcome) (works : (n : ℕ) → sends n ≡ sent)
      (channel_id client_id : Uuid) where
    -- The action goes on, and forwards these.
    Serves : List String → Ws Bool → Type 0
    Serves ps m = (c : Conn) → ((m c).0 ≡ true) × (forwards (m c).1.sent ≡ forwards c.sent ++ ps)

    send-Serves :
        (s : Sent) (c : Conn)
        → ((send env print_uuid decode to_json sends s c).0 ≡ sent)
          × (forwards (send env print_uuid decode to_json sends s c).1.sent
              ≡ forwards c.sent ++ forwards (s ∷ []))
    unfolding send
    send-Serves s c = (works _, forwards-append c.sent (s ∷ []))

    answer-Serves :
        (r : Option WsOutbound) → Serves [] (answer env print_uuid decode to_json sends r)
    unfolding answer send_outbound Serves
    answer-Serves none c = (refl, sym (append_nil (forwards c.sent)))
    answer-Serves (some msg) c =
        let (fine, same) = send-Serves (outbound msg) c in (rw fine refl, same)

    process_text_message-Serves :
        (body : String)
        → Serves []
            (process_text_message env print_uuid decode to_json sends channel_id client_id body)
    unfolding process_text_message Serves
    process_text_message-Serves body c =
        let r = reply env print_uuid decode to_json channel_id client_id body c.world in
        unfold Serves in answer-Serves r.0 (record c { world = r.1 })

    Serves-then :
        (ps qs : List String) (m k : Ws Bool)
        → Serves ps m
        → Serves qs k
        → Serves (ps ++ qs) (λ c. go_on (m c).0 k (m c).1)
    unfolding Serves go_on
    Serves-then ps qs m k first next c =
        let (alive, forth) = first c in
        let (on, further) = next (m c).1 in
        rw alive (on, further ∙ ap (λ xs. xs ++ qs) forth ∙ append_assoc (forwards c.sent) ps qs)

    await_pong-Serves :
        (rs : List Received)
        → IsAwake rs
        → Serves [] (await_pong env print_uuid decode to_json sends channel_id client_id rs)
    unfolding await_pong Serves
    await_pong-Serves [] h c = absurd h
    await_pong-Serves (frame close ∷ rs) h c = absurd h
    await_pong-Serves (recv_error ∷ rs) h c = absurd h
    await_pong-Serves (ended ∷ rs) h c = absurd h
    await_pong-Serves (frame pong ∷ rs) h c = (refl, sym (append_nil (forwards c.sent)))
    await_pong-Serves (frame (text body) ∷ rs) h c =
        Serves-then [] []
          (process_text_message env print_uuid decode to_json sends channel_id client_id body)
          (await_pong env print_uuid decode to_json sends channel_id client_id rs)
          (process_text_message-Serves body) (await_pong-Serves rs h) c
    await_pong-Serves (frame other ∷ rs) h c = await_pong-Serves rs h c

    turn-Serves :
        (t : Turn)
        → IsPeaceful t
        → Serves
            (payloads (t ∷ []))
            (turn env print_uuid decode to_json sends channel_id client_id t)
    unfolding turn on_received Serves
    turn-Serves unregistered h c = absurd h
    turn-Serves (received (frame close)) h c = absurd h
    turn-Serves (received recv_error) h c = absurd h
    turn-Serves (received ended) h c = absurd h
    turn-Serves shutdown h c = absurd h
    turn-Serves (payload p) h c =
        let (fine, same) = send-Serves (forwarded p) c in (rw fine refl, same)
    turn-Serves (received (frame (text body))) h c = process_text_message-Serves body c
    turn-Serves (received (frame pong)) h c = (refl, sym (append_nil (forwards c.sent)))
    turn-Serves (received (frame other)) h c = (refl, sym (append_nil (forwards c.sent)))
    turn-Serves (idle rs) h c =
        let (fine, same) = send-Serves ping c in
        let after = (send env print_uuid decode to_json sends ping c).1 in
        let (on, further) = await_pong-Serves rs h after in
        rw fine (on, further ∙ ap (λ xs. xs ++ []) same ∙ append_assoc (forwards c.sent) [] [])

    looped :
        (ts : List Turn)
        → All IsPeaceful ts
        → Serves (payloads ts) (loop env print_uuid decode to_json sends channel_id client_id ts)
    unfolding loop
    looped [] h = unfold Serves in λ c. (refl, sym (append_nil (forwards c.sent)))
    looped (t ∷ ts) (here, later) = rw (sym (payloads_cons t ts)) (
        Serves-then (payloads (t ∷ [])) (payloads ts)
          (turn env print_uuid decode to_json sends channel_id client_id t)
          (loop env print_uuid decode to_json sends channel_id client_id ts) (turn-Serves t here)
          (looped ts later))

    -- While the sends succeed, the registry, the socket and the server stay up, nobody says goodbye, and
    -- in each idle spell a pong comes before the deadline, the session goes on and forwards every payload
    -- of the registry in order, however many messages and idle spells come in between.
    pub loop-Serves :
        (ts : List Turn) (c : Conn)
        → All IsPeaceful ts
        → ((loop env print_uuid decode to_json sends channel_id client_id ts c).0 ≡ true)
          × (forwards (loop env print_uuid decode to_json sends channel_id client_id ts c).1.sent
              ≡ forwards c.sent ++ payloads ts)
    unfolding Serves
    loop-Serves ts c h = looped ts h c
