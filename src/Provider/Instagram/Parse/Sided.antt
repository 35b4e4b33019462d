-- ===== src/Provider/Instagram/Parse/Sided.antt =====
-- On whose side each message of a payload is.
use chatbridge.Prelude.{
  ◌≡◌, refl, String, ℕ, true, Option, none, some, List, [], ◌∷◌, map_option, arith, Uuid, Instant,
  Bool-cases, Option-cases, ◌⊎◌, inl, inr,
}
use chatbridge.Prelude.Json.{Json}
use chatbridge.Prelude.Results.{Result, ok}
use chatbridge.Model.{NewMessage, InstagramConfig, customer}
use chatbridge.World.{Env, World}
use chatbridge.Provider.Instagram.{Message, MessagingEvent, MetaWebhookPayload}
use chatbridge.Provider.Instagram.Parse.{is_echo, instagram_message, parse}
use chatbridge.Provider.Instagram.Parse.Routed.{all_events, handled, Routed, parse-Routed}

module _ (env : Env) (clock : ℕ → Instant) (to_json : MessagingEvent → Json)
    (parse_config : Json → Result String InstagramConfig) where
  abbrev IsEcho : MessagingEvent → Type 0
  IsEcho event = (m : Message) × (event.message ≡ some m) × (m.is_echo ≡ true)

  -- The message of an echo is on the operators' side and of no author; any other is the customer's own.
  abbrev pub IsSided : MessagingEvent → NewMessage → Type 0
  IsSided event m =
      (IsEcho event × (m.sender_type ≡ "operator") × (m.sender_id ≡ none))
      ⊎ ((¬ IsEcho event)
          × (m.sender_type ≡ "client")
          × (map_option customer m.sender_id ≡ m.conversation))

  -- Each message, in order, is sided as one of the events is, and the other events became nothing.
  abbrev pub Sided : List (String × MessagingEvent) → List NewMessage → Type 0
  Sided [] ms = ms ≡ []
  Sided ((_, event) ∷ events) ms =
      Sided events ms
      ⊎ ((m : NewMessage) × (rest : List NewMessage) × (ms ≡ m ∷ rest)
          × IsSided event m
          × Sided events rest)

  marked_message : (event : MessagingEvent) → is_echo event ≡ true → IsEcho event
  marked_message event h = elim (Option-cases event.message) [
    | inl e ↦ absurd (ground (arith, e, h))
    | inr (m, e) ↦ (m, e, ground (arith, e, h))
  ]

  message_sides :
      (entry_id : String) (event : MessagingEvent) (channel_id : Uuid) (client_id : Option Uuid)
      → IsSided event (instagram_message to_json entry_id event channel_id client_id)
  unfolding instagram_message
  message_sides entry_id event channel_id client_id = elim (Bool-cases (is_echo event)) [
    | inl e ↦ rw e (inl (marked_message event e, refl, refl))
    | inr e ↦ rw e (inr ((λ (m, found, echo). ground (arith, e, found, echo)), refl, refl))
  ]

  pub Routed-Sided :
      (w : World) (es : List (String × MessagingEvent)) (ms : List NewMessage)
      → Routed env clock to_json parse_config w es ms
      → Sided es ms
  Routed-Sided w [] ms h = h
  Routed-Sided w ((id, e) ∷ es) ms (inl (why, h)) =
      inl (Routed-Sided (handled env clock to_json parse_config w (id, e)) es ms h)
  Routed-Sided w ((id, e) ∷ es) ms (inr (channel, client_id, rest, same, looked, from, h)) = inr (
    instagram_message to_json id e channel.id client_id,
    rest,
    same,
    message_sides id e channel.id client_id,
    Routed-Sided (handled env clock to_json parse_config w (id, e)) es rest h,
  )

  module _ (decode : String → Result String MetaWebhookPayload) where
    -- The messages of a payload that is parsed are, in order, those of some of its events: that of an
    -- echo is on the operators' side and of no author, and that of any other event is its customer's
    -- own, with the customer as its author if one is known.
    pub parse-IsSided :
        (body : String) (payload : MetaWebhookPayload) (w : World) (ms : List NewMessage)
        → decode body ≡ ok payload
        → (parse env clock to_json parse_config decode body w).0.messages ≡ ok ms
        → Sided (all_events payload.entry) ms
    parse-IsSided body payload w ms good h =
        let (_, routed) =
          parse-Routed env clock to_json parse_config decode body payload w ms good h in
        Routed-Sided w (all_events payload.entry) ms routed
