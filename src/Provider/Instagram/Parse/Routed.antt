-- ===== src/Provider/Instagram/Parse/Routed.antt =====
-- Which events of a payload become messages, in what order, and on whose side.
use mathlib.Core.Path.{subst}
use chatbridge.Prelude.{
  ◌∙◌, ◌≡◌, refl, String, ℕ, true, Option, none, some, List, [], ◌∷◌, ◌++◌, map, length, ◌≤◌, arith,
  Uuid, Instant, str_eq, Bool-cases, Option-cases, ◌⊎◌, inl, inr,
}
use chatbridge.Prelude.Json.{Json}
use chatbridge.Prelude.Results.{Result, Result-cases, ok, err}
use chatbridge.Model.{NewMessage, InstagramConfig, instagram}
use chatbridge.Db.{SqlError, Channel}
use chatbridge.World.{Env, World, Io}
use chatbridge.Pipeline.Lookup.{get_channel_by_external_key}
use chatbridge.Provider.{Parsed}
use chatbridge.Provider.Instagram.{
  Participant, MessagingEvent, Entry, MetaWebhookPayload, events_of, resolve_instagram_client,
}
use chatbridge.Provider.Instagram.Parse.{
  sides, instagram_message, in_channel, parse_event, followed_by, parse_events, parse_entries,
  parse,
}

-- The events of a payload with the ids of their entries, in the order in which they are handled.
abbrev pub all_events : List Entry → List (String × MessagingEvent)
all_events [] = []
all_events (entry ∷ entries) = map (λ e. (entry.id, e)) (events_of entry) ++ all_events entries

-- The parts of a joined result.
followed_by-ok :
    (first : Parsed) (rest : Io Parsed) (w : World) (ms : List NewMessage)
    → (followed_by first rest w).0.messages ≡ ok ms
    → (a b : List NewMessage) × (first.messages ≡ ok a)
      × ((rest w).0.messages ≡ ok b)
      × (ms ≡ a ++ b)
      × ((followed_by first rest w).1 ≡ (rest w).1)
unfolding followed_by
followed_by-ok first rest w ms h = elim (Result-cases first.messages) [
  | inr (e, bad) ↦ absurd (ground arith)
  | inl (a, good) ↦ elim (Result-cases (rest w).0.messages) [
    | inr (e, bad) ↦ absurd (ground arith)
    | inl (b, fine) ↦ (a, b, good, fine, ground arith, rw (good, followed_by) refl)
  ]
]

module _ (env : Env) (clock : ℕ → Instant) (to_json : MessagingEvent → Json)
    (parse_config : Json → Result String InstagramConfig) where
  -- What the replica answers, when the event's turn comes, of the channel of the event's account.
  abbrev pub Looked : World → MessagingEvent → Option Channel → Type 0
  Looked w event found =
      (account : Participant) × ((sides event).0 ≡ some account)
      × ((get_channel_by_external_key env instagram account.id w).0 ≡ ok found)

  -- Why an event becomes nothing: it names no account, or the account has no live channel, or the
  -- channel has no config that can be read.
  abbrev pub IsUnroutable : World → MessagingEvent → Type 0
  IsUnroutable w event =
      ((sides event).0 ≡ none)
      ⊎ (Looked w event none
          ⊎ ((channel : Channel) × (e : String) × Looked w event (some channel)
              × (parse_config channel.config ≡ err e)))

  -- Who the customer of the event is, as resolved after that lookup with the channel's token.
  abbrev pub IsFrom : World → MessagingEvent → Channel → Option Uuid → Type 0
  IsFrom w event channel client_id =
      (account : Participant) × ((sides event).0 ≡ some account)
      × (config : InstagramConfig) × (parse_config channel.config ≡ ok config)
      × ((resolve_instagram_client env clock (sides event).1 config.access_token
            (get_channel_by_external_key env instagram account.id w).1).0.0
          ≡ client_id)

  abbrev pub handled : World → String × MessagingEvent → World
  handled w (entry_id, event) = (parse_event env clock to_json parse_config entry_id event w).1

  abbrev reached : World → List (String × MessagingEvent) → World
  reached w [] = w
  reached w (e ∷ es) = reached (handled w e) es

  -- The messages are those of the events, in order, one for each event but the unroutable.
  abbrev pub Routed : World → List (String × MessagingEvent) → List NewMessage → Type 0
  Routed w [] ms = ms ≡ []
  Routed w ((entry_id, event) ∷ events) ms =
      (IsUnroutable w event × Routed (handled w (entry_id, event)) events ms)
      ⊎ ((channel : Channel) × (client_id : Option Uuid) × (rest : List NewMessage) × (ms
            ≡ instagram_message to_json entry_id event channel.id client_id ∷ rest)
          × Looked w event (some channel)
          × IsFrom w event channel client_id
          × Routed (handled w (entry_id, event)) events rest)

  Routed-append :
      (w : World) (es fs : List (String × MessagingEvent)) (ms ns : List NewMessage)
      → Routed w es ms
      → Routed (reached w es) fs ns
      → Routed w (es ++ fs) (ms ++ ns)
  Routed-append w [] fs ms ns h k = rw h k
  Routed-append w (e ∷ es) fs ms ns (inl (why, h)) k =
      inl (why, Routed-append (handled w e) es fs ms ns h k)
  Routed-append w (e ∷ es) fs ms ns (inr (channel, client_id, rest, same, looked, from, h)) k =
      inr (
        channel,
        client_id,
        rest ++ ns,
        rw same refl,
        looked,
        from,
        Routed-append (handled w e) es fs rest ns h k,
      )

  reached-append :
      (w : World) (es fs : List (String × MessagingEvent))
      → reached w (es ++ fs) ≡ reached (reached w es) fs
  reached-append w [] fs = refl
  reached-append w (e ∷ es) fs = reached-append (handled w e) es fs

  -- What one event becomes.
  One : World → String → MessagingEvent → List NewMessage → Type 0
  One w entry_id event ms =
      (IsUnroutable w event × (ms ≡ []))
      ⊎ ((channel : Channel) × (client_id : Option Uuid) × (ms
            ≡ instagram_message to_json entry_id event channel.id client_id ∷ [])
          × Looked w event (some channel)
          × IsFrom w event channel client_id)

  in_channel-One :
      (entry_id : String) (event : MessagingEvent) (account : Participant)
      (r : Result SqlError (Option Channel)) (w : World) (ms : List NewMessage)
      → (sides event).0 ≡ some account
      → (get_channel_by_external_key env instagram account.id w).0 ≡ r
      → (in_channel env clock to_json parse_config entry_id event r
          (get_channel_by_external_key env instagram account.id w).1).0.messages
        ≡ ok ms
      → One w entry_id event ms
  unfolding in_channel One
  in_channel-One entry_id event account (err e) w ms at_account looked h = absurd (ground arith)
  in_channel-One entry_id event account (ok none) w ms at_account looked h =
      inl (inr (inl (account, at_account, looked)), ground arith)
  in_channel-One entry_id event account (ok (some channel)) w ms at_account looked h =
      elim (Result-cases (parse_config channel.config)) [
        | inr (e, bad) ↦
            inl (inr (inr (channel, e, (account, at_account, looked), bad)), ground arith)
        | inl (config, good) ↦
            let v = (get_channel_by_external_key env instagram account.id w).1 in
            let resolved =
              (resolve_instagram_client env clock (sides event).1 config.access_token v).0 in
            inr (
              channel,
              resolved.0,
              ground arith,
              (account, at_account, looked),
              (account, at_account, config, good, refl),
            )
      ]

  parse_event-One :
      (entry_id : String) (event : MessagingEvent) (w : World) (ms : List NewMessage)
      → (parse_event env clock to_json parse_config entry_id event w).0.messages ≡ ok ms
      → One w entry_id event ms
  unfolding parse_event One
  parse_event-One entry_id event w ms h = elim (Option-cases (sides event).0) [
    | inl e ↦ inl (inl e, ground arith)
    | inr (account, e) ↦
        in_channel-One entry_id event account
          (get_channel_by_external_key env instagram account.id w).0 w ms e refl (ground arith)
  ]

  parse_event-Routed :
      (entry_id : String) (event : MessagingEvent) (w : World) (ms : List NewMessage)
      → (parse_event env clock to_json parse_config entry_id event w).0.messages ≡ ok ms
      → Routed w ((entry_id, event) ∷ []) ms
  unfolding One
  parse_event-Routed entry_id event w ms h = elim (parse_event-One entry_id event w ms h) [
    | inl (why, none_left) ↦ inl (why, none_left)
    | inr (channel, client_id, same, looked, from) ↦
        inr (channel, client_id, [], same, looked, from, refl)
  ]

  parse_events-Routed :
      (entry_id : String) (events : List MessagingEvent) (w : World) (ms : List NewMessage)
      → (parse_events env clock to_json parse_config entry_id events w).0.messages ≡ ok ms
      → Routed w (map (λ e. (entry_id, e)) events) ms
        × ((parse_events env clock to_json parse_config entry_id events w).1
            ≡ reached w (map (λ e. (entry_id, e)) events))
  unfolding parse_events
  parse_events-Routed entry_id [] w ms h = (ground arith, refl)
  parse_events-Routed entry_id (event ∷ events) w ms h =
      let first = parse_event env clock to_json parse_config entry_id event w in
      let (a, b, ha, hb, same, world) =
        followed_by-ok first.0 (parse_events env clock to_json parse_config entry_id events) first.1
          ms h in
      let (routed, arrived) = parse_events-Routed entry_id events first.1 b hb in
      (
        rw same (
            Routed-append w ((entry_id, event) ∷ []) (map (λ e. (entry_id, e)) events) a b
              (parse_event-Routed entry_id event w a ha) routed),
        world ∙ arrived,
      )

  parse_entries-Routed :
      (entries : List Entry) (w : World) (ms : List NewMessage)
      → (parse_entries env clock to_json parse_config entries w).0.messages ≡ ok ms
      → Routed w (all_events entries) ms
  unfolding parse_entries
  parse_entries-Routed [] w ms h = ground arith
  parse_entries-Routed (entry ∷ entries) w ms h =
      let first = parse_events env clock to_json parse_config entry.id (events_of entry) w in
      let (a, b, ha, hb, same, _) =
        followed_by-ok first.0 (parse_entries env clock to_json parse_config entries) first.1 ms
          h in
      let (routed, arrived) = parse_events-Routed entry.id (events_of entry) w a ha in
      rw same (
        Routed-append w (map (λ e. (entry.id, e)) (events_of entry)) (all_events entries) a b routed
          (subst (λ v. Routed v (all_events entries) b) arrived
            (parse_entries-Routed entries first.1 b hb)))

  module _ (decode : String → Result String MetaWebhookPayload) where
    pub parse-Routed :
        (body : String) (payload : MetaWebhookPayload) (w : World) (ms : List NewMessage)
        → decode body ≡ ok payload
        → (parse env clock to_json parse_config decode body w).0.messages ≡ ok ms
        → (str_eq payload.object "instagram" ≡ true) × Routed w (all_events payload.entry) ms
    unfolding parse
    parse-Routed body payload w ms decoded h =
        elim (Bool-cases (str_eq payload.object "instagram")) [
          | inl e ↦ (e, parse_entries-Routed payload.entry w ms (ground arith))
          | inr e ↦ absurd (ground arith)
        ]

  pub Routed-length :
      (w : World) (es : List (String × MessagingEvent)) (ms : List NewMessage)
      → Routed w es ms
      → length ms ≤ length es
  Routed-length w [] ms h = rw h (omega arith)
  Routed-length w (e ∷ es) ms (inl (why, h)) = omega (arith, Routed-length (handled w e) es ms h)
  Routed-length w (e ∷ es) ms (inr (channel, client_id, rest, same, looked, from, h)) =
      rw same (omega (arith, Routed-length (handled w e) es rest h))

  module _ (decode : String → Result String MetaWebhookPayload) where
    -- A payload gives at most one message for each of its events.
    pub parse-length :
        (body : String) (payload : MetaWebhookPayload) (w : World) (ms : List NewMessage)
        → decode body ≡ ok payload
        → (parse env clock to_json parse_config decode body w).0.messages ≡ ok ms
        → length ms ≤ length (all_events payload.entry)
    parse-length body payload w ms good h =
        let (_, routed) = parse-Routed decode body payload w ms good h in
        Routed-length w (all_events payload.entry) ms routed
