-- ===== src/Provider/Instagram/Parse.antt =====
-- `parse` of provider/instagram.rs: what the events of a payload become.
pub mod Routed
pub mod Sided
use chatbridge.Prelude.{
  String, ℕ, Bool, true, false, Option, none, some, List, [], ◌∷◌, ◌++◌, Uuid, Instant, str_eq, not,
  and_then, map_option, unwrap_or, if◌then◌else◌,
}
use Prim.Native.String.{◌++◌ as append}
use chatbridge.Prelude.Json.{Json}
use chatbridge.Prelude.Results.{Result, ok, err}
use chatbridge.Model.{EventKind, message, edit, NewMessage, InstagramConfig, instagram, customer}
use chatbridge.Db.{SqlError, Channel}
use chatbridge.World.{Env, Io, pure, ◌>>=◌}
use chatbridge.Pipeline.Lookup.{get_channel_by_external_key}
use chatbridge.ExternalId.{instagram_id}
use chatbridge.Channels.{AppError, bad_request, of_sql}
use chatbridge.Provider.{Headers, ProfileTask, Parsed, WebhookProvider}
use chatbridge.Provider.Instagram.{
  Participant, MessagingEvent, Entry, MetaWebhookPayload, classify_event, events_of,
  resolve_instagram_client,
}

abbrev pub is_echo : MessagingEvent → Bool
is_echo event = unwrap_or (map_option (λ m. m.is_echo) event.message) false

-- Whose account the event belongs to, and who the customer is.
unfoldable pub sides : MessagingEvent → Option Participant × Option Participant
sides event =
    if is_echo event then (event.sender, event.recipient) else (event.recipient, event.sender)

abbrev text_of : EventKind → MessagingEvent → Option String
text_of message event = and_then event.message (λ m. m.text)
text_of edit event = and_then event.message_edit (λ e. e.text)
text_of _ event = none

-- `mid.unwrap_or(&entry.id)`, and the rest of the `NewMessage`.
unfoldable pub instagram_message :
    (MessagingEvent → Json) → String → MessagingEvent → Uuid → Option Uuid → NewMessage
unfolding classify_event
instagram_message to_json entry_id event channel_id client_id =
    let (kind, mid) = classify_event event in
    record {
      external_message_id = instagram_id (unwrap_or mid entry_id);
      channel_id = channel_id;
      conversation = map_option customer client_id;
      sender_id = if is_echo event then none else client_id;
      sender_type = if is_echo event then "operator" else "client";
      provider = instagram;
      event = kind;
      text = text_of kind event;
      raw = to_json event;
    }

abbrev pub nothing : Parsed
nothing = record { tasks = []; messages = ok [] }

abbrev joined : List ProfileTask → List NewMessage → Parsed → Parsed
joined tasks msgs rest = record {
  tasks = tasks ++ rest.tasks;
  messages = elim rest.messages [ err e ↦ err e | ok more ↦ ok (msgs ++ more) ];
}

-- An error ends the parse, and what was parsed before it is dropped; what was spawned is not.
unfoldable pub followed_by : Parsed → Io Parsed → Io Parsed
followed_by first rest = elim first.messages [
  | err e ↦ pure first
  | ok msgs ↦ do more ← rest; pure (joined first.tasks msgs more)
]

module _ (env : Env) (clock : ℕ → Instant) (to_json : MessagingEvent → Json)
    (parse_config : Json → Result String InstagramConfig) where
  abbrev one_message : String → MessagingEvent → Channel → Option Uuid × List ProfileTask → Parsed
  one_message entry_id event channel (client_id, tasks) = record {
    tasks = tasks;
    messages = ok (instagram_message to_json entry_id event channel.id client_id ∷ []);
  }

  -- After the lookup of the account's channel.
  unfoldable pub in_channel : String → MessagingEvent → Result SqlError (Option Channel) → Io Parsed
  unfolding sides instagram_message
  in_channel entry_id event (err e) = pure (record { tasks = []; messages = err (of_sql e) })
  in_channel entry_id event (ok none) = pure nothing
  in_channel entry_id event (ok (some channel)) = elim (parse_config channel.config) [
    | err e ↦ pure nothing
    | ok config ↦ do
      resolved ← resolve_instagram_client env clock (sides event).1 config.access_token
      pure (one_message entry_id event channel resolved)
  ]

  -- One turn of the loop over the events of an entry.
  unfoldable pub parse_event : String → MessagingEvent → Io Parsed
  unfolding in_channel
  parse_event entry_id event = elim (sides event).0 [
    | none ↦ pure nothing
    | some account ↦
        get_channel_by_external_key env instagram account.id >>= in_channel entry_id event
  ]

  unfoldable pub parse_events : String → List MessagingEvent → Io Parsed
  unfolding parse_event followed_by
  parse_events entry_id [] = pure nothing
  parse_events entry_id (event ∷ events) = do
    first ← parse_event entry_id event
    followed_by first (parse_events entry_id events)

  unfoldable pub parse_entries : List Entry → Io Parsed
  unfolding parse_events events_of
  parse_entries [] = pure nothing
  parse_entries (entry ∷ entries) = do
    first ← parse_events entry.id (events_of entry)
    followed_by first (parse_entries entries)

  module _ (decode : String → Result String MetaWebhookPayload) where
    -- `InstagramProvider::parse`
    unfoldable pub parse : String → Io Parsed
    unfolding parse_entries
    parse body = elim (decode body) [
      | err e ↦ pure (record { tasks = []; messages = err (bad_request e) })
      | ok payload ↦
          if not (str_eq payload.object "instagram")
          then pure (record {
            tasks = [];
            messages = err (bad_request (append "unexpected object: " payload.object));
          })
          else parse_entries payload.entry
    ]

    -- `impl WebhookProvider for InstagramProvider`
    abbrev pub instagram_provider :
        (Headers → String → Result AppError (Unit {0})) → WebhookProvider
    instagram_provider verify = record { verify = verify; parse = parse }
