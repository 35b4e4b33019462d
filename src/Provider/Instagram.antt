-- ===== src/Provider/Instagram.antt =====
-- provider/instagram.rs: webhooks of Instagram accounts. Reading and writing JSON is serde's, the
-- HMAC and the hexadecimal digits are those of the `hmac` and `hex` crates.
pub mod Parse
pub mod Resolved
use Prim.Native.String.{◌++◌ as append}
use chatbridge.Prelude.{
  String, ℕ, Bool, true, false, Option, none, some, List, [], ◌∷◌, ◌++◌, map, Uuid, Instant, select,
  not, and_then, if◌then◌else◌,
}
use chatbridge.Prelude.Ints.{ℤ, pos}
use chatbridge.Prelude.Json.{Json}
use chatbridge.Prelude.Prefixes.{strip_prefix}
use chatbridge.Prelude.Results.{Result, ok, err}
use chatbridge.Model.{EventKind, message, edit, read, reaction, unknown, instagram}
use chatbridge.Db.{SqlError, Client}
use chatbridge.Db.Clients.{upsert_client}
use chatbridge.World.{Env, Io, pure, ◌>>=◌, ◌>>◌, write_db, publish_invalidation}
use chatbridge.Pipeline.Lookup.{get_client}
use chatbridge.Channels.{AppError, forbidden, internal}
use chatbridge.Provider.{Headers, ProfileTask, refresh_if_stale, new_uuid, utc_now}

pub record Participant : Type 0 where
  pub id : String

pub record Message : Type 0 where
  pub mid : String
  pub text : Option String
  pub attachments : Option (List Json)
  pub is_echo : Bool

pub record MessageEdit : Type 0 where
  pub mid : String
  pub text : Option String
  pub num_edit : Option ℤ

pub record ReadReceipt : Type 0 where
  pub mid : Option String

pub record Reaction : Type 0 where
  pub mid : String
  pub action : String
  pub reaction : Option String
  pub emoji : Option String

pub record MessagingEvent : Type 0 where
  pub sender : Option Participant
  pub recipient : Option Participant
  pub timestamp : Option ℤ
  pub message : Option Message
  pub message_edit : Option MessageEdit
  pub read : Option ReadReceipt
  pub reaction : Option Reaction

pub record Change : Type 0 where
  pub field : String
  pub value : MessagingEvent

pub record Entry : Type 0 where
  pub id : String
  pub time : ℤ
  pub messaging : Option (List MessagingEvent)
  pub changes : Option (List Change)
  pub other : List (String × Json)

pub record MetaWebhookPayload : Type 0 where
  pub object : String
  pub entry : List Entry

-- A timestamp as a number, or as text that may be none.
pub data Flexible : Type 0 where
  int : ℤ → Flexible
  str : String → Flexible

-- `deserialize_flexible_timestamp`
unfoldable pub flexible_timestamp : (String → Option ℤ) → Option Flexible → Option ℤ
flexible_timestamp parse_int none = none
flexible_timestamp parse_int (some (int n)) = some n
flexible_timestamp parse_int (some (str s)) = parse_int s

-- `classify_event`
unfoldable pub classify_event : MessagingEvent → EventKind × Option String
classify_event event = elim event.message [
  | some msg ↦ (message, some msg.mid)
  | none ↦ elim event.message_edit [
    | some e ↦ (edit, some e.mid)
    | none ↦ elim event.read [
      | some receipt ↦ (read, receipt.mid)
      | none ↦ elim event.reaction [ some r ↦ (reaction, some r.mid) | none ↦ (unknown, none) ]
    ]
  ]
]

abbrev pub is_unknown : EventKind → Bool
is_unknown unknown = true
is_unknown _ = false

abbrev pub list_of : {A : Type 0} → Option (List A) → List A
list_of none = []
list_of (some xs) = xs

-- Both delivery shapes of an entry, in one list. A change that cannot be interpreted is left out.
unfoldable pub events_of : Entry → List MessagingEvent
unfolding classify_event
events_of entry =
    list_of entry.messaging
    ++ select (λ e. not (is_unknown (classify_event e).0))
        (map (λ c. c.value) (list_of entry.changes))

-- `InstagramProvider::verify`. A digest is compared with the HMAC of the body under the app's secret.
module _ (mac_matches : (secret body : String) → List ℕ → Bool)
    (hex_decode : String → Option (List ℕ)) (app_secret : String) where
  abbrev checked : String → Option (List ℕ) → Result AppError (Unit {0})
  checked body none = err (forbidden "invalid signature hex")
  checked body (some digest) =
      if mac_matches app_secret body digest then ok tt else err (forbidden "signature mismatch")

  unfoldable pub verify : Headers → String → Result AppError (Unit {0})
  verify headers body = elim (and_then (headers "X-Hub-Signature-256") (strip_prefix "sha256=")) [
    | none ↦ err (forbidden "missing X-Hub-Signature-256")
    | some signature ↦ checked body (hex_decode signature)
  ]

module _ (env : Env) (clock : ℕ → Instant) where
  -- `resolve_instagram_client`, of an event that names its customer.
  abbrev task : Uuid → String → String → ProfileTask
  task client_id sid access_token = record {
    client_id = client_id;
    external_id = sid;
    access_token = some access_token;
  }

  -- The row is there before the profile is asked for.
  abbrev stored : String → String → Result SqlError Uuid → Option Uuid × List ProfileTask
  stored sid access_token (err _) = (none, [])
  stored sid access_token (ok id) = (some id, task id sid access_token ∷ [])

  unfoldable pub known_or_new :
      String → String → Result SqlError (Option Client) → Io (Option Uuid × List ProfileTask)
  known_or_new sid access_token (err _) = pure (none, [])
  known_or_new sid access_token (ok none) = do
    client_id ← new_uuid env
    result ← write_db env (λ _ now. upsert_client client_id now instagram sid none none)
    pure (stored sid access_token result)
  known_or_new sid access_token (ok (some client)) = do
    now ← utc_now clock
    pure (some client.id, refresh_if_stale now client (task client.id sid access_token))

  -- `resolve_instagram_client`
  unfoldable pub resolve_instagram_client :
      Option Participant → String → Io (Option Uuid × List ProfileTask)
  unfolding known_or_new
  resolve_instagram_client none access_token = pure (none, [])
  resolve_instagram_client (some sender) access_token =
      get_client env instagram sender.id >>= known_or_new sender.id access_token

-- What the Graph API tells of a profile.
pub record InstagramProfile : Type 0 where
  pub username : Option String
  pub name : Option String

module _ (env : Env) (fetch_profile : (sid access_token : String) → Option InstagramProfile) where
  -- Only a row that was written is announced.
  announce_client : Uuid → Result SqlError Uuid → Io (Unit {0})
  announce_client client_id (err _) = pure tt
  announce_client client_id (ok _) = publish_invalidation env "client" client_id

  -- `fetch_and_upsert_instagram_client`: the row is written whatever the API answered, `none` being
  -- any failure.
  unfoldable pub fetch_and_upsert : Uuid → String → String → Io (Unit {0})
  unfolding announce_client
  fetch_and_upsert client_id sid access_token =
      let profile = fetch_profile sid access_token in
      write_db env (λ _ now.
        upsert_client client_id now instagram sid (and_then profile (λ p. p.name))
          (and_then profile (λ p. p.username)))
      >>= announce_client client_id
