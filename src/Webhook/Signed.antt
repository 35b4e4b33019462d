-- ===== src/Webhook/Signed.antt =====
-- What a webhook has to carry before anything is done for it.
use Prim.Native.String.{◌++◌ as append}
use chatbridge.Prelude.{
  ◌≡◌, ℕ, String, Bool, true, Option, none, some, List, arith, Uuid, inl, inr, ◌⊎◌, Option-cases,
  Bool-cases, eq_iff, Instant, str_eq,
}
use chatbridge.Prelude.Ints.{ℤ}
use chatbridge.Prelude.Json.{Json}
use chatbridge.Prelude.Prefixes.{strip_prefix, strip_prefix_sound}
use chatbridge.Prelude.Results.{Result, Result-cases, ok}
use chatbridge.Model.{TelegramConfig}
use chatbridge.Db.{Channel}
use chatbridge.World.{Env, World, Io}
use chatbridge.Pipeline.Lookup.{get_channel_by_id}
use chatbridge.Provider.{Headers, ProfileTask, Parsed, WebhookProvider}
use chatbridge.Provider.Instagram.{verify}
use chatbridge.Provider.Telegram.{TelegramUpdate, load, verify_secret_token, secret_header}
use chatbridge.Webhook.{instagram_ingest, ingest, verified, telegram_ingest}

module _ (mac_matches : (secret body : String) → List ℕ → Bool)
    (hex_decode : String → Option (List ℕ)) (app_secret : String) where
  -- The header has the HMAC of the body under the app's secret, in hexadecimal digits after `sha256=`.
  abbrev pub IsSigned : Headers → String → Type 0
  IsSigned headers body =
      (signature : String) × (digest : List ℕ) × (headers "X-Hub-Signature-256"
        ≡ some (append "sha256=" signature))
      × (hex_decode signature ≡ some digest)
      × (mac_matches app_secret body digest ≡ true)

  verify-IsSigned :
      (headers : Headers) (body : String)
      → verify mac_matches hex_decode app_secret headers body ≡ ok tt
      → IsSigned headers body
  unfolding verify
  verify-IsSigned headers body h = elim (Option-cases (headers "X-Hub-Signature-256")) [
    | inl e ↦ absurd (ground arith)
    | inr (value, e) ↦ elim (Option-cases (strip_prefix "sha256=" value)) [
      | inl e' ↦ absurd (ground arith)
      | inr (signature, e') ↦ elim (Option-cases (hex_decode signature)) [
        | inl e'' ↦ absurd (ground arith)
        | inr (digest, e'') ↦ (
          signature,
          digest,
          ground (arith, strip_prefix_sound "sha256=" value signature e'),
          e'',
          ground arith,
        )
      ]
    ]
  ]

  -- An Instagram webhook is refused with 403 and nothing is spawned, or it is signed and answered with
  -- 200, and what is spawned is the handling of its body.
  pub instagram_ingest-IsSigned :
      (env : Env) (parse : String → Io Parsed) (headers : Headers) (body : String)
      → let provider : WebhookProvider = record {
        verify = verify mac_matches hex_decode app_secret;
        parse = parse;
      } in
        (instagram_ingest env provider headers body ≡ (403, none))
        ⊎ (IsSigned headers body
            × (instagram_ingest env provider headers body ≡ (200, some (ingest env provider body))))
  unfolding instagram_ingest
  instagram_ingest-IsSigned env parse headers body =
      elim (Result-cases (verify mac_matches hex_decode app_secret headers body)) [
        | inr (e, bad) ↦ inl (ground arith)
        | inl (_, good) ↦ inr (verify-IsSigned headers body good, ground arith)
      ]

-- A Telegram webhook that is accepted names a live channel, and its header is the secret of that
-- channel's config.
module _ (env : Env) (print_int : ℤ → String) (clock : ℕ → Instant)
    (decode : String → Result String TelegramUpdate) (decode_json : String → Option Json)
    (parse_config : Json → Result String TelegramConfig) (print_uuid : Uuid → String) where
  abbrev pub HasSecret : Uuid → Headers → World → Type 0
  HasSecret channel_id headers w =
      (channel : Channel) × (config : TelegramConfig) × ((get_channel_by_id env channel_id w).0
        ≡ ok (some channel))
      × (parse_config channel.config ≡ ok config)
      × (headers secret_header ≡ some config.bot_secret)

  pub telegram_ingest-HasSecret :
      (channel_id : Uuid) (headers : Headers) (body : String) (w : World)
      (answer : ℕ × Io (List ProfileTask))
      → (telegram_ingest env
          (load env print_int clock decode decode_json parse_config print_uuid)
          channel_id
          headers
          body
          w).0
        ≡ ok answer
      → HasSecret channel_id headers w
  unfolding telegram_ingest verified load verify_secret_token
  telegram_ingest-HasSecret channel_id headers body w answer h =
      elim (Result-cases (get_channel_by_id env channel_id w).0) [
        | inr (e, k) ↦ absurd (ground arith)
        | inl (none, k) ↦ absurd (ground arith)
        | inl (some channel, k) ↦ elim (Result-cases (parse_config channel.config)) [
          | inr (e, k') ↦ absurd (ground arith)
          | inl (config, k') ↦ elim (Option-cases (headers secret_header)) [
            | inl k'' ↦ absurd (ground arith)
            | inr (token, k'') ↦ elim (Bool-cases (str_eq token config.bot_secret)) [
              | inl e ↦ (channel, config, k, k', ground (arith, eq_iff token config.bot_secret))
              | inr e ↦ absurd (ground arith)
            ]
          ]
        ]
      ]
