-- ===== src/Webhook.antt =====
-- handler/webhook.rs: the endpoints that the providers call. A background task that a handler spawns
-- is an action beside its answer.
pub mod Signed
use Prim.Native.String.{◌++◌ as append}
use chatbridge.Prelude.{
  ℕ, String, Option, none, some, List, [], ◌∷◌, Uuid, str_eq, ◌&&◌, if◌then◌else◌,
}
use chatbridge.Prelude.Results.{Result, ok, err}
use chatbridge.Model.{NewMessage}
use chatbridge.Channels.{AppError, forbidden}
use chatbridge.World.{Env, Io, pure, ◌>>=◌, ◌>>◌}
use chatbridge.Pipeline.Persist.{persist_and_publish}
use chatbridge.Provider.{Headers, ProfileTask, Parsed, WebhookProvider}
use chatbridge.Provider.Telegram.{verify_secret_token}

pub record VerifyParams : Type 0 where
  pub hub_mode : String
  pub hub_challenge : String
  pub hub_verify_token : String

-- `meta_verify`, over the configured token.
unfoldable pub meta_verify : String → VerifyParams → Result AppError String
meta_verify instagram_verify_token params =
    if str_eq params.hub_mode "subscribe" && str_eq params.hub_verify_token instagram_verify_token
    then ok params.hub_challenge
    else err (forbidden "invalid verify token or mode")

module _ (env : Env) where
  -- The loop over the messages of a payload.
  unfoldable pub persist_all : List NewMessage → Io (Unit {0})
  persist_all [] = pure tt
  persist_all (msg ∷ msgs) = do _ ← persist_and_publish env msg; persist_all msgs

  unfoldable pub after_parse : Parsed → Io (List ProfileTask)
  unfolding persist_all
  after_parse parsed = elim parsed.messages [
    | err e ↦ pure parsed.tasks
    | ok msgs ↦ do persist_all msgs; pure parsed.tasks
  ]

  -- The body of the task that both endpoints spawn.
  unfoldable pub ingest : WebhookProvider → String → Io (List ProfileTask)
  unfolding after_parse
  ingest provider body = do parsed ← provider.parse body; after_parse parsed

  -- `instagram_ingest`: the status, and the task that is spawned, if one is.
  unfoldable pub instagram_ingest :
      WebhookProvider → Headers → String → ℕ × Option (Io (List ProfileTask))
  unfolding ingest
  instagram_ingest provider headers body = elim (provider.verify headers body) [
    | err e ↦ (403, none)
    | ok _ ↦ (200, some (ingest provider body))
  ]

  unfoldable pub verified :
      Headers
      → String
      → Result AppError (WebhookProvider × String)
      → Result AppError (ℕ × Io (List ProfileTask))
  unfolding ingest
  verified headers body (err e) = err e
  verified headers body (ok (provider, bot_secret)) =
      elim (verify_secret_token headers bot_secret) [
        | err e ↦ err e
        | ok _ ↦ ok (200, ingest provider body)
      ]

  module _ (load : Uuid → Io (Result AppError (WebhookProvider × String))) where
    -- `telegram_ingest`: the status with the task that is spawned, or the error.
    unfoldable pub telegram_ingest :
        Uuid → Headers → String → Io (Result AppError (ℕ × Io (List ProfileTask)))
    unfolding verified
    telegram_ingest channel_id headers body = do
      loaded ← load channel_id
      pure (verified headers body loaded)
