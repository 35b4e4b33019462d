-- ===== src/Operator/Outbound.antt =====
-- The delivery tasks of handler/operator_ws.rs. A call to a provider is a parameter, which says what
-- it answered; so are reading a channel's config and the wording of errors.
use Prim.Native.String.{◌++◌ as append}
use chatbridge.Prelude.{String, Bool, true, false, Option, none, some, List, [], ◌∷◌, Uuid}
use chatbridge.Prelude.Json.{Json}
use chatbridge.Prelude.Results.{Result, ok, err}
use chatbridge.Model.{WsOutbound, delivered_event, delivery_failed}
use chatbridge.Db.{SqlError, Channel, Client}
use chatbridge.Db.Messages.{mark_message_delivered, mark_message_failed, adopt_external_message_id}
use chatbridge.World.{Env, Io, pure, ◌>>=◌, ◌>>◌, write_db, total}
use chatbridge.Pipeline.Lookup.{get_channel_by_id, get_client_by_uuid}

-- What the registry is asked to send, and to whom.
abbrev pub Notices : Type 0
Notices = List (Uuid × WsOutbound)

-- `.map_err(…)?.ok_or_else(…)?`
required :
    {A : Type 0} → (SqlError → String) → String → Result SqlError (Option A) → Result String A
required failed missing (err e) = err (failed e)
required failed missing (ok none) = err missing
required failed missing (ok (some a)) = ok a

module _ (env : Env) where
  abbrev pub ticked : Uuid → Uuid → Result SqlError Bool → Notices
  ticked operator message_id (ok true) = (operator, delivered_event message_id) ∷ []
  ticked operator message_id (ok false) = []
  ticked operator message_id (err _) = []

  -- `mark_delivered`
  unfoldable pub mark_delivered : Uuid → Uuid → Io Notices
  mark_delivered operator message_id = do
    marked ← write_db env (λ id now. total (mark_message_delivered message_id))
    pure (ticked operator message_id marked)

  -- `mark_undelivered`
  unfoldable pub mark_undelivered : Uuid → Io (Unit {0})
  mark_undelivered message_id = do
    _ ← write_db env (λ id now. total (mark_message_failed message_id))
    pure tt

  -- What follows the provider's answer, in `spawn_instagram_delivery` and `spawn_telegram_delivery`
  -- alike: over the answer, with the external id that it gives, or with the words for the refusal.
  unfoldable pub settle : Uuid → Uuid → Result String String → Io Notices
  settle operator message_id (ok external_id) = do
    notices ← mark_delivered operator message_id
    _ ← write_db env (λ id now. total (adopt_external_message_id message_id external_id))
    pure notices
  settle operator message_id (err reason) = do
    mark_undelivered message_id
    pure ((operator, delivery_failed message_id reason) ∷ [])

  module _ {Config : Type 0} (parse_config : Json → Result String Config)
      (show_error : SqlError → String) where
    customer_of_config : Config → Result String Client → Result String (Config × String)
    customer_of_config config (err e) = err e
    customer_of_config config (ok client) = elim client.external_id [
      | none ↦ err "client has no external_id"
      | some external_id ↦ ok (config, external_id)
    ]

    with_channel : String → Result String Channel → Uuid → Io (Result String (Config × String))
    unfolding customer_of_config required
    with_channel bad_config (err e) client_id = pure (err e)
    with_channel bad_config (ok channel) client_id = elim (parse_config channel.config) [
      | err e ↦ pure (err (append bad_config e))
      | ok config ↦ do
        client ← get_client_by_uuid env client_id
        pure (
            customer_of_config config (
              required (λ e. append "client lookup failed: " (show_error e)) "client not found"
                client))
    ]

    -- The lookups of `instagram_recipient` and of `deliver_to_telegram`: the channel's config and the
    -- customer's id at the provider.
    unfoldable pub recipient : String → String → Uuid → Uuid → Io (Result String (Config × String))
    unfolding with_channel required
    recipient missing bad_config channel_id client_id = do
      channel ← get_channel_by_id env channel_id
      with_channel bad_config
          (required (λ e. append "channel lookup failed: " (show_error e)) missing channel)
          client_id

    module _ {Sent : Type 0} (send : Config → String → String → Result String Sent) where
      answer : String → Result String (Config × String) → Result String Sent
      answer text (err e) = err e
      answer text (ok (config, to)) = send config to text

      abbrev settled_as :
          (Sent → String) → (String → String) → Result String Sent → Result String String
      settled_as external_id describe (ok sent) = ok (external_id sent)
      settled_as external_id describe (err reason) = err (describe reason)

      -- A whole delivery: the lookups, the call, and what follows it.
      unfoldable pub deliver :
          (missing bad_config : String) (external_id : Sent → String) (describe : String → String)
          (channel_id client_id operator : Uuid) (text : String) (message_id : Uuid)
          → Io Notices
      unfolding answer
      deliver missing bad_config external_id describe channel_id client_id operator text
            message_id =
          do
            to ← recipient missing bad_config channel_id client_id
            settle operator message_id (settled_as external_id describe (answer text to))
