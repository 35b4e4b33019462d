-- ===== src/Tests/Accounts.antt =====
-- Runs of the settings panel's handlers that reach a provider: logins, subscriptions, edits, deletes,
-- the refresh of tokens and the connection test.
use Prim.Native.String.{◌++◌ as append}
use chatbridge.Prelude.{
  ◌≡◌, ◌⊎◌, refl, ℕ, ◌+◌, String, true, false, none, some, [], ◌∷◌, if◌then◌else◌, ltb, arith,
}
use chatbridge.Prelude.Ints.{ℤ}
use chatbridge.Prelude.Json.{Json, null, object, member, end, text}
use chatbridge.Prelude.Map.{get as lookup_in, uuid_same}
use chatbridge.Prelude.Results.{Result, ok, err}
use chatbridge.Model.{InstagramConfig, ProviderKind, instagram, provider_name, parse_provider}
use chatbridge.Db.{Channel, SqlError}
use chatbridge.Db.Channels.{
  find_channel_by_id, find_live_channel_by_id, list_live_channels_by_provider, update_channel,
  find_channel_by_external_key, upsert_channel_by_external_key,
}
use chatbridge.World.{World, read_db, write_db, current}
use chatbridge.Channels.{BotInfo}
use chatbridge.Channels.Manage.{Site, ChannelView, delete_channel, view, invalidate_everywhere}
use chatbridge.Channels.Manage.Deleted.{delete_channel-gone}
use chatbridge.Channels.Edit.{
  UpdateChannel, update, with_existing, plan, apply_plan, after_update, committed, arm_again,
}
use chatbridge.Channels.Edit.Evicted.{update-evicts}
use chatbridge.Channels.Edit.Identity.{IsEdit, update-IsEdit}
use chatbridge.Oauth.{
  OAuthState, issued, Connected, LongLivedToken, verify_state, subscribe, subscribe_token,
  access_token, supports, instagram_fields,
}
use chatbridge.Oauth.Subscription.{subscribe-IsSubscribed, IsPartOf, IsSubscribed}
use chatbridge.Login.{
  Outcome, CallbackQuery, connect, with_provider, with_state, connect_account, is_pinned, if_pinned,
  upsert_connected, store_connected, subscribe_connected, announce,
}
use chatbridge.Login.Pinned.{connect-pinned}
use chatbridge.Refresh.{refresh_due_tokens}
use chatbridge.Refresh.Pass.{Counts, refresh_due_tokens-Counts}
use chatbridge.Refresh.Kept.{HasIdentity, refresh_due_tokens-HasIdentity}
use chatbridge.Connection.{ConnectionStatus, Probes, instagram_status, expired_phrase}
use chatbridge.Connection.Verdict.{instagram_status-expired}
use chatbridge.Provider.{a_day}
use chatbridge.Tests.Data.{shop, tables}
use chatbridge.Tests.Flows.{alone, start}

abbrev pub site : Site
site = record {
  is_blank = λ s. false;
  fetch_profile = λ token. ok (record { user_id = "ig_9"; username = none });
  get_me = λ token. err "offline";
  sets_webhook = λ token url secret. err "offline";
  subscribes = λ config. ok instagram_fields;
  instagram_json = λ config. null;
  parse_telegram = λ json. ok (record { bot_token = "1:a"; bot_secret = "s3cret" });
  print_uuid = λ id. "1";
  base = "https://chat.example";
}

abbrev rename : UpdateChannel
rename = record { name = some "store"; restore = false; spec = none }

abbrev renamed : ChannelView
renamed = record {
  id = 1;
  provider = "telegram";
  name = "store";
  external_key = "tg_1";
  config = null;
  endpoint = "https://chat.example/webhook/telegram/1";
  deleted_at = none;
  created_at = 5;
}

committed_edit_example :
    lookup_in 1 (update site alone 1 rename start).1.caches.channels.by_id ≡ none
unfolding update with_existing plan apply_plan after_update committed arm_again read_db write_db
    update_channel find_channel_by_id
committed_edit_example = update-evicts site alone 1 rename start tt

edited_example :
    (existing : Channel) × (find_channel_by_id 1 tables ≡ some existing)
    × IsEdit site existing rename renamed
unfolding update with_existing plan apply_plan after_update committed arm_again read_db write_db
    update_channel find_channel_by_id view chatbridge.Channels.Manage.endpoint_for
edited_example = update-IsEdit site alone (λ n db. refl) 1 rename renamed start refl

deleted_example :
    let after = delete_channel alone site 1 start in
    (after.0.1 ≡ ok 204)
    × (find_live_channel_by_id 1 after.1.db ≡ none)
    × ((find_channel_by_id 1 tables ≡ none) ⊎ (lookup_in 1 after.1.caches.channels.by_id ≡ none))
deleted_example = delete_channel-gone alone site 1 start refl

abbrev taken : ℕ → String → String → Result String (Unit {0})
taken n token fields = ok tt

abbrev credential : Json
credential = object (member "access_token" (text "t") end)

fields_example :
    IsPartOf instagram_fields instagram_fields
    × IsSubscribed taken instagram_fields (subscribe taken instagram credential).1
unfolding subscribe subscribe_token access_token supports
fields_example = subscribe-IsSubscribed taken credential instagram_fields refl

-- One login, and its token.
abbrev state : OAuthState
state = issued 9 5 instagram (some 21)

abbrev encode_state : OAuthState → String
encode_state c = "token"

abbrev decode_state : String → Result String OAuthState
decode_state token = ok state

abbrev studio : Channel
studio = record shop { id = 21; provider = "instagram"; external_key = "ig_9" }

abbrev two_channels : World
two_channels = record start { db = record tables { channels = studio ∷ shop ∷ [] } }

abbrev exchange : ProviderKind → String → Result String Connected
exchange kind code =
    ok (record { external_key = "ig_9"; display_name = "studio"; config = credential })

abbrev callback_query : CallbackQuery
callback_query = record {
  code = some "c";
  state = some "token";
  error = none;
  error_description = none;
}

abbrev subscribes : ProviderKind → Json → Result String (Unit {0})
subscribes kind config = err "offline"

abbrev show : SqlError → String
show e = "database"

abbrev reconnected : Outcome
reconnected = record {
  provider = "instagram";
  ok = true;
  channel_id = some 21;
  name = some "shop";
  created = false;
  restored = false;
  warning = some "connected, but subscribing to events failed: offline. Use \"Check connection\".";
  error = none;
}

reconnected_example :
    let after =
      connect alone show subscribes decode_state exchange "instagram" callback_query two_channels in
    (reconnected.channel_id ≡ some 21)
    × (find_channel_by_id 1 after.1.db ≡ find_channel_by_id 1 two_channels.db)
unfolding connect with_provider with_state verify_state connect_account is_pinned if_pinned
    upsert_connected store_connected subscribe_connected announce read_db write_db
    find_channel_by_id find_channel_by_external_key upsert_channel_by_external_key supports
    parse_provider provider_name
reconnected_example =
    connect-pinned alone show subscribes (λ n db. refl) decode_state exchange "instagram" "token"
      callback_query state 21 1 reconnected two_channels (refl, (refl, tt)) refl refl refl
      (λ h. ground arith) refl

abbrev parse_config : Json → Result String InstagramConfig
parse_config json = ok (record { access_token = "t"; token_expires_at = some 10; username = none })

abbrev refresh_token : String → Result String LongLivedToken
refresh_token token = err "offline"

abbrev config_json : InstagramConfig → Result String Json
config_json config = ok credential

abbrev clock : ℕ → ℕ
clock n = 20

pass_example :
    let r =
      (refresh_due_tokens alone clock refresh_token config_json show parse_config two_channels).0 in
    Counts alone clock refresh_token config_json show parse_config 20
      (list_live_channels_by_provider instagram (current alone two_channels))
      (r.0 + r.1)
pass_example =
    refresh_due_tokens-Counts alone clock refresh_token config_json show parse_config two_channels
      refl

kept_channel_example :
    HasIdentity 21
      (some (record studio { config = null }))
      (refresh_due_tokens alone clock refresh_token config_json show parse_config two_channels).1.db
unfolding find_channel_by_id
kept_channel_example =
    refresh_due_tokens-HasIdentity alone clock refresh_token config_json show parse_config 21
      (some (record studio { config = null })) (λ n db h. h) two_channels refl

abbrev print_int : ℤ → String
print_int n = "1"

abbrev probes : Probes print_int
probes = record {
  webhook_info = λ token. err "offline";
  subscribed_fields = λ token. ok instagram_fields;
  parse_instagram = parse_config;
}

expired_example :
    (s : ConnectionStatus) × (instagram_status print_int site probes 20 studio ≡ ok s)
    × (s.ok ≡ false)
    × (before : String) × (s.summary
        ≡ append before
            (if ltb 20 (10 + a_day) then " Token expires within a day." else expired_phrase))
expired_example =
    instagram_status-expired print_int site probes studio
      (record { access_token = "t"; token_expires_at = some 10; username = none }) 10 20 refl refl
      (omega arith)
