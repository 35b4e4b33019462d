-- ===== src/Pipeline/Lookup.antt =====
-- The read-through lookups of cache.rs, `find_or_create_chat` of db.rs and `resolve_sender` of
-- pipeline.rs.
use chatbridge.Prelude.{
  String, Option, none, some, Uuid, str_eq, map_option, and_then, if◌then◌else◌,
}
use chatbridge.Prelude.Map.{get, insert, uuid_same}
use chatbridge.Prelude.Results.{Result, ok, err}
use chatbridge.Model.{ProviderKind, Sender}
use chatbridge.Db.{Db, Channel, Client, Operator, SqlError, unique_violation, row_not_found}
use chatbridge.Db.Channels.{find_live_channel_by_id, find_live_channel_by_external_key}
use chatbridge.Db.Clients.{find_client_by_uuid, find_client_by_external_id, find_operator_by_id}
use chatbridge.Db.Chats.{ChatInfo, find_chat_info, find_active_chat, insert_chat}
use chatbridge.Cache.{
  Caches, CachedOperator, insert_channel, insert_client, cached_channel_by_key,
  cached_client_by_key,
}
use chatbridge.World.{Env, Io, pure, ◌>>=◌, ◌>>◌, read_db, write_db}

-- A change of the caches.
abbrev pub caching : (Caches → Caches) → Io (Unit {0})
caching f w = (tt, record w { caches = f w.caches })

abbrev pub remember_channel : Channel → Io (Unit {0})
remember_channel ch = caching (λ c. record c { channels = insert_channel ch c.channels })

abbrev pub remember_client : Client → Io (Unit {0})
remember_client cl = caching (λ c. record c { clients = insert_client cl c.clients })

-- The miss of a read-through: the query's row is remembered, an absence and a failure are not.
unfoldable pub fetch :
    {A : Type 0}
    → (A → Io (Unit {0}))
    → Result SqlError (Option A)
    → Io (Result SqlError (Option A))
fetch remember (err e) = pure (err e)
fetch remember (ok none) = pure (ok none)
fetch remember (ok (some a)) = do remember a; pure (ok (some a))

cached_operator : Operator → CachedOperator
cached_operator op = record { id = op.id; name = op.name }

module _ (env : Env) where
  -- A read-through lookup: the cache's answer, or the query's.
  unfoldable pub read_through :
      {A : Type 0}
      → (Caches → Option A)
      → (Db → Option A)
      → (A → Io (Unit {0}))
      → Io (Result SqlError (Option A))
  unfolding fetch
  read_through cached query remember w = elim (cached w.caches) [
    | some a ↦ (ok (some a), w)
    | none ↦ (read_db env query >>= fetch remember) w
  ]

  -- `ChannelCache::get_channel_by_id`
  unfoldable pub get_channel_by_id : Uuid → Io (Result SqlError (Option Channel))
  unfolding read_through
  get_channel_by_id id =
      read_through (λ c. get id c.channels.by_id) (find_live_channel_by_id id) remember_channel

  -- `ChannelCache::get_channel_by_external_key`
  unfoldable pub get_channel_by_external_key :
      ProviderKind → String → Io (Result SqlError (Option Channel))
  unfolding read_through
  get_channel_by_external_key kind key =
      read_through (λ c. cached_channel_by_key (kind, key) c.channels)
        (find_live_channel_by_external_key kind key) remember_channel

  -- `ClientCache::get_client`
  unfoldable pub get_client : ProviderKind → String → Io (Result SqlError (Option Client))
  unfolding read_through
  get_client kind external_id =
      read_through (λ c. cached_client_by_key (kind, external_id) c.clients)
        (find_client_by_external_id kind external_id) remember_client

  -- `ClientCache::get_client_by_uuid`
  unfoldable pub get_client_by_uuid : Uuid → Io (Result SqlError (Option Client))
  unfolding read_through
  get_client_by_uuid id =
      read_through (λ c. get id c.clients.by_uuid) (find_client_by_uuid id) remember_client

  -- `OperatorCache::get_operator`
  unfoldable pub get_operator : Uuid → Io (Result SqlError (Option CachedOperator))
  unfolding read_through cached_operator
  get_operator id =
      read_through (λ c. get id c.operators)
        (λ db. map_option cached_operator (find_operator_by_id id db))
        (λ op. caching (λ c. record c { operators = insert id op c.operators }))

  -- `ChatCache::get_chat_info`
  unfoldable pub get_chat_info : Uuid → Io (Result SqlError (Option ChatInfo))
  unfolding read_through
  get_chat_info id =
      read_through (λ c. get id c.chats) (find_chat_info id)
        (λ info. caching (λ c. record c { chats = insert id info c.chats }))

  -- After the INSERT of `find_or_create_chat` met `idx_chats_active`: the chat that won, which
  -- `fetch_one` expects to be there.
  unfoldable pub one_chat : Result SqlError (Option Uuid) → Result SqlError Uuid
  one_chat (ok (some id)) = ok id
  one_chat (ok none) = err row_not_found
  one_chat (err e) = err e

  unfoldable pub create_chat : Uuid → Uuid → Io (Result SqlError Uuid)
  unfolding one_chat
  create_chat client_id channel_id = do
    created ← write_db env (λ id now. insert_chat id now client_id channel_id)
    elim created [
      | ok id ↦ pure (ok id)
      | err unique_violation ↦ do
        found ← read_db env (find_active_chat client_id channel_id)
        pure (one_chat found)
      | err e ↦ pure (err e)
    ]

  -- `find_or_create_chat`
  unfoldable pub find_or_create_chat : Uuid → Uuid → Io (Result SqlError Uuid)
  unfolding create_chat
  find_or_create_chat client_id channel_id = do
    existing ← read_db env (find_active_chat client_id channel_id)
    elim existing [
      | ok (some id) ↦ pure (ok id)
      | ok none ↦ create_chat client_id channel_id
      | err e ↦ pure (err e)
    ]

  -- `.await.ok().flatten()`
  abbrev pub found : {A : Type 0} → Result SqlError (Option A) → Option A
  found (ok o) = o
  found (err _) = none

  -- `resolve_sender`
  unfoldable pub resolve_sender : Uuid → String → Io Sender
  resolve_sender sender_id sender_type =
      if str_eq sender_type "operator"
      then (do
        op ← get_operator sender_id
        pure (record {
          id = sender_id;
          sender_type = "operator";
          name = map_option (λ o. o.name) (found op);
          username = none;
        }))
      else (do
        client ← get_client_by_uuid sender_id
        pure (record {
          id = sender_id;
          sender_type = "client";
          name = and_then (found client) (λ c. c.name);
          username = and_then (found client) (λ c. c.username);
        }))
