-- ===== src/Cache.antt =====
-- cache.rs: the in-memory caches. A `RwLock<HashMap>` is a map; the read-through to Postgres is in
-- Pipeline/Lookup.antt.
pub mod Keys
pub mod Coherence
use Prim.Native.String.{◌++◌ as append}
use chatbridge.Prelude.{
  ℕ, String, Bool, true, false, Option, none, some, List, [], Uuid, str_eq, ◌==◌, ◌&&◌, not,
  and_then, if◌then◌else◌,
}
use chatbridge.Prelude.Map.{Map, get, insert, remove, retain, uuid_same}
use chatbridge.Model.{ProviderKind, parse_provider}
use chatbridge.Db.{Channel, Client}
use chatbridge.Db.Chats.{ChatInfo}
use chatbridge.Prelude.Colons.{split_once_colon}
use Keys.{Key, key_same}

pub record ChannelCache : Type 0 where
  pub by_id : Map Uuid Channel
  pub ext_index : Map Key Uuid

pub record ClientCache : Type 0 where
  pub by_uuid : Map Uuid Client
  pub ext_index : Map Key Uuid

pub record CachedOperator : Type 0 where
  pub id : Uuid
  pub name : String

pub record Caches : Type 0 where
  pub channels : ChannelCache
  pub clients : ClientCache
  pub operators : Map Uuid CachedOperator
  pub chats : Map Uuid ChatInfo

-- `ChannelCache::insert`
unfoldable pub insert_channel : Channel → ChannelCache → ChannelCache
insert_channel ch cache = record {
  by_id = insert ch.id ch cache.by_id;
  ext_index = elim (parse_provider ch.provider) [
    | none ↦ cache.ext_index
    | some kind ↦ insert (kind, ch.external_key) ch.id cache.ext_index
  ];
}

-- The cached half of `get_channel_by_external_key`.
unfoldable pub cached_channel_by_key : Key → ChannelCache → Option Channel
cached_channel_by_key key cache = and_then (get key cache.ext_index) (λ id. get id cache.by_id)

-- `ChannelCache::invalidate`
unfoldable pub invalidate_channel : Uuid → ChannelCache → ChannelCache
invalidate_channel id cache = record {
  by_id = remove id cache.by_id;
  ext_index = retain (λ v. not (v == id)) cache.ext_index;
}

-- `ClientCache::insert`; a client with no external id is not indexed.
unfoldable pub insert_client : Client → ClientCache → ClientCache
insert_client c cache = record {
  by_uuid = insert c.id c cache.by_uuid;
  ext_index = elim c.external_id [
    | none ↦ cache.ext_index
    | some ext_id ↦ elim (parse_provider c.provider) [
      | none ↦ cache.ext_index
      | some kind ↦ insert (kind, ext_id) c.id cache.ext_index
    ]
  ];
}

-- The cached half of `get_client`.
unfoldable pub cached_client_by_key : Key → ClientCache → Option Client
cached_client_by_key key cache = and_then (get key cache.ext_index) (λ id. get id cache.by_uuid)

-- `ClientCache::invalidate`
unfoldable pub invalidate_client : Uuid → ClientCache → ClientCache
invalidate_client id cache = record {
  by_uuid = remove id cache.by_uuid;
  ext_index = retain (λ v. not (v == id)) cache.ext_index;
}

-- One message of `spawn_invalidation_listener`. Parsing a UUID is the `uuid` crate's.
unfoldable pub on_invalidation : (String → Option Uuid) → String → Caches → Caches
on_invalidation parse_uuid payload caches = elim (split_once_colon payload) [
  | none ↦ caches
  | some (entity_type, uuid_str) ↦ elim (parse_uuid uuid_str) [
    | none ↦ caches
    | some id ↦
        if str_eq entity_type "channel"
        then record caches { channels = invalidate_channel id caches.channels }
        else if str_eq entity_type "client"
        then record caches { clients = invalidate_client id caches.clients }
        else if str_eq entity_type "operator"
        then record caches { operators = remove id caches.operators }
        else if str_eq entity_type "chat"
        then record caches { chats = remove id caches.chats }
        else caches
  ]
]

-- The message of `publish_invalidation`, `format!("{entity_type}:{id}")`. Printing a UUID is the
-- `uuid` crate's.
unfoldable pub invalidation_payload : (Uuid → String) → String → Uuid → String
invalidation_payload print_uuid entity_type id = append entity_type (append ":" (print_uuid id))
