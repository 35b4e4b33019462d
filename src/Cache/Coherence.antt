-- ===== src/Cache/Coherence.antt =====
-- What the caches of cache.rs answer after an insert and after an invalidation, and the messages
-- that tell other replicas to invalidate.

use mathlib.Core.Path.{subst}
use chatbridge.Prelude.{
  sym, ◌≡◌, refl, String, false, Option, none, some, arith, Uuid, ◌==◌, not, and_then,
  if◌then◌else◌, Option-cases, inl, inr,
}
use chatbridge.Prelude.Map.{
  get, remove, uuid_same, get-remove, get-insert, get-retain_eq, HasDistinctKeys,
}
use chatbridge.Model.{ProviderKind, parse_provider}
use chatbridge.Db.{Channel}
use chatbridge.Cache.{
  ChannelCache, ClientCache, Caches, insert_channel, cached_channel_by_key, invalidate_channel,
  cached_client_by_key, invalidate_client, on_invalidation, invalidation_payload,
}
use chatbridge.Prelude.Colons.{has_colon, split_append}
use chatbridge.Cache.Keys.{Key, key_same, same_key_iff}

-- After an invalidation no lookup by a key gives the evicted channel, and every other lookup by a key
-- gives what it gave. The index lists each key once.
pub cached_channel_by_key-invalidate_channel :
    (id : Uuid) (cache : ChannelCache) (key : Key)
    → HasDistinctKeys cache.ext_index
    → cached_channel_by_key key (invalidate_channel id cache)
      ≡ and_then (get key cache.ext_index) (λ j. if j == id then none else get j cache.by_id)
unfolding cached_channel_by_key invalidate_channel
cached_channel_by_key-invalidate_channel id cache key distinct =
    elim (Option-cases (get key cache.ext_index)) [
      | inl e ↦ ground (arith, get-retain_eq (λ v. not (v == id)) key cache.ext_index distinct)
      | inr (j, e) ↦ ground (
        arith,
        get-retain_eq (λ v. not (v == id)) key cache.ext_index distinct,
        get-remove id j cache.by_id,
      )
    ]

-- After an invalidation no lookup by a key gives the evicted client, and every other lookup by a key
-- gives what it gave. The index lists each key once.
pub cached_client_by_key-invalidate_client :
    (id : Uuid) (cache : ClientCache) (key : Key)
    → HasDistinctKeys cache.ext_index
    → cached_client_by_key key (invalidate_client id cache)
      ≡ and_then (get key cache.ext_index) (λ j. if j == id then none else get j cache.by_uuid)
unfolding cached_client_by_key invalidate_client
cached_client_by_key-invalidate_client id cache key distinct =
    elim (Option-cases (get key cache.ext_index)) [
      | inl e ↦ ground (arith, get-retain_eq (λ v. not (v == id)) key cache.ext_index distinct)
      | inr (j, e) ↦ ground (
        arith,
        get-retain_eq (λ v. not (v == id)) key cache.ext_index distinct,
        get-remove id j cache.by_uuid,
      )
    ]

-- An inserted channel of a provider that the program knows is found by its id and by its key.
pub cached_channel_by_key-insert_channel :
    (ch : Channel) (cache : ChannelCache) (kind : ProviderKind)
    → parse_provider ch.provider ≡ some kind
    → (cached_channel_by_key (kind, ch.external_key) (insert_channel ch cache) ≡ some ch)
      × (get ch.id (insert_channel ch cache).by_id ≡ some ch)
unfolding cached_channel_by_key insert_channel
cached_channel_by_key-insert_channel ch cache kind h = ground (
  arith,
  get-insert (kind, ch.external_key) (kind, ch.external_key) ch.id cache.ext_index,
  get-insert ch.id ch.id ch cache.by_id,
  same_key_iff (kind, ch.external_key) (kind, ch.external_key),
)

module _ (print_uuid : Uuid → String) (parse_uuid : String → Option Uuid) where
  -- What the listener does with each of the four messages that it reads.
  pub on_invalidation-invalidation_payload :
      (id : Uuid) (caches : Caches)
      → parse_uuid (print_uuid id) ≡ some id
      → (on_invalidation parse_uuid (invalidation_payload print_uuid "channel" id) caches
          ≡ record caches { channels = invalidate_channel id caches.channels })
        × (on_invalidation parse_uuid (invalidation_payload print_uuid "client" id) caches
            ≡ record caches { clients = invalidate_client id caches.clients })
        × (on_invalidation parse_uuid (invalidation_payload print_uuid "operator" id) caches
            ≡ record caches { operators = remove id caches.operators })
        × (on_invalidation parse_uuid (invalidation_payload print_uuid "chat" id) caches
            ≡ record caches { chats = remove id caches.chats })
  unfolding on_invalidation invalidation_payload
  on_invalidation-invalidation_payload id caches round =
      let split = λ (s : String) (h : has_colon s ≡ false). split_append s (print_uuid id) h in
      (
        rw (split "channel" refl, on_invalidation) (rw (round, on_invalidation) refl),
        rw (split "client" refl, on_invalidation) (rw (round, on_invalidation) refl),
        rw (split "operator" refl, on_invalidation) (rw (round, on_invalidation) refl),
        rw (split "chat" refl, on_invalidation) (rw (round, on_invalidation) refl),
      )

-- The replica has that channel no more, by its id or by a key, and has everything else as before.
abbrev pub LosesChannel : Uuid → Caches → Caches → Type 0
LosesChannel id caches after =
    ((j : Uuid)
      → get j after.channels.by_id ≡ (if id == j then none else get j caches.channels.by_id))
    × ((key : Key)
        → cached_channel_by_key key after.channels
          ≡ and_then (get key caches.channels.ext_index)
              (λ j. if j == id then none else get j caches.channels.by_id))
    × (after.clients ≡ caches.clients)
    × (after.operators ≡ caches.operators)
    × (after.chats ≡ caches.chats)

-- The replica has that client no more, by its id or by a key, and has everything else as before.
abbrev pub LosesClient : Uuid → Caches → Caches → Type 0
LosesClient id caches after =
    ((j : Uuid)
      → get j after.clients.by_uuid ≡ (if id == j then none else get j caches.clients.by_uuid))
    × ((key : Key)
        → cached_client_by_key key after.clients
          ≡ and_then (get key caches.clients.ext_index)
              (λ j. if j == id then none else get j caches.clients.by_uuid))
    × (after.channels ≡ caches.channels)
    × (after.operators ≡ caches.operators)
    × (after.chats ≡ caches.chats)

-- The replica has that chat no more, and has everything else as before.
abbrev pub LosesChat : Uuid → Caches → Caches → Type 0
LosesChat id caches after =
    ((j : Uuid) → get j after.chats ≡ (if id == j then none else get j caches.chats))
    × (after.channels ≡ caches.channels)
    × (after.clients ≡ caches.clients)
    × (after.operators ≡ caches.operators)

invalidate_channel-Loses :
    (id : Uuid) (caches : Caches)
    → HasDistinctKeys caches.channels.ext_index
    → LosesChannel id caches (record caches { channels = invalidate_channel id caches.channels })
unfolding invalidate_channel
invalidate_channel-Loses id caches distinct = (
  (λ j. get-remove id j caches.channels.by_id),
  (λ key. cached_channel_by_key-invalidate_channel id caches.channels key distinct),
  refl,
  refl,
  refl,
)

invalidate_client-Loses :
    (id : Uuid) (caches : Caches)
    → HasDistinctKeys caches.clients.ext_index
    → LosesClient id caches (record caches { clients = invalidate_client id caches.clients })
unfolding invalidate_client
invalidate_client-Loses id caches distinct = (
  (λ j. get-remove id j caches.clients.by_uuid),
  (λ key. cached_client_by_key-invalidate_client id caches.clients key distinct),
  refl,
  refl,
  refl,
)

module _ (print_uuid : Uuid → String) (parse_uuid : String → Option Uuid) where
  -- Of each of the three messages that the program publishes, for a channel, a client or a chat: a
  -- replica that reads it finds the named entry in its caches no more, by its id or by a key, and has
  -- every other entry as before. Reading a UUID undoes printing it, and the indexes list a key once.
  pub on_invalidation-Loses :
      (id : Uuid) (caches : Caches)
      → parse_uuid (print_uuid id) ≡ some id
      → HasDistinctKeys caches.channels.ext_index
      → HasDistinctKeys caches.clients.ext_index
      → LosesChannel id caches
          (on_invalidation parse_uuid (invalidation_payload print_uuid "channel" id) caches)
        × LosesClient id caches
            (on_invalidation parse_uuid (invalidation_payload print_uuid "client" id) caches)
        × LosesChat id caches
            (on_invalidation parse_uuid (invalidation_payload print_uuid "chat" id) caches)
  on_invalidation-Loses id caches round channel_keys client_keys =
      let (channel, client, _, chat) =
        on_invalidation-invalidation_payload print_uuid parse_uuid id caches round in
      (
        subst (LosesChannel id caches) (sym channel)
            (invalidate_channel-Loses id caches channel_keys),
        subst (LosesClient id caches) (sym client) (invalidate_client-Loses id caches client_keys),
        subst (LosesChat id caches) (sym chat)
            ((λ j. get-remove id j caches.chats), refl, refl, refl),
      )
