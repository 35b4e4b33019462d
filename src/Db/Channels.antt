-- ===== src/Db/Channels.antt =====
-- The queries of db.rs on `channels`, but for `list_channels`, whose order is for display.
use chatbridge.Prelude.{
  String, Bool, true, false, Option, none, some, List, ◌∷◌, Uuid, Instant, str_eq, ◌==◌, ◌&&◌, ◌||◌,
  not, is_none, is_some, any, find, select, update, delete, map_option, coalesce, if◌then◌else◌,
}
use chatbridge.Prelude.Json.{Json}
use chatbridge.Prelude.Results.{ok, err}
use chatbridge.Model.{ProviderKind, provider_name}
use chatbridge.Db.{Db, Channel, Write, unique_violation, foreign_key_violation}

abbrev pub is_live : Channel → Bool
is_live c = is_none c.deleted_at

-- `provider = $1 AND external_key = $2`
abbrev pub has_key : ProviderKind → String → Channel → Bool
has_key kind key c = str_eq c.provider (provider_name kind) && str_eq c.external_key key

-- `find_live_channel_by_id`
unfoldable pub find_live_channel_by_id : Uuid → Db → Option Channel
find_live_channel_by_id id db = find (λ c. c.id == id && is_live c) db.channels

-- `find_live_channel_by_external_key`
unfoldable pub find_live_channel_by_external_key : ProviderKind → String → Db → Option Channel
find_live_channel_by_external_key kind key db =
    find (λ c. has_key kind key c && is_live c) db.channels

-- `find_channel_by_id`
unfoldable pub find_channel_by_id : Uuid → Db → Option Channel
find_channel_by_id id db = find (λ c. c.id == id) db.channels

-- `find_channel_by_external_key`
unfoldable pub find_channel_by_external_key : ProviderKind → String → Db → Option Channel
find_channel_by_external_key kind key db = find (has_key kind key) db.channels

-- `list_live_channels_by_provider`
unfoldable pub list_live_channels_by_provider : ProviderKind → Db → List Channel
list_live_channels_by_provider kind db =
    select (λ c. str_eq c.provider (provider_name kind) && is_live c) db.channels

abbrev pub new_channel : Uuid → Instant → ProviderKind → String → String → Json → Channel
new_channel id now kind name key config = record {
  id = id;
  provider = provider_name kind;
  name = name;
  external_key = key;
  config = config;
  deleted_at = none;
  created_at = now;
}

-- `insert_channel`
unfoldable pub insert_channel :
    Uuid → Instant → ProviderKind → String → String → Json → Write Channel
unfolding find_channel_by_id find_channel_by_external_key
insert_channel id now kind name key config db =
    if is_some (find_channel_by_id id db) || is_some (find_channel_by_external_key kind key db)
    then err unique_violation
    else ok (
      record db { channels = new_channel id now kind name key config ∷ db.channels },
      new_channel id now kind name key config,
    )

-- `DO UPDATE SET config = EXCLUDED.config, deleted_at = NULL`
abbrev pub reconnect : Json → Channel → Channel
reconnect config c = record c { config = config; deleted_at = none }

-- `upsert_channel_by_external_key`; the flag is `xmax = 0`.
unfoldable pub upsert_channel_by_external_key :
    Uuid → Instant → ProviderKind → String → String → Json → Write (Channel × Bool)
unfolding find_channel_by_id find_channel_by_external_key
upsert_channel_by_external_key id now kind name key config db =
    elim (find_channel_by_external_key kind key db) [
      | some c ↦ ok (
        record db { channels = update (has_key kind key) (reconnect config) db.channels },
        (reconnect config c, false),
      )
      | none ↦
          if is_some (find_channel_by_id id db)
          then err unique_violation
          else ok (
            record db { channels = new_channel id now kind name key config ∷ db.channels },
            (new_channel id now kind name key config, true),
          )
    ]

-- The SET clause of `update_channel`.
abbrev pub edit : Option String → Option String → Option Json → Bool → Channel → Channel
edit name key config restore c = record c {
  name = coalesce name c.name;
  external_key = coalesce key c.external_key;
  config = coalesce config c.config;
  deleted_at = if restore then none else c.deleted_at;
}

-- Another row holds the identity that the edited one would have.
abbrev pub is_taken : Channel → Db → Bool
is_taken c db =
    any
      (λ d.
        not (d.id == c.id)
        && (str_eq d.provider c.provider && str_eq d.external_key c.external_key))
      db.channels

-- `update_channel`
unfoldable pub update_channel :
    Uuid → Option String → Option String → Option Json → Bool → Write (Option Channel)
unfolding find_channel_by_id
update_channel id name key config restore db = elim (find_channel_by_id id db) [
  | none ↦ ok (db, none)
  | some c ↦
      if is_taken (edit name key config restore c) db
      then err unique_violation
      else ok (
        record db {
          channels = update (λ d. d.id == id) (edit name key config restore) db.channels;
        },
        some (edit name key config restore c),
      )
]

abbrev pub mark_deleted : Instant → Channel → Channel
mark_deleted now c = record c { deleted_at = some (coalesce c.deleted_at now) }

-- `soft_delete_channel`
unfoldable pub soft_delete_channel : Uuid → Instant → Db → Db × Option Channel
unfolding find_channel_by_id
soft_delete_channel id now db = (
  record db { channels = update (λ c. c.id == id) (mark_deleted now) db.channels },
  map_option (mark_deleted now) (find_channel_by_id id db),
)

-- `hard_delete_channel`: refused while a chat or a message refers to the row.
unfoldable pub hard_delete_channel : Uuid → Write (Unit {0})
hard_delete_channel id db =
    if any (λ c. c.channel_id == id) db.chats || any (λ m. m.channel_id == id) db.messages
    then err foreign_key_violation
    else ok (record db { channels = delete (λ c. c.id == id) db.channels }, tt)

-- `find_channel_provider`
unfoldable pub find_channel_provider : Uuid → Db → Option String
unfolding find_channel_by_id
find_channel_provider id db = map_option (λ c. c.provider) (find_channel_by_id id db)
