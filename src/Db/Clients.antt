-- ===== src/Db/Clients.antt =====
-- The queries of db.rs on `clients` and `operators`.
use chatbridge.Prelude.{
  String, Bool, Option, none, some, ◌∷◌, Uuid, Instant, str_eq, ◌==◌, ◌&&◌, is_some, find, update,
  if◌then◌else◌,
}
use chatbridge.Prelude.Results.{ok, err}
use chatbridge.Model.{ProviderKind, provider_name}
use chatbridge.Db.{Db, Client, Operator, Write, unique_violation, same_text}

-- `find_client_by_uuid`
unfoldable pub find_client_by_uuid : Uuid → Db → Option Client
find_client_by_uuid id db = find (λ c. c.id == id) db.clients

-- `provider = $1 AND external_id = $2`
abbrev pub has_identity : ProviderKind → String → Client → Bool
has_identity kind external_id c =
    str_eq c.provider (provider_name kind) && same_text c.external_id (some external_id)

-- `find_client_by_external_id`
unfoldable pub find_client_by_external_id : ProviderKind → String → Db → Option Client
find_client_by_external_id kind external_id db = find (has_identity kind external_id) db.clients

-- `create_client`: every column has its default.
unfoldable pub create_client : Uuid → Instant → Write Uuid
unfolding find_client_by_uuid
create_client id now db =
    if is_some (find_client_by_uuid id db)
    then err unique_violation
    else ok (
      record db {
        clients =
            record {
              id = id;
              provider = "widget";
              external_id = none;
              name = none;
              username = none;
              updated_at = now;
            }
            ∷ db.clients;
      },
      id,
    )

abbrev pub profile : Instant → Option String → Option String → Client → Client
profile now name username c = record c { name = name; username = username; updated_at = now }

abbrev pub new_client :
    Uuid → Instant → ProviderKind → String → Option String → Option String → Client
new_client id now kind external_id name username = record {
  id = id;
  provider = provider_name kind;
  external_id = some external_id;
  name = name;
  username = username;
  updated_at = now;
}

-- `upsert_client`: the id of the row that stands for the identity afterwards.
unfoldable pub upsert_client :
    Uuid → Instant → ProviderKind → String → Option String → Option String → Write Uuid
unfolding find_client_by_uuid find_client_by_external_id
upsert_client id now kind external_id name username db =
    elim (find_client_by_external_id kind external_id db) [
      | some c ↦ ok (
        record db {
          clients = update (has_identity kind external_id) (profile now name username) db.clients;
        },
        c.id,
      )
      | none ↦
          if is_some (find_client_by_uuid id db)
          then err unique_violation
          else ok (
            record db { clients = new_client id now kind external_id name username ∷ db.clients },
            id,
          )
    ]

-- `find_operator_by_id`
unfoldable pub find_operator_by_id : Uuid → Db → Option Operator
find_operator_by_id id db = find (λ o. o.id == id) db.operators

-- `create_operator`, over the name that is made of the id's first four hexadecimal digits.
unfoldable pub create_operator : Uuid → Instant → String → Write Uuid
unfolding find_operator_by_id
create_operator id now name db =
    if is_some (find_operator_by_id id db)
    then err unique_violation
    else ok (
      record db { operators = record { id = id; name = name; created_at = now } ∷ db.operators },
      id,
    )
