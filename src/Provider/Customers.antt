-- ===== src/Provider/Customers.antt =====
-- The row of `clients` that a provider's id leads to, after the statements of provider/telegram.rs and
-- provider/instagram.rs that look for it or make it.
use chatbridge.Prelude.{
  ◌≡◌, refl, String, Option, none, some, arith, Uuid, Instant, map_option, find_sound, find-update,
  eq_refl,
}
use chatbridge.Prelude.Results.{ok}
use chatbridge.Model.{ProviderKind, provider_name}
use chatbridge.Db.{Db, Client}
use chatbridge.Db.Clients.{find_client_by_external_id, upsert_client, has_identity, profile}
use chatbridge.Cache.{cached_client_by_key}
use chatbridge.World.{Env, World, read_db}
use chatbridge.Pipeline.Lookup.{get_client, read_through, fetch}

module _ (kind : ProviderKind) (external_id : String) where
  -- The customer of that provider and id is the client of that row.
  abbrev pub IsCustomer : Uuid → Db → Type 0
  IsCustomer id db =
      map_option (λ c. c.id) (find_client_by_external_id kind external_id db) ≡ some id

  -- After an upsert, the id that it returns is the customer's.
  pub upsert_client-IsCustomer :
      (id : Uuid) (now : Instant) (name username : Option String) (db db' : Db) (c : Uuid)
      → upsert_client id now kind external_id name username db ≡ ok (db', c)
      → IsCustomer c db'
  unfolding upsert_client find_client_by_external_id
  upsert_client-IsCustomer id now name username db db' c h = ground (
    arith,
    find-update (has_identity kind external_id) (has_identity kind external_id)
        (profile now name username) db.clients (λ x. refl),
    find_sound (has_identity kind external_id) db.clients,
    eq_refl (provider_name kind),
    eq_refl external_id,
  )

  -- What the lookup of a customer that is not cached finds is the customer.
  pub get_client-IsCustomer :
      (env : Env) (c : Client) (w : World)
      → cached_client_by_key (kind, external_id) w.caches.clients ≡ none
      → (get_client env kind external_id w).0 ≡ ok (some c)
      → IsCustomer c.id (get_client env kind external_id w).1.db
  unfolding get_client read_through fetch read_db
  get_client-IsCustomer env c w cold h = ground arith
