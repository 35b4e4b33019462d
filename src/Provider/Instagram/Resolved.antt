-- ===== src/Provider/Instagram/Resolved.antt =====
-- Who wrote to an Instagram account: `resolve_instagram_client` of provider/instagram.rs.
use chatbridge.Prelude.{◌≡◌, refl, ℕ, String, none, some, arith, Uuid, Instant, Option, inl, inr}
use chatbridge.Prelude.Results.{Result, Result-cases, ok, err}
use chatbridge.Model.{instagram}
use chatbridge.Db.{Client, SqlError}
use chatbridge.Db.Clients.{upsert_client}
use chatbridge.Cache.{cached_client_by_key}
use chatbridge.World.{Env, World, write_db, current}
use chatbridge.Pipeline.Lookup.{get_client}
use chatbridge.Provider.{new_uuid, utc_now}
use chatbridge.Provider.Customers.{IsCustomer, upsert_client-IsCustomer, get_client-IsCustomer}
use chatbridge.Provider.Instagram.{Participant, known_or_new, resolve_instagram_client}

module _ (env : Env) (clock : ℕ → Instant) (access_token : String) where
  known_or_new-IsCustomer :
      (sid : String) (id : Uuid) (r : Result SqlError (Option Client)) (w : World)
      → ((c : Client) → r ≡ ok (some c) → IsCustomer instagram sid c.id w.db)
      → (known_or_new env clock sid access_token r w).0.0 ≡ some id
      → IsCustomer instagram sid id (known_or_new env clock sid access_token r w).1.db
  unfolding known_or_new utc_now new_uuid write_db
  known_or_new-IsCustomer sid id (err e) w known h = ground arith
  known_or_new-IsCustomer sid id (ok none) w known h =
      elim (Result-cases (
        upsert_client (env.fresh w.queries) (env.now w.queries) instagram sid none none
          (current env w))) [
            | inl ((db', c), e) ↦ ground (
              arith,
              upsert_client-IsCustomer instagram sid (env.fresh w.queries) (env.now w.queries) none
                  none (current env w) db' c e,
            )
            | inr (e', e) ↦ ground arith
          ]
  known_or_new-IsCustomer sid id (ok (some c)) w known h = ground (arith, known c refl)

  -- A customer that is not cached is resolved to the client of its row, stored before or just now,
  -- whatever other sessions commit between the statements.
  pub resolve_instagram_client-IsCustomer :
      (sender : Participant) (id : Uuid) (w : World)
      → cached_client_by_key (instagram, sender.id) w.caches.clients ≡ none
      → (resolve_instagram_client env clock (some sender) access_token w).0.0 ≡ some id
      → IsCustomer instagram sender.id id
          (resolve_instagram_client env clock (some sender) access_token w).1.db
  unfolding resolve_instagram_client
  resolve_instagram_client-IsCustomer sender id w cold h =
      let looked = get_client env instagram sender.id w in
      known_or_new-IsCustomer sender.id id looked.0 looked.1
        (λ c found. get_client-IsCustomer instagram sender.id env c w cold found) h
