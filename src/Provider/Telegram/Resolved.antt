-- ===== src/Provider/Telegram/Resolved.antt =====
-- Who wrote an update: `resolve_telegram_client` and `parse` of provider/telegram.rs.
use chatbridge.Prelude.{◌≡◌, refl, ℕ, String, Option, none, some, arith, Uuid, Instant, inl, inr}
use chatbridge.Prelude.Ints.{ℤ}
use chatbridge.Prelude.Results.{Result, Result-cases, ok, err}
use chatbridge.Model.{telegram}
use chatbridge.Db.{Client, SqlError}
use chatbridge.Db.Clients.{upsert_client}
use chatbridge.Cache.{cached_client_by_key}
use chatbridge.World.{Env, World, write_db, publish_invalidation, current}
use chatbridge.Pipeline.Lookup.{get_client}
use chatbridge.Provider.{new_uuid, utc_now}
use chatbridge.Provider.Customers.{IsCustomer, upsert_client-IsCustomer, get_client-IsCustomer}
use chatbridge.Provider.Telegram.{
  TelegramUser, build_display_name, announce_client, upsert_telegram_client, known_or_new,
  resolve_telegram_client,
}

module _ (env : Env) (print_int : ℤ → String) (from : TelegramUser) where
  -- The user's row, when the upsert has returned an id.
  upserted :
      (client_id id : Uuid) (w : World)
      → (upsert_telegram_client env print_int client_id from w).0 ≡ ok id
      → IsCustomer telegram
          (print_int from.id)
          id
          (upsert_telegram_client env print_int client_id from w).1.db
  unfolding upsert_telegram_client write_db announce_client publish_invalidation
  upserted client_id id w h =
      elim (Result-cases (
        upsert_client client_id (env.now w.queries) telegram (print_int from.id)
          (some (build_display_name from)) from.username (current env w))) [
            | inl ((db', c), e) ↦ ground (
              arith,
              upsert_client-IsCustomer telegram (print_int from.id) client_id (env.now w.queries)
                  (some (build_display_name from)) from.username (current env w) db' c e,
            )
            | inr (e', e) ↦ ground arith
          ]

  known_or_new-IsCustomer :
      (clock : ℕ → Instant) (id : Uuid) (r : Result SqlError (Option Client)) (w : World)
      → ((c : Client) → r ≡ ok (some c) → IsCustomer telegram (print_int from.id) c.id w.db)
      → (known_or_new env print_int clock from r w).0.0 ≡ some id
      → IsCustomer telegram (print_int from.id) id (known_or_new env print_int clock from r w).1.db
  unfolding known_or_new utc_now new_uuid
  known_or_new-IsCustomer clock id (err e) w known h = ground arith
  known_or_new-IsCustomer clock id (ok none) w known h =
      elim (Result-cases (upsert_telegram_client env print_int (env.fresh w.queries) from w).0) [
        | inl (c, e) ↦ ground (arith, upserted (env.fresh w.queries) c w e)
        | inr (e', e) ↦ ground arith
      ]
  known_or_new-IsCustomer clock id (ok (some c)) w known h = ground (arith, known c refl)

  -- A user that no replica cached is resolved to the client of its row, stored before or just now,
  -- whatever other sessions commit between the statements.
  pub resolve_telegram_client-IsCustomer :
      (clock : ℕ → Instant) (id : Uuid) (w : World)
      → cached_client_by_key (telegram, print_int from.id) w.caches.clients ≡ none
      → (resolve_telegram_client env print_int clock from w).0.0 ≡ some id
      → IsCustomer telegram
          (print_int from.id)
          id
          (resolve_telegram_client env print_int clock from w).1.db
  unfolding resolve_telegram_client
  resolve_telegram_client-IsCustomer clock id w cold h =
      let looked = get_client env telegram (print_int from.id) w in
      known_or_new-IsCustomer clock id looked.0 looked.1
        (λ c found. get_client-IsCustomer telegram (print_int from.id) env c w cold found) h
