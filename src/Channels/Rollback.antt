-- ===== src/Channels/Rollback.antt =====
-- A Telegram channel whose webhook was refused, from `create_telegram` of handler/channels.rs.
use chatbridge.Prelude.{
  ◌≡◌, ◌≢◌, ◌∙◌, sym, ap, refl, ℕ, suc, String, false, Option, List, [], ◌∷◌, arith, Uuid, Instant,
  ◌==◌, any, delete, any_of_find, inl, inr,
}
use chatbridge.Prelude.Json.{Json}
use chatbridge.Prelude.Results.{Result, Result-cases, ok, err}
use chatbridge.Model.{ProviderKind, telegram}
use chatbridge.Db.{
  Db, Channel, Chat, Message, SqlError, unique_violation, foreign_key_violation, check_violation,
  row_not_found, unavailable,
}
use chatbridge.Db.Channels.{insert_channel, hard_delete_channel}
use chatbridge.World.{Env, World, ◌>>=◌, read_db, write_db}
use chatbridge.Channels.{
  AppError, BotInfo, validate_bot_token, or_conflict, insert_or_conflict, arm, create_telegram,
}

delete_absent :
    (id : Uuid) (cs : List Channel)
    → any (λ c. c.id == id) cs ≡ false
    → delete (λ c. c.id == id) cs ≡ cs
delete_absent id [] h = refl
delete_absent id (c ∷ cs) h = ground (arith, delete_absent id cs)

-- The rollback of an INSERT restores the tables: when no chat and no message names the new id, the
-- channel is deleted without an error and everything is as it was.
pub hard_delete_channel-insert_channel :
    (id : Uuid) (now : Instant) (kind : ProviderKind) (name key : String) (config : Json)
    (db db' : Db) (c : Channel)
    → any (λ (x : Chat). x.channel_id == id) db.chats ≡ false
    → any (λ (x : Message). x.channel_id == id) db.messages ≡ false
    → insert_channel id now kind name key config db ≡ ok (db', c)
    → hard_delete_channel id db' ≡ ok (db, tt)
unfolding insert_channel hard_delete_channel
hard_delete_channel-insert_channel id now kind name key config db db' c chats messages h =
    ground
      (arith, delete_absent id db.channels, any_of_find (λ (x : Channel). x.id == id) db.channels)

inserted_id :
    (id : Uuid) (now : Instant) (kind : ProviderKind) (name key : String) (config : Json)
    (db db' : Db) (c : Channel)
    → insert_channel id now kind name key config db ≡ ok (db', c)
    → c.id ≡ id
unfolding insert_channel
inserted_id id now kind name key config db db' c h = ground arith

module _ (env : Env) (calm : (n : ℕ) → env.fails n ≡ false)
    (alone : (n : ℕ) (db : Db) → env.others n db ≡ db) (get_me : String → Result String BotInfo)
    (set_webhook : (bot_token url bot_secret : String) → Result String (Unit {0}))
    (endpoint : Uuid → String) where
  -- Over the tables that the handler found: an error leaves them.
  Restores : Db → Result AppError Channel × World → Type 0
  Restores db (ok c, w) = Unit
  Restores db (err e, w) = w.db ≡ db

  conflict-Restores :
      (kind : ProviderKind) (key : String) (e : SqlError) (w : World)
      → Restores w.db (or_conflict env kind key (err e) w)
  unfolding Restores or_conflict read_db
  conflict-Restores kind key unique_violation w = alone w.queries w.db
  conflict-Restores kind key foreign_key_violation w = refl
  conflict-Restores kind key check_violation w = refl
  conflict-Restores kind key row_not_found w = refl
  conflict-Restores kind key unavailable w = refl

  conflict-err :
      (kind : ProviderKind) (key : String) (e : SqlError) (c : Channel) (w : World)
      → (or_conflict env kind key (err e) w).0 ≢ ok c
  unfolding or_conflict
  conflict-err kind key unique_violation c w h = cc
  conflict-err kind key foreign_key_violation c w h = cc
  conflict-err kind key check_violation c w h = cc
  conflict-err kind key row_not_found c w h = cc
  conflict-err kind key unavailable c w h = cc

  arm-err :
      (bot_token bot_secret : String) (db : Db) (r : Result AppError Channel × World)
      → ((c : Channel) (e : r.0 ≡ ok c) → hard_delete_channel c.id r.1.db ≡ ok (db, tt))
      → Restores db r
      → Restores db (arm env get_me set_webhook endpoint bot_token bot_secret r.0 r.1)
  unfolding Restores arm write_db
  arm-err bot_token bot_secret db (err e, w) undo h = h
  arm-err bot_token bot_secret db (ok c, w) undo h =
      elim (Result-cases (set_webhook bot_token (endpoint c.id) bot_secret)) [
        | inl (_, e) ↦ rw (e, Restores, arm) tt
        | inr (reason, e) ↦
            rw (e, Restores, arm) (rw (calm w.queries, alone w.queries w.db, undo c refl) refl)
      ]

  module _ (id : Uuid) (kind : ProviderKind) (name key : String) (config : Json) (w : World) where
    later : Db → World
    later db = record w { db = db; queries = suc w.queries }

    inserted_ok :
        (db' : Db) (c : Channel)
        → insert_channel id (env.now w.queries) kind name key config w.db ≡ ok (db', c)
        → insert_or_conflict env id kind name key config w ≡ (ok c, later db')
    unfolding insert_or_conflict write_db or_conflict later
    inserted_ok db' c e = rw (calm w.queries, alone w.queries w.db, e) refl

    inserted_err :
        (e : SqlError)
        → insert_channel id (env.now w.queries) kind name key config w.db ≡ err e
        → insert_or_conflict env id kind name key config w
          ≡ or_conflict env kind key (err e) (later w.db)
    unfolding insert_or_conflict write_db later
    inserted_err e' e = rw (calm w.queries, alone w.queries w.db, e) refl

    undone :
        (db' : Db) (c c' : Channel)
        → any (λ (x : Chat). x.channel_id == id) w.db.chats ≡ false
        → any (λ (x : Message). x.channel_id == id) w.db.messages ≡ false
        → insert_channel id (env.now w.queries) kind name key config w.db ≡ ok (db', c)
        → c ≡ c'
        → hard_delete_channel c'.id (later db').db ≡ ok (w.db, tt)
    unfolding later
    undone db' c c' chats messages e same =
        let named : c'.id ≡ id =
          ap (λ (x : Channel). x.id) (sym same)
          ∙ inserted_id id (env.now w.queries) kind name key config w.db db' c e in
        rw named (
          hard_delete_channel-insert_channel id (env.now w.queries) kind name key config w.db db' c
            chats messages e)

    -- The INSERT with what follows it.
    armed-Restores :
        (bot_token bot_secret : String)
        → any (λ (x : Chat). x.channel_id == id) w.db.chats ≡ false
        → any (λ (x : Message). x.channel_id == id) w.db.messages ≡ false
        → Restores w.db (
            (insert_or_conflict env id kind name key config
                >>= arm env get_me set_webhook endpoint bot_token bot_secret)
              w)
    armed-Restores bot_token bot_secret chats messages =
        elim (Result-cases (insert_channel id (env.now w.queries) kind name key config w.db)) [
          | inl ((db', c), e) ↦ rw (inserted_ok db' c e) (
              arm-err bot_token bot_secret w.db (ok c, later db')
                (λ c' same. undone db' c c' chats messages e (ground arith))
                (unfold Restores in tt))
          | inr (e', e) ↦ rw (inserted_err e' e) (
              arm-err bot_token bot_secret w.db (or_conflict env kind key (err e') (later w.db))
                (λ c' same. absurd (conflict-err kind key e' c' (later w.db) same))
                (unfold later in conflict-Restores kind key e' (later w.db)))
        ]

  created-Restores :
      (channel_id : Uuid) (bot_secret : String) (name : Option String) (bot_token : String)
      (w : World)
      → any (λ (x : Chat). x.channel_id == channel_id) w.db.chats ≡ false
      → any (λ (x : Message). x.channel_id == channel_id) w.db.messages ≡ false
      → Restores w.db
          (create_telegram env get_me set_webhook endpoint channel_id bot_secret name bot_token w)
  unfolding create_telegram Restores
  created-Restores channel_id bot_secret name bot_token w chats messages =
      elim (Result-cases (validate_bot_token bot_token)) [
        | inr (bad, v) ↦ rw (v, Restores, create_telegram) refl
        | inl (_, v) ↦ elim (Result-cases (get_me bot_token)) [
          | inr (reason, g) ↦
              rw (v, Restores, create_telegram) (rw (g, Restores, create_telegram) refl)
          | inl (info, g) ↦
              rw (v, Restores, create_telegram)
                (rw (g, Restores, create_telegram)
                  (unfold Restores in
                    armed-Restores channel_id telegram _ info.id _ w bot_token bot_secret chats
                      messages))
        ]
      ]

  of_err :
      (db : Db) (r : Result AppError Channel × World) (e : AppError)
      → Restores db r
      → r.0 ≡ err e
      → r.1.db ≡ db
  unfolding Restores
  of_err db (ok c, w) e h failed = cc
  of_err db (err e', w) e h failed = h

  -- With Postgres at work and no other session, a Telegram channel that could not be created, for
  -- whatever reason, leaves the tables as they were, if no chat or message names the new id.
  pub create_telegram-restores :
      (channel_id : Uuid) (bot_secret : String) (name : Option String) (bot_token : String)
      (w : World) (e : AppError)
      → any (λ (x : Chat). x.channel_id == channel_id) w.db.chats ≡ false
      → any (λ (x : Message). x.channel_id == channel_id) w.db.messages ≡ false
      → (create_telegram env get_me set_webhook endpoint channel_id bot_secret name bot_token w).0
        ≡ err e
      → (create_telegram env get_me set_webhook endpoint channel_id bot_secret name bot_token
          w).1.db
        ≡ w.db
  create_telegram-restores channel_id bot_secret name bot_token w e chats messages failed =
      of_err w.db
        (create_telegram env get_me set_webhook endpoint channel_id bot_secret name bot_token w) e
        (created-Restores channel_id bot_secret name bot_token w chats messages) failed
