-- ===== src/Tests/Flows.antt =====
-- Runs of the pipeline over the tables, with Postgres and Redis at work and no other session.
use chatbridge.Prelude.{Uuid, ◌≡◌, refl, ◌+◌, false, none, some, [], ◌⊎◌}
use chatbridge.Prelude.Map.{get}
use chatbridge.Model.{NewMessage, reaction}
use chatbridge.Db.Chats.{find_active_chat}
use chatbridge.Db.Clients.{find_client_by_uuid}
use chatbridge.Db.Messages.{insert_message}
use chatbridge.Db.Indexes.{IsIndexed}
use chatbridge.Cache.{Caches}
use chatbridge.World.{Env, World, read_db, write_db, publish_invalidation}
use chatbridge.Pipeline.Lookup.{
  find_or_create_chat, get_client_by_uuid, read_through, fetch, resolve_sender,
}
use chatbridge.Pipeline.Persist.{
  place, persist_and_publish, persist_message, after_insert, announce_message, place_with_customer,
  verify_customer, chat_of_customer, announce_chat,
}
use chatbridge.Pipeline.Customers.{IsKnown}
use chatbridge.Pipeline.Indexes.{persist_and_publish-IsIndexed}
use chatbridge.Pipeline.Events.{Outcome, persist_and_publish-Outcome, place-author}
use chatbridge.Pipeline.Duplicates.{persist_and_publish-twice}
use chatbridge.Tests.Data.{tables, tables-IsIndexed, incoming}

abbrev pub alone : Env
alone = record {
  fails = λ n. false;
  fresh = λ n. 100 + n;
  now = λ n. 500 + n;
  others = λ n db. db;
  redis_fails = λ n. false;
}

abbrev cold : Caches
cold = record {
  channels = record { by_id = []; ext_index = [] };
  clients = record { by_uuid = []; ext_index = [] };
  operators = [];
  chats = [];
}

abbrev pub start : World
start = record {
  db = tables;
  caches = cold;
  queries = 0;
  publishes = 0;
  published = [];
  invalidations = [];
}

abbrev chatless : World
chatless = record start { db = record tables { chats = [] } }

indexes_example : IsIndexed (persist_and_publish alone (incoming "telegram:42:4") start).1.db
indexes_example =
    persist_and_publish-IsIndexed alone (λ n db v. v) (incoming "telegram:42:4") start
      tables-IsIndexed

outcome_example :
    Outcome alone
      (incoming "telegram:42:4")
      start
      (persist_and_publish alone (incoming "telegram:42:4") start).0
      (persist_and_publish alone (incoming "telegram:42:4") start).1
outcome_example = persist_and_publish-Outcome alone (incoming "telegram:42:4") start refl

abbrev thumb : NewMessage
thumb = record (incoming "telegram:42:4") { event = reaction }

author_example :
    ((place alone (incoming "telegram:42:4") start).0.msg.sender_id ≡ none)
    ⊎ ((id : Uuid) × (some 2 ≡ some id)
        × IsKnown alone id start
        × ((place alone (incoming "telegram:42:4") start).0.msg.sender_id ≡ some id))
author_example = place-author alone (incoming "telegram:42:4") (some 2) start refl refl

twice_example :
    let once = (persist_and_publish alone (incoming "telegram:42:4") start).1 in
    let again = persist_and_publish alone (incoming "telegram:42:4") once in
    (again.0 ≡ none) × (again.1.published ≡ once.published)
unfolding persist_and_publish persist_message place place_with_customer verify_customer
    get_client_by_uuid read_through fetch read_db write_db find_client_by_uuid chat_of_customer
    find_or_create_chat find_active_chat announce_chat publish_invalidation insert_message
    after_insert announce_message resolve_sender get
twice_example =
    persist_and_publish-twice alone (incoming "telegram:42:4") (λ n db known. known) start 102 refl
      refl
