-- ===== src/Lib.antt =====
-- Verification library of chatbridge, a server that bridges customers of Instagram, Telegram and a
-- web widget to operators.
--
-- The parts of the program and the files that model them:
--   * src/model.rs, the exchanged types: Model.antt.
--   * src/db.rs with migrations/: the tables as lists of rows, each query as a function of the tables
--     that says which constraint refuses it. Db.antt (rows and errors), Db/Channels.antt,
--     Db/Clients.antt, Db/Chats.antt, Db/Messages.antt (the queries). Facts: Db/Indexes.antt,
--     Db/Adoption.antt, Db/Forgotten.antt, Db/Receipts.antt, Db/Ladder.antt.
--   * src/cache.rs: Cache.antt (the maps), Cache/Keys.antt, Pipeline/Lookup.antt (the read-through
--     lookups). Facts: Cache/Coherence.antt.
--   * src/registry.rs: Registry.antt. Facts: Registry/Invariant.antt, Registry/Counting.antt.
--   * src/pipeline.rs: Pipeline/Lookup.antt (`resolve_sender`) and Pipeline/Persist.antt
--     (`persist_and_publish`). Facts: Pipeline/Chats.antt, Pipeline/Keeps.antt, Pipeline/Indexes.antt,
--     Pipeline/Customers.antt, Pipeline/Silence.antt, Pipeline/Events.antt, Pipeline/Duplicates.antt. The channel cache
--     against its table: Pipeline/Fresh.antt, Pipeline/Fresh/Edited.antt.
--   * src/listener.rs: Listener.antt. Facts: Listener/Delivery.antt.
--   * src/external_id.rs: ExternalId.antt. Facts: ExternalId/Unique.antt.
--   * src/handler/operator_ws.rs: Operator/Inbound.antt (`process_operator_message`) and
--     Operator/Outbound.antt (the delivery tasks). Facts: Operator/Acks.antt, Operator/Ticks.antt.
--   * src/handler/mod.rs: Session.antt. Facts: Session/Resumption.antt.
--   * src/handler/channels.rs: Channels.antt (validation, creation of a Telegram channel, with
--     src/error.rs), Channels/Manage.antt (create, delete), Channels/Edit.antt (update). Facts:
--     Channels/Validation.antt, Channels/Rollback.antt, Channels/Manage/Deleted.antt,
--     Channels/Edit/Evicted.antt, Channels/Edit/Identity.antt,
--     Channels/Edit/Armed.antt.
--   * src/provider/: Provider.antt (the trait), Provider/Telegram.antt, Provider/Telegram/Api.antt (the
--     answers of the Bot API), Provider/Instagram.antt, Provider/Instagram/Parse.antt. Facts:
--     Provider/Customers.antt, Provider/Telegram/Resolved.antt, Provider/Instagram/Resolved.antt,
--     Provider/Instagram/Parse/Routed.antt, Provider/Instagram/Parse/Sided.antt.
--   * src/handler/webhook.rs: Webhook.antt. Facts: Webhook/Signed.antt.
--   * src/handler/widget_ws.rs: WidgetWs.antt. Facts: WidgetWs/Served.antt,
--     WidgetWs/Released.antt.
--   * src/oauth/: Oauth.antt and Oauth/Graph.antt (the answers of the Graph API). Facts:
--     Oauth/Subscription.antt, Oauth/State.antt.
--   * src/handler/oauth.rs: Login.antt. Facts: Login/Escape.antt, Login/Identities.antt,
--     Login/Stored.antt, Login/Pinned.antt.
--   * src/refresh.rs: Refresh.antt. Facts: Refresh/Pass.antt, Refresh/Kept.antt.
--   * src/handler/connection.rs: Connection.antt. Facts: Connection/Verdict.antt.
-- A webhook is verified and parsed by its provider into messages; a socket reads them from its client.
-- The handler hands each to the pipeline, which stores it and publishes it on Redis; the listener
-- of each replica takes it from Redis and hands it to the connections in its registry.
--
-- Postgres and Redis are reached through World.antt: an action takes the world and gives a result
-- and the world after it. The environment decides for each query whether it fails, which identifier
-- and time a new row gets, and what other sessions commit before it, so a statement for every
-- environment is one for every interleaving of statements with other sessions of the database. The
-- caches are changed by the handler alone: what other tasks of the same process do to them while a handler
-- runs is left out. A statement is atomic; the program opens
-- one transaction, in `adopt_external_message_id`, which is one step here.
--
-- What a provider answers is a parameter: a function of the call, and where a call is repeated, of how
-- many there were before it. A background task that a handler spawns is a value beside its answer. The
-- clock of the process is a function of how many queries it has made. What a socket's `select!` yields
-- is a list of turns, each with what came while the handler waited for a pong.
--
-- Identifiers and times are natural numbers: nothing but their equality and order is used. No loop
-- of the model has fuel: each is over a list. Printing and parsing a UUID, reading an event from JSON,
-- the calls to providers and the sending half of a tokio channel are parameters. So are the tokens of
-- src/jwt.rs, which calls the jsonwebtoken crate; that a token can be verified after it was signed rests
-- on `verify` asking for no registered claim, since `sign` sets no expiry. The connection counter is a
-- 64-bit integer that wraps.
--
-- Not modelled: the listings for display in src/db.rs and the handlers that return them, serde's derived
-- code, start-up and routing, the requests that are sent over HTTP, the connection loop of
-- src/handler/operator_ws.rs, and the `details` of a connection's status.
pub mod Prelude
pub mod Model
pub mod Registry
pub mod Db
pub mod Cache
pub mod World
pub mod Pipeline
pub mod Listener
pub mod ExternalId
pub mod Operator
pub mod Session
pub mod Channels
pub mod Provider
pub mod Oauth
pub mod Login
pub mod Refresh
pub mod Connection
pub mod Webhook
pub mod WidgetWs
pub mod Tests
