-- ===== src/Pipeline/Chats.antt =====
-- `find_or_create_chat` of db.rs, between the statements of other sessions.
use chatbridge.Db.{Db}
use chatbridge.World.{World}
