-- ===== src/Pipeline.antt =====
-- pipeline.rs, with the read-through lookups of cache.rs and `find_or_create_chat` of db.rs that it
-- is made of.
pub mod Lookup
pub mod Persist
pub mod Chats
pub mod Customers
pub mod Keeps
pub mod Indexes
pub mod Silence
pub mod Events
pub mod Fresh
pub mod Duplicates
