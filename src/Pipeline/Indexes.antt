-- ===== src/Pipeline/Indexes.antt =====
-- Every event that pipeline.rs persists keeps the unique indexes of the tables.
use chatbridge.Prelude.{
  ℕ, String, Option, none, some, List, [], ◌∷◌, arith, Uuid, Instant, Option-cases, inl, inr,
}
use chatbridge.Prelude.Results.{Result, ok, err}
use chatbridge.Model.{NewMessage}
use chatbridge.Db.{Db, SqlError}
use chatbridge.Db.Messages.{
  DbMessage, DbEdit, DbRead, insert_message, edit_message, mark_messages_read, mark_chat_read,
}
use chatbridge.Db.Indexes.{
  IsIndexed, insert_chat-IsIndexed, insert_message-IsIndexed, edit_message-IsIndexed,
  mark_messages_read-IsIndexed, mark_chat_read-IsIndexed,
}
use chatbridge.World.{Env, World, write_db, total, publish_event}
use chatbridge.World.Invariants.{Keeps, Keeps-write_db}
use chatbridge.Pipeline.Keeps.{Keeps-resolve_sender, Keeps-place}
use chatbridge.Pipeline.Lookup.{resolve_sender}
use chatbridge.Pipeline.Persist.{
  place, announce_message, after_insert, after_edit, persist_message, persist_edit, publish_reads,
  sweep_chat, collect_reads, persist_read, persist_and_publish, customer_of,
}

module _ (env : Env) (rely : (n : ℕ) (db : Db) → IsIndexed db → IsIndexed (env.others n db)) where
  senders : (id : Uuid) (kind : String) → Keeps IsIndexed (resolve_sender env id kind)
  senders = Keeps-resolve_sender IsIndexed env rely insert_chat-IsIndexed

  announce_message-IsIndexed : (m : DbMessage) → Keeps IsIndexed (announce_message env m)
  unfolding announce_message publish_event
  announce_message-IsIndexed m w v = senders _ m.sender_type w v

  after_insert-IsIndexed :
      (r : Result SqlError (Option DbMessage)) → Keeps IsIndexed (after_insert env r)
  unfolding after_insert
  after_insert-IsIndexed (ok (some m)) w v = announce_message-IsIndexed m w v
  after_insert-IsIndexed (ok none) w v = v
  after_insert-IsIndexed (err e) w v = v

  persist_message-IsIndexed : (msg : NewMessage) → Keeps IsIndexed (persist_message env msg)
  unfolding persist_message
  persist_message-IsIndexed msg w v =
      let placed = place env msg w in
      let store =
        write_db env (λ id now. insert_message id now placed.0.msg placed.0.chat_id) placed.1 in
      after_insert-IsIndexed store.0 store.1 (
        Keeps-write_db IsIndexed env rely
          (λ id now. insert_message id now placed.0.msg placed.0.chat_id)
          (λ id now db db' a v' h.
            insert_message-IsIndexed id now placed.0.msg placed.0.chat_id db db' a v' h)
          placed.1 (Keeps-place IsIndexed env rely insert_chat-IsIndexed msg w v))

  after_edit-IsIndexed : (r : Result SqlError (Option DbEdit)) → Keeps IsIndexed (after_edit env r)
  unfolding after_edit publish_event
  after_edit-IsIndexed (ok (some e)) w v = senders _ e.sender_type w v
  after_edit-IsIndexed (ok none) w v = v
  after_edit-IsIndexed (err e) w v = v

  -- A statement that cannot be refused keeps the indexes if its new tables have them.
  total-IsIndexed :
      {A : Type 0} (f : Instant → Db → Db × A)
      → ((now : Instant) (db : Db) → IsIndexed db → IsIndexed (f now db).0)
      → Keeps IsIndexed (write_db env (λ id now. total (f now)))
  total-IsIndexed f keep =
      Keeps-write_db IsIndexed env rely (λ id now. total (f now))
        (λ id now db db' a v h. ground (arith, keep now db v))

  persist_edit-IsIndexed : (msg : NewMessage) → Keeps IsIndexed (persist_edit env msg)
  unfolding persist_edit
  persist_edit-IsIndexed msg w v =
      let change =
        λ (now : Instant). edit_message now msg.channel_id msg.external_message_id msg.text in
      let done = write_db env (λ id now. total (change now)) w in
      after_edit-IsIndexed done.0 done.1 (
        total-IsIndexed change
          (λ now db v'.
            edit_message-IsIndexed db v' now msg.channel_id msg.external_message_id msg.text)
          w v)

  publish_reads-IsIndexed : (rs : List DbRead) → Keeps IsIndexed (publish_reads env rs)
  unfolding publish_reads publish_event
  publish_reads-IsIndexed [] w v = v
  publish_reads-IsIndexed (r ∷ rs) w v = publish_reads-IsIndexed rs _ (senders _ r.sender_type w v)

  sweep_chat-IsIndexed : (msg : NewMessage) → Keeps IsIndexed (sweep_chat env msg)
  unfolding sweep_chat
  sweep_chat-IsIndexed msg w v = elim (Option-cases (customer_of msg.conversation)) [
    | inl e ↦ rw (e, sweep_chat) v
    | inr (c, e) ↦
        rw (e, sweep_chat)
          (total-IsIndexed (λ now. mark_chat_read msg.channel_id c msg.sender_type)
            (λ now db v'. mark_chat_read-IsIndexed db v' msg.channel_id c msg.sender_type) w v)
  ]

  collect_reads-IsIndexed : (msg : NewMessage) → Keeps IsIndexed (collect_reads env msg)
  unfolding collect_reads
  collect_reads-IsIndexed msg w v =
      let mark = λ (now : Instant).
        mark_messages_read msg.channel_id msg.external_message_id msg.sender_type in
      let w' = (write_db env (λ id now. total (mark now)) w).1 in
      let v' =
        total-IsIndexed mark
          (λ now db v0.
            mark_messages_read-IsIndexed db v0 msg.channel_id msg.external_message_id
              msg.sender_type)
          w v in
      ground (arith, v', sweep_chat-IsIndexed msg w' v')

  persist_read-IsIndexed : (msg : NewMessage) → Keeps IsIndexed (persist_read env msg)
  unfolding persist_read
  persist_read-IsIndexed msg w v =
      publish_reads-IsIndexed _ (collect_reads env msg w).1 (collect_reads-IsIndexed msg w v)

  -- Every event keeps the unique indexes of messages, chats and channels.
  pub persist_and_publish-IsIndexed :
      (msg : NewMessage) (w : World)
      → IsIndexed w.db
      → IsIndexed (persist_and_publish env msg w).1.db
  unfolding persist_and_publish
  persist_and_publish-IsIndexed msg w v = ground (
    arith,
    persist_message-IsIndexed msg w v,
    persist_edit-IsIndexed msg w v,
    persist_read-IsIndexed msg w v,
  )
