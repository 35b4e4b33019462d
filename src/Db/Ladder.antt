-- ===== src/Db/Ladder.antt =====
-- The life of a row of `messages` under the statements of db.rs: the ladder of `MessageStatus` in
-- model.rs, and the columns that nothing rewrites.
use chatbridge.Prelude.{
  ◌≡◌, refl, String, Bool, true, false, Option, none, some, List, [], ◌∷◌, arith, Uuid, Instant,
  ◌==◌, find, update, find-update, is_some, ap, Bool-cases, Option-cases, inl, inr,
}
use chatbridge.Prelude.Results.{Result, ok, err}
use chatbridge.Model.{MessageStatus, new, delivered, read, failed, NewMessage}
use chatbridge.Db.{Db, Message, SqlError}
use chatbridge.Db.Messages.{
  row, names, anchor, insert_message, edit_message, mark_messages_read, mark_messages_read_by_id,
  mark_chat_read, active_chat, mark_message_delivered, mark_message_failed,
  adopt_external_message_id, set_status, set_text, is_untouched, is_covered, is_unread,
  is_unread_in, DbMessage,
}
use chatbridge.Db.Indexes.{
  IsIndexed, insert_message-IsIndexed, edit_message-IsIndexed, mark_messages_read-IsIndexed,
  mark_messages_read_by_id-IsIndexed, mark_chat_read-IsIndexed, mark_message_delivered-IsIndexed,
  mark_message_failed-IsIndexed,
}
use chatbridge.Db.Adoption.{adopt_external_message_id-IsIndexed, row-adopt_external_message_id}

-- The ladder: `new` to `delivered` to `read`, or from `new` to the dead end `failed`.
abbrev pub climbs : MessageStatus → MessageStatus → Bool
climbs new _ = true
climbs delivered delivered = true
climbs delivered read = true
climbs delivered _ = false
climbs read read = true
climbs read _ = false
climbs failed failed = true
climbs failed _ = false

-- A row, and what became of it: the status went up the ladder or stayed, and the author, the chat,
-- the channel and the time are those of the insert.
pub record Follows (m m' : Message) : Type 0 where
  pub status : climbs m.status m'.status ≡ true
  pub chat_id : m'.chat_id ≡ m.chat_id
  pub channel_id : m'.channel_id ≡ m.channel_id
  pub sender_id : m'.sender_id ≡ m.sender_id
  pub sender_type : m'.sender_type ≡ m.sender_type
  pub created_at : m'.created_at ≡ m.created_at

climbs_refl : (s : MessageStatus) → climbs s s ≡ true
climbs_refl new = refl
climbs_refl delivered = refl
climbs_refl read = refl
climbs_refl failed = refl

climbs_trans : (a b c : MessageStatus) → climbs a b ≡ true → climbs b c ≡ true → climbs a c ≡ true
climbs_trans new b c h k = refl
climbs_trans a b c h k = ground arith

pub Follows-refl : (m : Message) → Follows m m
Follows-refl m = ground (arith, climbs_refl m.status)

Follows-trans : (a b c : Message) → Follows a b → Follows b c → Follows a c
Follows-trans a b c h k = ground (arith, climbs_trans a.status b.status c.status h.status k.status)

-- The statements on `messages` that the handlers issue.
pub data Statement : Type 0 where
  insert : Uuid → Instant → NewMessage → Option Uuid → Statement
  edit : Instant → Uuid → String → Option String → Statement
  read_to : Uuid → String → String → Statement
  read_to_id : Uuid → String → Statement
  read_chat : Uuid → Uuid → String → Statement
  deliver : Uuid → Statement
  refuse : Uuid → Statement
  adopt : Uuid → String → Statement

-- An error leaves the tables as they were.
after : {A : Type 0} → Db → Result SqlError (Db × A) → Db
after db (ok (db', _)) = db'
after db (err _) = db

unfoldable pub execute : Statement → Db → Db
unfolding after
execute (insert id now msg chat_id) db = after db (insert_message id now msg chat_id db)
execute (edit now channel_id external_id text) db =
    (edit_message now channel_id external_id text db).0
execute (read_to channel_id external_id reader) db =
    (mark_messages_read channel_id external_id reader db).0
execute (read_to_id message_id reader) db = (mark_messages_read_by_id message_id reader db).0
execute (read_chat channel_id client_id reader) db =
    (mark_chat_read channel_id client_id reader db).0
execute (deliver message_id) db = (mark_message_delivered message_id db).0
execute (refuse message_id) db = (mark_message_failed message_id db).0
execute (adopt message_id external_id) db = (adopt_external_message_id message_id external_id db).0

-- Every statement keeps the unique indexes.
pub execute-IsIndexed : (s : Statement) (db : Db) → IsIndexed db → IsIndexed (execute s db)
unfolding execute
execute-IsIndexed (insert id now msg chat_id) db v =
    kept (insert_message id now msg chat_id db) refl
  where
    kept :
        (r : Result SqlError (Db × Option DbMessage))
        → insert_message id now msg chat_id db ≡ r
        → IsIndexed (after db r)
    kept (ok (db', stored)) e = insert_message-IsIndexed id now msg chat_id db db' stored v e
    kept (err _) e = v
execute-IsIndexed (edit now channel_id external_id text) db v =
    edit_message-IsIndexed db v now channel_id external_id text
execute-IsIndexed (read_to channel_id external_id reader) db v =
    mark_messages_read-IsIndexed db v channel_id external_id reader
execute-IsIndexed (read_to_id message_id reader) db v =
    mark_messages_read_by_id-IsIndexed db v message_id reader
execute-IsIndexed (read_chat channel_id client_id reader) db v =
    mark_chat_read-IsIndexed db v channel_id client_id reader
execute-IsIndexed (deliver message_id) db v = mark_message_delivered-IsIndexed db v message_id
execute-IsIndexed (refuse message_id) db v = mark_message_failed-IsIndexed db v message_id
execute-IsIndexed (adopt message_id external_id) db v =
    adopt_external_message_id-IsIndexed message_id external_id db v

module _ (id : Uuid) (m m' : Message) where
  updated-Follows :
      (p : Message → Bool) (f : Message → Message) (rows : List Message)
      → ((x : Message) → (f x).id ≡ x.id)
      → ((x : Message) → p x ≡ true → Follows x (f x))
      → find (λ r. r.id == id) rows ≡ some m
      → find (λ r. r.id == id) (update p f rows) ≡ some m'
      → Follows m m'
  updated-Follows p f rows same step found later =
      let e =
        find-update (λ (r : Message). r.id == id) p f rows (λ x. ap (λ k. k == id) (same x)) in
      elim (Bool-cases (p m)) [
        | inl hit ↦ let changed : f m ≡ m' = ground (arith, e) in rw (← changed) (step m hit)
        | inr miss ↦ let kept : m ≡ m' = ground (arith, e) in rw (← kept) (Follows-refl m)
      ]

read-Follows : (m : Message) → is_unread m.status ≡ true → Follows m (set_status read m)
read-Follows m h = ground arith

covered_unread :
    (a : Option Message) (reader : String) (m : Message)
    → is_covered a reader m ≡ true
    → is_unread m.status ≡ true
covered_unread none reader m h = cc
covered_unread (some a) reader m h = ground arith

chat_unread :
    (chat : Option Uuid) (channel_id : Uuid) (reader : String) (m : Message)
    → is_unread_in chat channel_id reader m ≡ true
    → is_unread m.status ≡ true
chat_unread chat channel_id reader m h = ground arith

untouched-Follows :
    (id : Uuid) (s : MessageStatus) (m : Message)
    → is_untouched id m ≡ true
    → Follows m (set_status s m)
untouched-Follows id s m h = ground arith

inserted-Follows :
    (id : Uuid) (now : Instant) (msg : NewMessage) (chat_id : Option Uuid) (db : Db) (j : Uuid)
    (m m' : Message)
    → row j db ≡ some m
    → row j (after db (insert_message id now msg chat_id db)) ≡ some m'
    → Follows m m'
unfolding insert_message after row
inserted-Follows id now msg chat_id db j m m' found later = elim (Bool-cases (id == j)) [
  | inl e ↦
      let same : id ≡ j = ground arith in
      let taken : row id db ≡ some m = rw same found in
      let kept : m ≡ m' = ground arith in rw (← kept) (Follows-refl m)
  | inr e ↦ let kept : m ≡ m' = ground arith in rw (← kept) (Follows-refl m)
]

adopted-Follows :
    (message_id : Uuid) (external_id : String) (db : Db) (j : Uuid) (m m' : Message)
    → IsIndexed db
    → row j db ≡ some m
    → row j (adopt_external_message_id message_id external_id db).0 ≡ some m'
    → Follows m m'
unfolding adopt_external_message_id
adopted-Follows message_id external_id db j m m' v found later =
    elim (Option-cases (row message_id db)) [
      | inl e ↦ let kept : m ≡ m' = ground arith in rw (← kept) (Follows-refl m)
      | inr (a, e) ↦ elim (Bool-cases (j == message_id)) [
        | inl own ↦
            let same : j ≡ message_id = ground arith in
            let mine : m ≡ a = ground (arith, ap (λ k. row k db) same) in
            ground (
              arith,
              row-adopt_external_message_id message_id external_id db a j v e,
              climbs_refl a.status,
            )
        | inr other ↦
            let kept : m ≡ m' =
              ground (arith, row-adopt_external_message_id message_id external_id db a j v e) in
            rw (← kept) (Follows-refl m)
      ]
    ]

-- No statement takes a row's status down the ladder, or changes its author, chat or time.
pub execute-Follows :
    (s : Statement) (db : Db) (id : Uuid) (m m' : Message)
    → IsIndexed db
    → row id db ≡ some m
    → row id (execute s db) ≡ some m'
    → Follows m m'
unfolding execute row
execute-Follows (insert j now msg chat_id) db id m m' v found later =
    inserted-Follows j now msg chat_id db id m m' found later
execute-Follows (edit now channel_id external_id text) db id m m' v found later =
    updated-Follows id m m' (names channel_id external_id) (set_text now text) db.messages
      (λ x. refl) (λ x h. ground (arith, climbs_refl x.status)) found (unfold edit_message in later)
execute-Follows (read_to channel_id external_id reader) db id m m' v found later =
    updated-Follows id m m' (is_covered (anchor channel_id external_id db) reader) (set_status read)
      db.messages (λ x. refl) (λ x h. read-Follows x (covered_unread _ reader x h)) found
      (unfold mark_messages_read in later)
execute-Follows (read_to_id message_id reader) db id m m' v found later =
    updated-Follows id m m' (is_covered (row message_id db) reader) (set_status read) db.messages
      (λ x. refl) (λ x h. read-Follows x (covered_unread _ reader x h)) found
      (unfold mark_messages_read_by_id in later)
execute-Follows (read_chat channel_id client_id reader) db id m m' v found later =
    updated-Follows id m m' (is_unread_in (active_chat client_id channel_id db) channel_id reader)
      (set_status read) db.messages (λ x. refl)
      (λ x h. read-Follows x (chat_unread _ channel_id reader x h)) found
      (unfold mark_chat_read in later)
execute-Follows (deliver message_id) db id m m' v found later =
    updated-Follows id m m' (is_untouched message_id) (set_status delivered) db.messages (λ x. refl)
      (λ x h. untouched-Follows message_id delivered x h) found
      (unfold mark_message_delivered in later)
execute-Follows (refuse message_id) db id m m' v found later =
    updated-Follows id m m' (is_untouched message_id) (set_status failed) db.messages (λ x. refl)
      (λ x h. untouched-Follows message_id failed x h) found (unfold mark_message_failed in later)
execute-Follows (adopt message_id external_id) db id m m' v found later =
    adopted-Follows message_id external_id db id m m' v found later

unfoldable pub run : List Statement → Db → Db
run [] db = db
run (s ∷ ss) db = run ss (execute s db)

-- The row with that id is in the table after each of the statements.
abbrev pub Stays : Uuid → List Statement → Db → Type 0
Stays id [] db = Unit
Stays id (s ∷ ss) db = (is_some (row id (execute s db)) ≡ true) × Stays id ss (execute s db)

-- Every sequence of statements keeps the unique indexes.
pub run-IsIndexed : (ss : List Statement) (db : Db) → IsIndexed db → IsIndexed (run ss db)
unfolding run
run-IsIndexed [] db v = v
run-IsIndexed (s ∷ ss) db v = run-IsIndexed ss (execute s db) (execute-IsIndexed s db v)

-- However many statements run, in whatever order, a row that stays in the table only climbs: a
-- read message is never again new, delivered or failed, and a failed one never read; and its
-- author, chat, channel and time stay.
pub run-Follows :
    (ss : List Statement) (db : Db) (id : Uuid) (m m' : Message)
    → IsIndexed db
    → Stays id ss db
    → row id db ≡ some m
    → row id (run ss db) ≡ some m'
    → Follows m m'
unfolding run
run-Follows [] db id m m' v stays found later =
    let same : m ≡ m' = ground arith in rw (← same) (Follows-refl m)
run-Follows (s ∷ ss) db id m m' v (there, stays) found later =
    elim (Option-cases (row id (execute s db))) [
      | inl e ↦ absurd (ground arith)
      | inr (n, e) ↦
          Follows-trans m n m' (execute-Follows s db id m n v found e)
            (run-Follows ss (execute s db) id n m' (execute-IsIndexed s db v) stays e later)
    ]
