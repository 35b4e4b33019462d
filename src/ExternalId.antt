-- ===== src/ExternalId.antt =====
-- external_id.rs: the ids under which messages are stored. Printing an integer is the standard
-- library's and printing a UUID the `uuid` crate's.
pub mod Unique
use Prim.Native.String.{◌++◌ as append}
use chatbridge.Prelude.{String, Uuid}

-- The text before a colon, the colon, and the rest.
abbrev pub join : String → String → String
join a b = append a (append ":" b)

-- `external_id::instagram`
unfoldable pub instagram_id : String → String
instagram_id mid = join "instagram" mid

-- `external_id::operator`
unfoldable pub operator_id : String → String
operator_id mid = join "operator" mid

-- `external_id::widget`
unfoldable pub widget_id : (Uuid → String) → Uuid → Uuid → String
widget_id print_uuid client_id mid = join "widget" (join (print_uuid client_id) (print_uuid mid))

module _ {I : Type 0} (print_int : I → String) where
  -- `external_id::telegram`
  unfoldable pub telegram_id : I → I → String
  telegram_id chat_id message_id = join "telegram" (join (print_int chat_id) (print_int message_id))

  -- `external_id::telegram_update`
  unfoldable pub telegram_update : I → String
  telegram_update update_id = join "telegram" (join "update" (print_int update_id))
