-- ===== src/Tests/Restored.antt =====
-- A deleted shop is restored from the settings panel.
use chatbridge.Prelude.{◌≡◌, ◌⊎◌, refl, true, none, some, [], ◌∷◌}
use chatbridge.Db.{Channel}
use chatbridge.Db.Channels.{find_channel_by_id, update_channel}
use chatbridge.World.{World, current, read_db, write_db}
use chatbridge.Channels.Edit.{
  UpdateChannel, update, with_existing, plan, plan_restore, apply_plan, after_update, committed,
  arm_again,
}
use chatbridge.Channels.Edit.Armed.{update-arms}
use chatbridge.Tests.Data.{shop, tables}
use chatbridge.Tests.Flows.{alone, start}
use chatbridge.Tests.Accounts.{site}

abbrev deleted_shop : World
deleted_shop = record start {
  db = record tables { channels = record shop { deleted_at = some 9 } ∷ [] };
}

abbrev restore : UpdateChannel
restore = record { name = none; restore = true; spec = none }

restored_shop_example :
    (existing : Channel) × (find_channel_by_id 1 (current alone deleted_shop) ≡ some existing)
    × ((restore.restore ≡ true) ⊎ (existing.deleted_at ≡ none))
unfolding update with_existing plan plan_restore apply_plan after_update committed arm_again read_db
    write_db update_channel find_channel_by_id
restored_shop_example = update-arms site alone 1 restore deleted_shop refl
