-- ===== src/Tests/Caches.antt =====
-- A replica that has cached the shop, its lookups, and an edit of the shop.
use chatbridge.Prelude.{refl, none, some, [], ◌∷◌, false, arith}
use chatbridge.Prelude.Map.{get}
use chatbridge.Model.{telegram}
use chatbridge.Db.{Channel}
use chatbridge.Db.Channels.{
  find_live_channel_by_id, find_live_channel_by_external_key, find_channel_by_id, update_channel,
  edit,
}
use chatbridge.Cache.{ChannelCache, insert_channel, invalidate_channel}
use chatbridge.World.{World}
use chatbridge.Pipeline.Lookup.{get_channel_by_id, get_channel_by_external_key}
use chatbridge.Pipeline.Fresh.{IsFresh, Refines, insert_channel-IsFresh, get_channel-Refines}
use chatbridge.Pipeline.Fresh.Edited.{update_channel-IsFresh}
use chatbridge.Tests.Data.{tables, tables-IsIndexed, shop}
use chatbridge.Tests.Flows.{alone, start}

cold-IsFresh : IsFresh tables start.caches.channels
unfolding get
cold-IsFresh = record {
  by_id = λ id ch h. ground arith;
  by_key = λ kind key id h. ground arith;
  distinct = tt;
}

abbrev warm : ChannelCache
warm = insert_channel shop start.caches.channels

warm-IsFresh : IsFresh tables warm
unfolding find_live_channel_by_id
warm-IsFresh =
    insert_channel-IsFresh tables tables-IsIndexed start.caches.channels cold-IsFresh shop refl

abbrev warm_start : World
warm_start = record start { caches = record start.caches { channels = warm } }

lookups_example :
    Refines
      (find_live_channel_by_external_key telegram "tg_1")
      (get_channel_by_external_key alone telegram "tg_1")
      warm_start
    × Refines (find_live_channel_by_id 1) (get_channel_by_id alone 1) warm_start
lookups_example =
    get_channel-Refines alone warm_start tables-IsIndexed warm-IsFresh refl refl telegram "tg_1" 1

abbrev renamed : Channel
renamed = edit (some "store") none none false shop

renamed_shop_example :
    IsFresh (record tables { channels = renamed ∷ [] }) (invalidate_channel 1 warm)
unfolding update_channel find_channel_by_id
renamed_shop_example =
    update_channel-IsFresh 1 (some "store") none none false tables
      (record tables { channels = renamed ∷ [] }) (some renamed) warm tables-IsIndexed warm-IsFresh
      refl
