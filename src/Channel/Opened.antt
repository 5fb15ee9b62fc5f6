-- ===== src/Channel/Opened.antt =====
-- `channel_manager` of src/server/channel.cpp: the channels of one connection.
use mq_work.Common.{Bool, true, false, Option, none, some, if◌then◌else◌}
use mq_work.Common.Text.{Text}
use mq_work.Common.Dict.{Dict, find, put, erase, contains}
use mq_work.Platform.{Platform}
use mq_work.Channel.{Channel, World, close}

abbrev pub Channels : Type 0
Channels = Dict Channel

unfoldable pub open_channel : Text → Text → Channels → Channels × Bool
open_channel conn cid channels =
    if contains cid channels
    then (channels, false)
    else (put cid (record { conn = conn; cid = cid; consumer = none }) channels, true)

unfoldable pub select_channel : Text → Channels → Option Channel
select_channel cid channels = find cid channels

module _ (P : Platform) where
  -- The channel is destroyed as it leaves the map.
  unfoldable pub close_channel : Text → Channels → World P → Channels × World P
  close_channel cid channels w = elim (find cid channels) [
    | none ↦ (channels, w)
    | some ch ↦ (erase cid channels, close P ch w)
  ]
