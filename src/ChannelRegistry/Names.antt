-- ===== src/ChannelRegistry/Names.antt =====
-- Channel names: which names are refused, and reading an id back out of its channel.
use pulse_distributed_real_t.ChannelRegistry.{
  channel_prefix_room, channel_prefix_user, get_room_channel, get_user_channel, extract_room_id,
  extract_user_id,
}
use pulse_distributed_real_t.Prelude.{
  String, arith, none, some, trim, drop_prefix, drop_prefix-append, clash, drop_prefix_of_clash,
  ◌≡◌, refl, ◌+ₛ◌,
}

-- The two kinds of channel never meet.
room-ne-user : (s : String) → drop_prefix channel_prefix_user (channel_prefix_room +ₛ s) ≡ none
unfolding clash
room-ne-user s = drop_prefix_of_clash channel_prefix_user channel_prefix_room s refl

user-ne-room : (s : String) → drop_prefix channel_prefix_room (channel_prefix_user +ₛ s) ≡ none
unfolding clash
user-ne-room s = drop_prefix_of_clash channel_prefix_room channel_prefix_user s refl

-- From the channel of a room id the trimmed id is read back, and no user id is.
pub extract_room_id-get_room_channel :
    (room_id channel : String)
    → get_room_channel room_id ≡ some channel
    → (extract_room_id channel ≡ some (trim room_id)) × (extract_user_id channel ≡ none)
unfolding get_room_channel extract_room_id extract_user_id
extract_room_id-get_room_channel room_id channel h =
    ground
      (arith, drop_prefix-append channel_prefix_room (trim room_id), room-ne-user (trim room_id))

-- The id that a user channel was made from is read back, trimmed, and such a channel is no room's.
pub extract_user_id-get_user_channel :
    (user_id channel : String)
    → get_user_channel user_id ≡ some channel
    → (extract_user_id channel ≡ some (trim user_id)) × (extract_room_id channel ≡ none)
unfolding get_user_channel extract_room_id extract_user_id
extract_user_id-get_user_channel user_id channel h =
    ground
      (arith, drop_prefix-append channel_prefix_user (trim user_id), user-ne-room (trim user_id))

-- Two rooms share a channel only if their trimmed ids are one.
pub get_room_channel-injective :
    (a b channel : String)
    → get_room_channel a ≡ some channel
    → get_room_channel b ≡ some channel
    → trim a ≡ trim b
get_room_channel-injective a b channel h k = cc (
  (extract_room_id-get_room_channel a channel h).0,
  (extract_room_id-get_room_channel b channel k).0,
)
