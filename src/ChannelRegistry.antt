-- ===== src/ChannelRegistry.antt =====
-- src/redis/ChannelRegistry.ts. Each asynchronous operation has two parts, as the event loop runs
-- them: what happens at the call, up to the `await` on Redis, and what happens when Redis answers.
-- A throw is `none`. The logger is left out.
pub mod Names
pub mod Interleaving
pub mod Rooms
use pulse_distributed_real_t.JsMap.{JsMap, get, set, delete, size, keys}
use pulse_distributed_real_t.Prelude.{
  ℕ, zero, suc, ◌+◌, ◌-◌, String, List, [], ◌∷◌, ◌++◌, Option, none, some, Bool, true, false, not,
  ◌=ₛ◌, if◌then◌else◌, truthy, trim, ltb, ◌==◌, ◌&&◌, ◌+ₛ◌, drop_prefix, leb, map,
}

abbrev pub channel_prefix_room : String
channel_prefix_room = "pulse:room:"

abbrev pub channel_prefix_user : String
channel_prefix_user = "pulse:user:"

abbrev pub channel_presence_events : String
channel_presence_events = "pulse:presence:events"

-- The name is a text by its type; a blank one is refused.
prefixed : String → String → Option String
prefixed prefix name =
    if not (truthy name) then none else if trim name =ₛ "" then none else some (prefix +ₛ trim name)

unfoldable pub get_room_channel : String → Option String
unfolding prefixed
get_room_channel room_id = prefixed channel_prefix_room room_id

unfoldable pub get_user_channel : String → Option String
unfolding prefixed
get_user_channel user_id = prefixed channel_prefix_user user_id

-- `null` where the channel is of another kind.
unfoldable pub extract_room_id : String → Option String
unfolding drop_prefix
extract_room_id channel = drop_prefix channel_prefix_room channel

unfoldable pub extract_user_id : String → Option String
unfolding drop_prefix
extract_user_id channel = drop_prefix channel_prefix_user channel

-- What is asked of Redis, in order.
pub data Command : Type 0 where
  subscribe unsubscribe : String → Command

pub record ChannelRegistry : Type 0 where
  pub channel_ref_counts : JsMap ℕ
  pub commands : List Command

abbrev pub new_channel_registry : ChannelRegistry
new_channel_registry = record { channel_ref_counts = []; commands = [] }

abbrev count_of : Option ℕ → ℕ
count_of none = 0
count_of (some n) = n

unfoldable pub get_ref_count : ChannelRegistry → String → ℕ
get_ref_count r channel = count_of (get channel r.channel_ref_counts)

unfoldable pub is_presence_subscribed : ChannelRegistry → Bool
unfolding get_ref_count
is_presence_subscribed r = ltb 0 (get_ref_count r channel_presence_events)

unfoldable pub get_active_channels : ChannelRegistry → List String
get_active_channels r = keys r.channel_ref_counts

-- How a call begins: it fails at once, has its answer, or waits for Redis.
pub data Started : Type 0 where
  threw : Started
  answered : Bool → Started
  awaiting : Command → Started

abbrev command_of : Started → List Command
command_of (awaiting c) = c ∷ []
command_of _ = []

abbrev begun : ChannelRegistry → JsMap ℕ → Started → ChannelRegistry × Started
begun r counts started =
    (record { channel_ref_counts = counts; commands = r.commands ++ command_of started }, started)

-- `incrementSubscription` up to the `await`.
unfoldable pub increment_subscription : ChannelRegistry → String → ChannelRegistry × Started
unfolding get_ref_count
increment_subscription r channel =
    let current = get_ref_count r channel in
    begun r (set channel (current + 1) r.channel_ref_counts)
      (if current == 0 then awaiting (subscribe channel) else answered false)

-- Its rest: the answer `true`, or the count is dropped and the error thrown on.
unfoldable pub settle_subscribe : ChannelRegistry → String → Bool → ChannelRegistry × Option Bool
settle_subscribe r channel true = (r, some true)
settle_subscribe r channel false =
    (record r { channel_ref_counts = delete channel r.channel_ref_counts }, none)

-- `decrementSubscription` up to the `await`.
unfoldable pub decrement_subscription : ChannelRegistry → String → ChannelRegistry × Started
unfolding get_ref_count
decrement_subscription r channel =
    let current = get_ref_count r channel in
    if leb current 0
    then begun r (delete channel r.channel_ref_counts) (answered false)
    else if current == 1
    then begun r (delete channel r.channel_ref_counts) (awaiting (unsubscribe channel))
    else begun r (set channel (current - 1) r.channel_ref_counts) (answered false)

unfoldable pub settle_unsubscribe : ChannelRegistry → String → Bool → ChannelRegistry × Option Bool
settle_unsubscribe r channel true = (r, some true)
settle_unsubscribe r channel false =
    (record r { channel_ref_counts = set channel 1 r.channel_ref_counts }, none)

on_channel :
    (ChannelRegistry → String → ChannelRegistry × Started)
    → ChannelRegistry
    → Option String
    → ChannelRegistry × Started
on_channel operation r none = (r, threw)
on_channel operation r (some channel) = operation r channel

unfoldable pub subscribe_room : ChannelRegistry → String → ChannelRegistry × Started
unfolding on_channel
subscribe_room r room_id = on_channel increment_subscription r (get_room_channel room_id)

unfoldable pub unsubscribe_room : ChannelRegistry → String → ChannelRegistry × Started
unfolding on_channel
unsubscribe_room r room_id = on_channel decrement_subscription r (get_room_channel room_id)

unfoldable pub subscribe_user : ChannelRegistry → String → ChannelRegistry × Started
unfolding on_channel
subscribe_user r user_id = on_channel increment_subscription r (get_user_channel user_id)

unfoldable pub unsubscribe_user : ChannelRegistry → String → ChannelRegistry × Started
unfolding on_channel
unsubscribe_user r user_id = on_channel decrement_subscription r (get_user_channel user_id)

unfoldable pub subscribe_presence : ChannelRegistry → ChannelRegistry × Started
subscribe_presence r = increment_subscription r channel_presence_events

unfoldable pub unsubscribe_presence : ChannelRegistry → ChannelRegistry × Started
unsubscribe_presence r = decrement_subscription r channel_presence_events

-- An error of one channel does not keep the others from being unsubscribed.
unfoldable pub clear : ChannelRegistry → ChannelRegistry
unfolding get_active_channels
clear r = record {
  channel_ref_counts = [];
  commands = r.commands ++ map unsubscribe (get_active_channels r);
}
