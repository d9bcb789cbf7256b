-- ===== src/Lib.antt =====
-- Pulse, a distributed real-time messaging server, and its client: connections over WebSocket send
-- events, which a node validates, checks for duplicates and order, and delivers to rooms and
-- users; what concerns other nodes goes through Redis channels.
--
-- The parts and the files that model them:
-- - IdempotencyManager (src/core/IdempotencyManager.ts): the bounded cache of ACKs;
--   `hashPayload` is in IdempotencyManager/Hash.
-- - RoomManager (src/core/RoomManager.ts): the rooms as sets of connection ids. Its calls on the
--   channel registry are kept in order, and ChannelRegistry/Rooms runs them.
-- - ChannelRegistry (src/redis/ChannelRegistry.ts): the counts of subscribers by channel. A call
--   is `increment_subscription` or `decrement_subscription` up to its `await`, and
--   `settle_subscribe` or `settle_unsubscribe` when Redis has answered;
--   ChannelRegistry/Interleaving orders these freely.
-- - TokenBucket (src/utils/TokenBucket.ts): the rate limit, in thousandths of a token.
-- - ConnectionManager (src/core/ConnectionManager.ts): the connections, the index by user and
--   the reserved slots. A connection is a reference there; the objects are in the store of a
--   node.
-- - Envelope (src/types/index.ts) and EventValidator (src/events/EventValidator.ts): the
--   envelope, and the validation of frames of clients and of other nodes. Json has the values
--   that `JSON.parse` gives, with doubles as fractions.
-- - Connection (src/core/Connection.ts): the connection object, over the `ws` library as a
--   parameter.
-- - Node, Handlers and MessageDispatcher (src/core/MessageDispatcher.ts): the state of one node,
--   the handlers, `dispatchRawMessage`, and in Handlers/Inbound the events of other nodes. A
--   handler that awaits the presence manager stops with a `Pending` value, and `resume` goes on
--   with it on whatever node there is then.
-- - PresenceEventTracker (src/redis/PresenceEventTracker.ts): the last presence timestamp of
--   each user, for a bounded number of users.
-- - HeartbeatManager (src/core/HeartbeatManager.ts): the sweep over the connections, with
--   `terminate` of src/core/Connection.ts.
-- - WebSocketFrameFilter (src/chaos/WebSocketFrameFilter.ts): the frames in a stream of bytes.
--   WebSocketFrameFilter/Frames writes frames as RFC 6455 says, for the theorems.
-- - Uuidv7 (src/utils/uuidv7.ts): the choice of the time and the bytes of an id.
-- - RedisStore: the commands of Redis that presence uses, as an interface with laws, and in
--   RedisStore/Leases a store that fulfils them.
-- - PresenceLuaScripts (src/redis/PresenceLuaScripts.ts): keys, members and the three scripts over
--   that interface; PresenceLuaScripts/Texts cuts and joins texts.
-- - PresenceManager (src/redis/PresenceManager.ts): registration and removal of leases; their
--   renewal is in PresenceManager/Flush, the roster in PresenceManager/Roster, and the rest in
--   PresenceManager/Setup and PresenceManager/Queries. A call takes as arguments what Redis answers
--   and what others do to the store between its commands.
-- - OriginMatcher (src/utils/OriginMatcher.ts): the origins that an upgrade is accepted from.
-- - PulseServer (src/core/PulseServer.ts): upgrades with their reserved slots, the life of a
--   connection on a node, draining and stopping. A handshake under way is a claim of its own, which the
--   end of its socket or of the handshake clears.
-- - PulseClientSession (src/client/PulseClientSession.ts): the client's session. Lifecycle has
--   connecting, reconnecting and resubscribing, Requests what the application asks for and a
--   session's events. An entry of the in-flight queue is an object in a store of its own, since
--   its timer can outlive its place in the queue. What follows an `await` is an event.
-- - Metrics (src/metrics/Histogram.ts, src/metrics/types.ts): the labels and the histogram, over
--   whole numbers of a unit.
-- - JsMap: `Map` and `Set` in the order of insertion. Prelude: shared names and lemmas on texts.
-- - Tests: data, runs and the theorems at concrete states.
--
-- Times are whole milliseconds. Loops run over a list or a tree, but for the frame filter's, whose
-- fuel is one more than the bytes of the buffer: each frame takes two bytes or more.
--
-- Not modelled: the clock that fires timers (a firing is an event), the expiry of whole
-- keys, the text form of ids, the HTTP routes but for health and readiness, authentication, the
-- metrics beyond the histogram and the gauges and counters that the managers set, the logger, and
-- the texts of error messages. `ws` and the channels of Redis are seen by their answers only.
pub mod Prelude
pub mod JsMap
pub mod Json
pub mod Envelope
pub mod IdempotencyManager
pub mod RoomManager
pub mod ChannelRegistry
pub mod TokenBucket
pub mod ConnectionManager
pub mod EventValidator
pub mod Connection
pub mod Node
pub mod Handlers
pub mod MessageDispatcher
pub mod PresenceEventTracker
pub mod Tests
pub mod WebSocketFrameFilter
pub mod Uuidv7
pub mod RedisStore
pub mod PresenceLuaScripts
pub mod PresenceManager
pub mod HeartbeatManager
pub mod PulseClientSession
pub mod OriginMatcher
pub mod PulseServer
pub mod Metrics
