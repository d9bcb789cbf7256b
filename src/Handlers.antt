-- ===== src/Handlers.antt =====
-- The handlers of src/core/MessageDispatcher.ts for one validated envelope. A handler runs up to its
-- first `await`; what is left then is a value of `Pending`, which `resume` takes up. The messages of
-- error payloads are left out.
pub mod Joining
pub mod Messaging
pub mod JoinLaws
pub mod LateJoin
pub mod Inbound
