-- ===== src/Types.antt =====
-- The value types that client and server share: src/common/types, and the header of a raw
-- message, src/common/wire/message_utils.h.
pub mod Direction
pub mod MessageType
pub mod MessageUtils
pub mod RawMessage
pub mod GameState
mod Tests
