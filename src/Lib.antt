-- ===== src/Lib.antt =====
-- Verification of the dungeon crawler, a game server over TCP with a terminal client. A client sends
-- framed messages; the server takes the frames out of the byte stream, turns the messages into events,
-- seats players in lobbies, and runs their games in dungeons, one tick after the other.
--
-- The parts, by file, with the code that they model:
--
-- - Base: maps with ids for keys (std::unordered_map, in any iteration order), lists and integers.
-- - Settings: the fields of src/common/utility/config.h that the rest reads, and in Settings.Loading what
--   config.cpp makes of a JSON value and the environment, with both as parameters. Samples: values for tests.
-- - Types: src/common/types (directions, message types, their 16-bit codes) and
--   src/common/wire/message_utils.h (raw messages). `pack_message_type` is packMessageType, and so on.
-- - Frame: src/common/network/frame_codec.h; Frame.ZeroCopy: frame_codec_zc.h. The buffer is the list of
--   its bytes. Frame.Reader has the reference decoder `decode`, which looks at the head of the list
--   only; Frame.Stream has what it does with a stream in pieces.
-- - World: src/server/domain/map (positions, map) and src/server/domain/entity.
-- - Dungeon: src/server/domain/dungeon: dungeon.cpp with its commands and its tick; the child modules
--   model entity_manager.h, spawner.h, monster_control.h and create_game_state.cpp, and prove what a tick keeps.
-- - Lobby: src/server/domain/lobby: Lobby.Room is lobby.cpp, Lobby.Registry is lobby_registry.cpp and
--   Lobby.Manager the handlers of lobby_manager.cpp.
-- - Wire: src/common/wire: messages (serder.cpp, in Wire.Message) and snapshots (serder_game_state.cpp, in
--   Wire.Snapshot) as CBOR. The library libcbor is a parameter: the record `Cbor` has its calls, and
--   `IsDocumented` what the code relies on of them. Wire.Toy is a library for tests that fulfils it.
-- - App: src/server/app: session_registry.cpp, connection_manager.cpp, Router for msg_router.cpp and
--   msg_dispatcher.cpp from the deserialized message on, and Sender for response_sender.cpp.
-- - Net: Net.Session is src/server/network/session.cpp and Net.Client src/client/network/client.cpp. Their
--   handlers run on a strand; a run is a sequence of inputs, each a call or the completion of an operation
--   that is pending in boost::asio. Among the client's are what async_connect does
--   to the socket, and a new connection while operations are pending. Net.Pipeline puts together the way
--   from a client's message to an event.
-- - Ids: the packing of names in src/common/utility/hash.h.
-- - Client: src/client/ui/command_router.cpp and keyboard_controller.cpp, with
--   src/common/utility/string_utils.h: from a line or a key to the bytes that are sent. Client.Map is
--   render_game_state.cpp and Client.Messages message_router.cpp: what the player sees of a snapshot, and of
--   the other messages.
-- - Game: the dungeon registry (src/server/domain/dungeon/dungeon_registry.cpp) and, in Game.Manager, the
--   handlers of src/server/app/game_manager.cpp, which start games from lobbies and tick them.
--
-- An operation takes the state and returns the new one with its result; what a handler publishes is its
-- result. The handlers of a component run on a strand or under a mutex, so they are steps that follow
-- one another. Random draws, and the time, are arguments, and the theorems hold for all of them. A machine
-- integer keeps its bounds: uint64_t arithmetic is written modulo 2 ^ 64, int64_t coordinates are
-- integers in their range.
--
-- The scanning loops of the frame codecs run on fuel, one more than the length of the buffer: each
-- round but the last takes a byte or more, so the fuel never runs out. The loop of the spawner
-- counts its rounds down. All other loops follow a list.
--
-- Not modelled: boost::asio itself and accepting connections, the event bus and the timer, logging, parsing
-- JSON, the Euclidean distance (floating point), the client's manager and terminal. An id is its number;
-- hashes only decide iteration orders.
pub mod Base
pub mod Types
pub mod Frame
pub mod World
pub mod Settings
pub mod Samples
pub mod Dungeon
pub mod Lobby
pub mod App
pub mod Game
pub mod Wire
pub mod Net
pub mod Ids
pub mod Client
