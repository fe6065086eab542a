-- ===== src/App/Sender.antt =====
-- src/server/app/response_sender.cpp and response_sender.h: from the events that answer a client to the bytes that a
-- session is given to send. What is sent is a session's id with the bytes.
pub mod Delivery
use dungeon_crawler.Base.{if◌then◌else◌, is_nil, ℕ, Option, none, some, List, [], ◌∷◌}
use dungeon_crawler.Types.MessageType.{
  welcome, auth_failed, reconnected, not_reconnected, party_created, party_not_created,
  list_parties_created, list_parties_not_created, player_joined_party, player_not_joined_party,
  player_leaved_party, player_not_leaved_party, start_game, network_message, app_message,
}
use dungeon_crawler.Types.GameState.{DungeonSnapshot}
use dungeon_crawler.Frame.{ByteBuffer}
use dungeon_crawler.App.Router.{Message}
use dungeon_crawler.App.Sessions.{
  Session, SessionRegistry, find_session_by_session_id, find_session_by_player_id, get_all_sessions,
}
use dungeon_crawler.App.Connections.{
  Answer, player_authenticated, player_authentication_failed, player_reconnected,
  player_reconnection_failed,
}
use dungeon_crawler.Lobby.Manager.{
  Response, lobby_created, lobby_creation_failed, joined, join_not_exists, join_full, join_failed,
  left, leave_not_in_lobby, leave_failed, ready_set, ready_failed, lobbies_listed,
}
use dungeon_crawler.Wire.{Cbor}
use dungeon_crawler.Wire.Message.{serialize_message_to_buffer}
use dungeon_crawler.Wire.Snapshot.{serialize_game_state}

-- The events of `initialize`, and those of the lobby that nothing subscribes to
pub data Reply : Type 0 where
  connection_answer : Answer → Reply
  lobby_response : Response → Reply
  list_lobbies_failed : ℕ → Reply
  start_game_response : ℕ → ℕ → Reply

-- `getSessionForEvent`: by the session's id if the event has one, else by the player's.
unfoldable pub session_of_answer : Answer → SessionRegistry → Option Session
session_of_answer (player_authenticated sid pid) r = find_session_by_session_id sid r
session_of_answer (player_authentication_failed sid pid) r = find_session_by_session_id sid r
session_of_answer (player_reconnected sid pid) r = find_session_by_session_id sid r
session_of_answer (player_reconnection_failed sid pid) r = find_session_by_session_id sid r

unfoldable pub player_of_response : Response → ℕ
player_of_response (lobby_created pid lid) = pid
player_of_response (lobby_creation_failed pid) = pid
player_of_response (joined pid) = pid
player_of_response (join_not_exists pid) = pid
player_of_response (join_full pid) = pid
player_of_response (join_failed pid) = pid
player_of_response (left pid) = pid
player_of_response (leave_not_in_lobby pid) = pid
player_of_response (leave_failed pid) = pid
player_of_response (ready_set pid) = pid
player_of_response (ready_failed pid) = pid
player_of_response (lobbies_listed pid lids) = pid

unfoldable pub get_session_for_event : Reply → SessionRegistry → Option Session
get_session_for_event (connection_answer a) r = session_of_answer a r
get_session_for_event (lobby_response e) r = find_session_by_player_id (player_of_response e) r
get_session_for_event (list_lobbies_failed pid) r = find_session_by_player_id pid r
get_session_for_event (start_game_response pid gid) r = find_session_by_player_id pid r

-- The handlers: the message of each event. Those that nothing subscribes to have none.
unfoldable pub message_of_answer : Answer → Message
message_of_answer (player_authenticated sid pid) = record {
  type = network_message welcome;
  args = [];
}
message_of_answer (player_authentication_failed sid pid) = record {
  type = network_message auth_failed;
  args = pid ∷ [];
}
message_of_answer (player_reconnected sid pid) = record {
  type = network_message reconnected;
  args = [];
}
message_of_answer (player_reconnection_failed sid pid) = record {
  type = network_message not_reconnected;
  args = [];
}

unfoldable pub message_of_response : Response → Option Message
message_of_response (lobby_created pid lid) =
    some (record { type = app_message party_created; args = lid ∷ [] })
message_of_response (lobby_creation_failed pid) =
    some (record { type = app_message party_not_created; args = [] })
message_of_response (joined pid) =
    some (record { type = app_message player_joined_party; args = [] })
message_of_response (join_failed pid) =
    some (record { type = app_message player_not_joined_party; args = [] })
message_of_response (left pid) = some (record { type = app_message player_leaved_party; args = [] })
message_of_response (leave_failed pid) =
    some (record { type = app_message player_not_leaved_party; args = [] })
message_of_response (lobbies_listed pid lids) =
    some (record { type = app_message list_parties_created; args = lids })
message_of_response _ = none

unfoldable pub reply_message : Reply → Option Message
reply_message (connection_answer a) = some (message_of_answer a)
reply_message (lobby_response e) = message_of_response e
reply_message (list_lobbies_failed pid) =
    some (record { type = app_message list_parties_not_created; args = [] })
reply_message (start_game_response pid gid) =
    some (record { type = app_message start_game; args = [] })

abbrev pub Sent : Type 0
Sent = List (ℕ × ByteBuffer)

-- `sendResponseImpl`
unfoldable pub send_response_impl : Option Session → Option ByteBuffer → Sent
send_response_impl (some s) (some buffer) = (s.session_id, buffer) ∷ []
send_response_impl _ _ = []

module _ (c : Cbor) where
  -- `sendResponse`, for an event with a handler
  unfoldable pub send_message_to : Option Session → Option Message → Sent
  send_message_to session none = []
  send_message_to session (some m) =
      send_response_impl session (serialize_message_to_buffer c m.type m.args)

  unfoldable pub send_response : Reply → SessionRegistry → Sent
  send_response event r = send_message_to (get_session_for_event event r) (reply_message event)

  -- `onGameStateUpdate`: the first session's message takes the bytes of the buffer away (`std::move`).
  unfoldable pub send_moved : ByteBuffer → List Session → Sent
  send_moved buffer [] = []
  send_moved buffer (s ∷ sessions) = (s.session_id, buffer) ∷ send_moved [] sessions

  unfoldable pub send_state : Option ByteBuffer → List Session → Sent
  send_state none sessions = []
  send_state (some buffer) sessions = send_moved buffer sessions

  unfoldable pub on_game_state_update : Option DungeonSnapshot → SessionRegistry → Sent
  on_game_state_update none r = []
  on_game_state_update (some snapshot) r =
      if is_nil snapshot.players
      then []
      else send_state (serialize_game_state c snapshot) (get_all_sessions r)
