-- ===== src/App/Tests.antt =====
-- The theorems about sessions, at a registry with one bound session and one free one.
use dungeon_crawler.Base.{
  if◌then◌else◌, find, contains, values, ◌≡◌, refl, ◌⊎◌, false, ◌&&◌, none, some, [], ◌∷◌, arith,
}
use dungeon_crawler.Samples.{settings}
use dungeon_crawler.Types.MessageType.{move, domain_message}
use dungeon_crawler.Types.Direction.{left, cast_direction}
use dungeon_crawler.Types.GameState.{DungeonSnapshot}
use dungeon_crawler.Frame.{ByteBuffer}
use dungeon_crawler.Lobby.Manager.{left}
use dungeon_crawler.Wire.Toy.{toy}
use dungeon_crawler.Wire.Snapshot.{serialize_game_state}
use dungeon_crawler.App.Sender.{send_moved, send_state, on_game_state_update}
use dungeon_crawler.App.Sessions.{
  Session, SessionRegistry, remove_session_by_session_id, find_session_by_session_id,
  is_player_id_bound, is_session_id_bound, get_player_id_by_session_id, get_session_id_by_player_id,
  get_all_sessions, bind_player_to_session,
}
use dungeon_crawler.App.Sessions.Linked.{IsLinked, remove_session-IsLinked, bind_player-IsLinked}
use dungeon_crawler.App.Connections.{
  ConnectionManager, player_reconnected, player_reconnection_failed, handle_client_disconnected,
  handle_player_reconnect_requested, handle_client_disconnected_lem, in_time,
  handle_player_reconnect_requested_lem,
}
use dungeon_crawler.App.Router.{
  Message, move_request, cast_to_direction, create_event_2, create_move, make_event, takes_session,
  takes_player, player_args, check_player, event_args, on_message, event_player, event_session,
  on_message_sound,
}

abbrev bound_session : Session
bound_session = record { session_id = 1 }

abbrev free_session : Session
free_session = record { session_id = 2 }

abbrev next_session : Session
next_session = record { session_id = 3 }

abbrev two_sessions : SessionRegistry
two_sessions = record {
  sessions = (1, bound_session) ∷ (2, free_session) ∷ [];
  player_to_session = (7, 1) ∷ [];
  session_to_player = (1, 7) ∷ [];
}

two_sessions-IsLinked : IsLinked two_sessions
unfolding find contains
two_sessions-IsLinked = record {
  inverse = λ pid sid. (λ h. ground (arith, h), λ h. ground (arith, h));
  present = λ sid h. ground (arith, h);
}

player_free : is_player_id_bound 8 two_sessions ≡ false
unfolding is_player_id_bound contains find
player_free = refl

session_free : is_session_id_bound 2 two_sessions ≡ false
unfolding is_session_id_bound contains find
session_free = refl

player_of : get_player_id_by_session_id 1 two_sessions ≡ some 7
unfolding get_player_id_by_session_id find
player_of = refl

remove_session-IsLinked_example :
    IsLinked (remove_session_by_session_id 1 two_sessions).0
    × ((remove_session_by_session_id 1 two_sessions).1 ≡ contains 1 two_sessions.sessions)
    × (get_player_id_by_session_id 1 (remove_session_by_session_id 1 two_sessions).0 ≡ none)
remove_session-IsLinked_example = remove_session-IsLinked 1 two_sessions two_sessions-IsLinked

bind_player-IsLinked_example :
    IsLinked (bind_player_to_session 8 2 two_sessions).0
    × ((bind_player_to_session 8 2 two_sessions).1 ≡ contains 2 two_sessions.sessions)
    × (get_session_id_by_player_id 8 (bind_player_to_session 8 2 two_sessions).0
        ≡ (if contains 2 two_sessions.sessions then some 2 else none))
bind_player-IsLinked_example =
    bind_player-IsLinked 8 2 two_sessions two_sessions-IsLinked player_free session_free

abbrev connections : ConnectionManager
connections = record { session_registry = two_sessions; disconnected_players = (8, 100) ∷ [] }

handle_client_disconnected_lem_example :
    let m' = handle_client_disconnected 105 (some bound_session) connections in
    IsLinked m'.session_registry
    × (find 7 m'.disconnected_players ≡ some 105)
    × (is_player_id_bound 7 m'.session_registry ≡ false)
    × (find_session_by_session_id bound_session.session_id m'.session_registry ≡ none)
handle_client_disconnected_lem_example =
    handle_client_disconnected_lem 105 bound_session 7 connections two_sessions-IsLinked player_of

handle_player_reconnect_requested_lem_example :
    let (m', answer) = handle_player_reconnect_requested settings 105 8 2 connections in
    let returns =
      in_time settings 105 (find 8 connections.disconnected_players)
      && contains 2 connections.session_registry.sessions in
    IsLinked m'.session_registry
    × (answer ≡ (if returns then player_reconnected 2 8 else player_reconnection_failed 2 8))
    × (get_session_id_by_player_id 8 m'.session_registry ≡ (if returns then some 2 else none))
    × (find 8 m'.disconnected_players ≡ none)
handle_player_reconnect_requested_lem_example =
    handle_player_reconnect_requested_lem settings 105 8 2 connections two_sessions-IsLinked
      player_free session_free

abbrev step_left : Message
step_left = record { type = domain_message move; args = 2 ∷ [] }

step_left_run : on_message 1 step_left two_sessions ≡ some (move_request 7 left)
unfolding on_message event_args takes_session takes_player check_player player_args
    get_player_id_by_session_id find make_event create_event_2 create_move cast_to_direction
    cast_direction
step_left_run = refl

on_message_sound_example :
    (event_session (move_request 7 left) ≡ some 1)
    ⊎ ((event_session (move_request 7 left) ≡ none) × (event_player (move_request 7 left) ≡ 7))
on_message_sound_example =
    on_message_sound 1 7 step_left two_sessions (move_request 7 left) player_of step_left_run

abbrev one_player : DungeonSnapshot
one_player = record {
  game_map = record { blc_x = 0; blc_y = 0; trc_x = 9; trc_y = 9; barriers = [] };
  players = record { type = 0; state = 1; id = 7; pos_x = 1; pos_y = 2; hp = 10 } ∷ [];
  mobs = [];
}

abbrev state_bytes : ByteBuffer
state_bytes =
    2 ∷ 4 ∷ 3 ∷ 109 ∷ 97 ∷ 112 ∷ 15 ∷ 1 ∷ 2 ∷ 0 ∷ 0 ∷ 2 ∷ 0 ∷ 0 ∷ 2 ∷ 0 ∷ 9 ∷ 2 ∷ 0 ∷ 9 ∷ 1 ∷ 1 ∷ 8
    ∷ 3 ∷ 112 ∷ 108 ∷ 97 ∷ 121 ∷ 101 ∷ 114 ∷ 115 ∷ 21 ∷ 1 ∷ 19 ∷ 1 ∷ 2 ∷ 0 ∷ 0 ∷ 2 ∷ 0 ∷ 1 ∷ 2 ∷ 0
    ∷ 7 ∷ 2 ∷ 0 ∷ 1 ∷ 2 ∷ 0 ∷ 2 ∷ 2 ∷ 0 ∷ 10 ∷ 5 ∷ 3 ∷ 109 ∷ 111 ∷ 98 ∷ 115 ∷ 1 ∷ 1 ∷ []

state_serialized : serialize_game_state toy one_player ≡ some state_bytes
unfolding serialize_game_state
state_serialized = refl

-- The snapshot goes to the first session only, and an empty message to the other one.
update_sent :
    on_game_state_update toy (some one_player) two_sessions ≡ (1, state_bytes) ∷ (2, []) ∷ []
unfolding on_game_state_update send_state send_moved get_all_sessions values
update_sent = rw state_serialized refl
