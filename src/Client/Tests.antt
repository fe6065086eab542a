-- ===== src/Client/Tests.antt =====
-- The theorems about names and commands.
use dungeon_crawler.Client.Messages.Answers.{shown_response, response_shown}
use dungeon_crawler.Client.Messages.{route_message}
use dungeon_crawler.Lobby.Manager.{lobbies_listed}
use dungeon_crawler.App.Sessions.Linked.{IsLinked}
use dungeon_crawler.App.Sender.Delivery.{IsKeyed}
use dungeon_crawler.App.Sender.{
  lobby_response, player_of_response, message_of_response, send_response,
}
use dungeon_crawler.Frame.{ByteBuffer}
use dungeon_crawler.Types.MessageType.{list_parties_created, app_message}
use dungeon_crawler.Base.{
  get_elem?, find, contains, ℕ, ◌+◌, ◌-◌, ◌^◌, ◌≤◌, ◌<◌, ◌≡◌, refl, inr, some, List, [], ◌∷◌, ◌++◌,
  arith,
}
use dungeon_crawler.Types.Direction.{up}
use dungeon_crawler.App.Router.{Message, Event, move_request}
use dungeon_crawler.App.Sessions.{SessionRegistry, get_player_id_by_session_id}
use dungeon_crawler.Ids.RoundTrip.{decode-encode_string}
use dungeon_crawler.Types.MessageUtils.{is_unknown_message, pack_message_type}
use dungeon_crawler.Wire.{cbor_to_message}
use dungeon_crawler.Wire.Toy.{toy, toy-IsDocumented}
use dungeon_crawler.Wire.Message.{
  add_arg_to_array, create_message_array, add_args, serialize_message_to_buffer,
}
use dungeon_crawler.Net.Pipeline.{on_raw_message}
use dungeon_crawler.Ids.{codes, find_index, encode_chars, encode_string, decode_string}
use dungeon_crawler.Client.Text.{is_space, read_word}
use dungeon_crawler.Client.Commands.{
  send_bytes, serialized, try_serialize, route_word, route_first, route_command, command_from_key,
}
use dungeon_crawler.Client.Keys.{key_moves}
use dungeon_crawler.Types.GameState.{DungeonSnapshot}
use dungeon_crawler.Client.Map.{invalid_coordinates, map_row, edge_symbol, render_game_state}
use dungeon_crawler.Client.Map.Drawn.{symbol_at}
use dungeon_crawler.Client.Map.Printed.{IsShown, render_game_state_lem}
use dungeon_crawler.Client.Accepted.{route_command_lem}

abbrev bound_sessions : SessionRegistry
bound_sessions = record {
  sessions = (1, record { session_id = 1 }) ∷ [];
  player_to_session = (7, 1) ∷ [];
  session_to_player = (1, 7) ∷ [];
}

player_known : get_player_id_by_session_id 1 bound_sessions ≡ some 7
unfolding get_player_id_by_session_id find
player_known = refl

key_moves_example :
    (line : List ℕ) × (b : List ℕ) × (command_from_key b'W' ≡ some line)
    × (route_command toy line ≡ send_bytes b)
    × (on_raw_message toy 1 bound_sessions b ≡ some (move_request 7 up))
key_moves_example =
    key_moves toy toy-IsDocumented 1 7 bound_sessions up b'W' player_known (inr refl)

-- `ATTACK`, as the library for tests serializes it
abbrev attack_bytes : List ℕ
attack_bytes = 1 ∷ 2 ∷ 0 ∷ 515 ∷ []

attack_routed : route_command toy (codes "  ATTACK now") ≡ send_bytes attack_bytes
unfolding route_command route_first route_word read_word is_space try_serialize serialized
    serialize_message_to_buffer create_message_array add_args add_arg_to_array pack_message_type
    cbor_to_message is_unknown_message
attack_routed = refl

route_command_lem_example :
    (e : Event) × (on_raw_message toy 1 bound_sessions attack_bytes ≡ some e)
route_command_lem_example =
    route_command_lem toy 1 7 bound_sessions (codes "  ATTACK now") attack_bytes toy-IsDocumented
      player_known attack_routed

name_code : encode_string (codes "ab1") ≡ some 3458764513820758080
unfolding encode_string encode_chars find_index
name_code = refl

decode-encode_string_example :
    (decode_string 3458764513820758080 ≡ some (codes "ab1")) × (3458764513820758080 < 2 ^ 64)
decode-encode_string_example = decode-encode_string (codes "ab1") 3458764513820758080 name_code

abbrev small_map : DungeonSnapshot
small_map = record {
  game_map = record {
    blc_x = 1;
    blc_y = 2;
    trc_x = 3;
    trc_y = 4;
    barriers = record { pos_x = 3; pos_y = 4 } ∷ [];
  };
  players = record { type = 0; state = 1; id = 7; pos_x = 2; pos_y = 2; hp = 10 } ∷ [];
  mobs = record { type = 1; state = 1; id = 1; pos_x = 3; pos_y = 2; hp = 5 } ∷ [];
}

small_map-IsShown : IsShown small_map.game_map
small_map-IsShown = ground arith

render_game_state_lem_example :
    (row : List ℕ) × (get_elem? (render_game_state small_map) (2 + (4 - 2 - 0))
      ≡ some (map_row (edge_symbol ∷ (row ++ (edge_symbol ∷ [])))))
    × ((k : ℕ) → k ≤ 3 - 1 → get_elem? row k ≡ some (symbol_at small_map (1 + k) (2 + 0)))
render_game_state_lem_example = render_game_state_lem small_map 0 small_map-IsShown (omega arith)

-- A map that reaches from -1 to 1: the server sends its lower corner as 2 ^ 64 - 1.
abbrev map_around_zero : DungeonSnapshot
map_around_zero = record {
  game_map = record { blc_x = 2 ^ 64 - 1; blc_y = 2 ^ 64 - 1; trc_x = 1; trc_y = 1; barriers = [] };
  players = [];
  mobs = [];
}

map_around_zero_refused : render_game_state map_around_zero ≡ invalid_coordinates ∷ []
unfolding render_game_state
map_around_zero_refused = refl

bound_sessions-IsLinked : IsLinked bound_sessions
unfolding find contains
bound_sessions-IsLinked = record {
  inverse = λ pid sid. (λ h. ground (arith, h), λ h. ground (arith, h));
  present = λ sid h. ground (arith, h);
}

bound_sessions-IsKeyed : IsKeyed bound_sessions
unfolding find
bound_sessions-IsKeyed sid s h = ground (arith, h)

abbrev empty_list : Message
empty_list = record { type = app_message list_parties_created; args = [] }

-- A player who asks for the lobbies when there is none is shown a malformed message.
response_shown_example :
    (b : ByteBuffer) × (send_response toy (lobby_response (lobbies_listed 7 [])) bound_sessions
      ≡ (1, b) ∷ [])
    × (route_message toy b ≡ shown_response (lobbies_listed 7 []))
unfolding message_of_response player_of_response find
response_shown_example =
    response_shown toy toy-IsDocumented (lobbies_listed 7 []) empty_list 1 bound_sessions
      bound_sessions-IsLinked bound_sessions-IsKeyed refl refl tt
