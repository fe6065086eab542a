-- ===== src/Client/Commands.antt =====
-- src/client/ui/command_router.cpp, client_commands.h and keyboard_controller.cpp. A text is the list of its codes.
use dungeon_crawler.Base.{
  ltb, leb, ◌==◌, if◌then◌else◌, bytes_eq, length, ℕ, ◌+◌, ◌&&◌, ◌||◌, Option, none, some, List, [],
  ◌∷◌,
}
use dungeon_crawler.Types.MessageType.{
  join, create_party, list_parties, join_party, start_game, move, attack, MessageType,
  network_message, app_message, domain_message,
}
use dungeon_crawler.Types.Direction.{Direction, up, down, left, right, direction_to_byte}
use dungeon_crawler.Frame.{ByteBuffer}
use dungeon_crawler.Ids.{codes, encode_string}
use dungeon_crawler.Client.Text.{read_word, convert_string_to_uint64}
use dungeon_crawler.Wire.{Cbor}
use dungeon_crawler.Wire.Message.{serialize_message_to_buffer}

-- What a command gives: the bytes to send, or what the player is told
pub data Told : Type 0 where
  serialize_failed : MessageType → Told
  invalid_name invalid_characters invalid_lobby_id unknown_command : Told
  usage_join usage_join_lobby usage_move : Told

pub data Routed : Type 0 where
  send_bytes : ByteBuffer → Routed
  tell : Told → Routed

abbrev pub min_len_player_name : ℕ
min_len_player_name = 4

abbrev pub max_len_player_name : ℕ
max_len_player_name = 10

-- `directionFromString`
unfoldable pub direction_from_word : List ℕ → Option Direction
direction_from_word w =
    if bytes_eq w (codes "UP")
    then some up
    else if bytes_eq w (codes "DOWN")
    then some down
    else if bytes_eq w (codes "LEFT")
    then some left
    else if bytes_eq w (codes "RIGHT")
    then some right
    else none

unfoldable pub serialized : MessageType → Option ByteBuffer → Routed
serialized type none = tell (serialize_failed type)
serialized type (some buffer) = send_bytes buffer

module _ (c : Cbor) where
  unfoldable pub try_serialize : MessageType → List ℕ → Routed
  try_serialize type args = serialized type (serialize_message_to_buffer c type args)

  unfoldable pub join_as : Option ℕ → Routed
  join_as none = tell invalid_characters
  join_as (some player_id) = try_serialize (network_message join) (player_id ∷ [])

  unfoldable pub handle_join : List ℕ → Routed
  handle_join name =
      if ltb (length name) min_len_player_name || ltb max_len_player_name (length name)
      then tell invalid_name
      else join_as (encode_string name)

  unfoldable pub join_lobby_as : Option ℕ → Routed
  join_lobby_as none = tell invalid_lobby_id
  join_lobby_as (some lobby_id) = try_serialize (app_message join_party) (lobby_id ∷ [])

  unfoldable pub handle_join_lobby : List ℕ → Routed
  handle_join_lobby lobby = join_lobby_as (convert_string_to_uint64 lobby)

  unfoldable pub move_byte : Option ℕ → Routed
  move_byte none = tell unknown_command
  move_byte (some byte) = try_serialize (domain_message move) (byte ∷ [])

  unfoldable pub move_in : Option Direction → Routed
  move_in none = tell unknown_command
  move_in (some dir) = move_byte (direction_to_byte dir)

  unfoldable pub handle_move : List ℕ → Routed
  handle_move dir_str = move_in (direction_from_word dir_str)

  -- A command with an argument: what is told without it, and the handler of the word.
  unfoldable pub with_word : Told → (List ℕ → Routed) → Option (List ℕ × List ℕ) → Routed
  with_word usage handler none = tell usage
  with_word usage handler (some (word, rest)) = handler word

  unfoldable pub route_word : List ℕ → List ℕ → Routed
  route_word cmd rest =
      if bytes_eq cmd (codes "JOIN")
      then with_word usage_join handle_join (read_word rest)
      else if bytes_eq cmd (codes "CREATE_LOBBY")
      then try_serialize (app_message create_party) []
      else if bytes_eq cmd (codes "LIST_LOBBY")
      then try_serialize (app_message list_parties) []
      else if bytes_eq cmd (codes "JOIN_LOBBY")
      then with_word usage_join_lobby handle_join_lobby (read_word rest)
      else if bytes_eq cmd (codes "START_GAME")
      then try_serialize (app_message start_game) []
      else if bytes_eq cmd (codes "MOVE")
      then with_word usage_move handle_move (read_word rest)
      else if bytes_eq cmd (codes "ATTACK")
      then try_serialize (domain_message attack) []
      else tell unknown_command

  -- `routeCommand`; a line without a word is an unknown command.
  unfoldable pub route_first : Option (List ℕ × List ℕ) → Routed
  route_first none = route_word [] []
  route_first (some (cmd, rest)) = route_word cmd rest

  unfoldable pub route_command : List ℕ → Routed
  route_command line = route_first (read_word line)

-- `commandFromKey`; `std::tolower` changes the letters A to Z only.
unfoldable pub lower_key : ℕ → ℕ
lower_key key = if leb b'A' key && leb key b'Z' then key + 32 else key

unfoldable pub command_from_key : ℕ → Option (List ℕ)
command_from_key key =
    let lower = lower_key key in
    if lower == b'w'
    then some (codes "MOVE UP")
    else if lower == b'a'
    then some (codes "MOVE LEFT")
    else if lower == b's'
    then some (codes "MOVE DOWN")
    else if lower == b'd'
    then some (codes "MOVE RIGHT")
    else if lower == b'x'
    then some (codes "ATTACK")
    else if lower == b'1'
    then some (codes "JOIN 12345")
    else if lower == b'2'
    then some (codes "CREATE_LOBBY")
    else if (lower == b'3') || (lower == b'4') || (lower == b'6')
    then some []
    else if lower == b'5'
    then some (codes "START_GAME")
    else if lower == b'7'
    then some (codes "EXIT")
    else none
