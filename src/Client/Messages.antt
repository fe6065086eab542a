-- ===== src/Client/Messages.antt =====
-- src/client/ui/message_router.cpp: what the player is shown of a message from the server. A text is a case here.
pub mod Answers
use dungeon_crawler.Base.{ℕ, Option, none, some, List, [], ◌∷◌}
use dungeon_crawler.Types.MessageType.{
  welcome, auth_failed, party_created, party_not_created, list_parties_created,
  list_parties_not_created, player_joined_party, player_not_joined_party, game_started,
  game_not_started, player_not_joined_full_party, player_not_joined_not_exist_party, MessageType,
  network_message, app_message,
}
use dungeon_crawler.Frame.{ByteBuffer}
use dungeon_crawler.App.Router.{Message}
use dungeon_crawler.Ids.{decode_string}
use dungeon_crawler.Wire.{Cbor}
use dungeon_crawler.Wire.Message.{deserialize_buffer_to_message}
use dungeon_crawler.Wire.Snapshot.{deserialize_game_state}
use dungeon_crawler.Types.GameState.{DungeonSnapshot}
use dungeon_crawler.Client.Map.{Line, render_game_state}

-- `formatOutput`: the three kinds of arguments, and the texts that it gives
pub data IdType : Type 0 where
  player_id_type lobby_id_type lobby_list_type : IdType

pub data Formatted : Type 0 where
  malformed player_id_decode_error : Formatted
  player_name : List ℕ → Formatted
  lobby_number : ℕ → Formatted
  lobby_numbers : List ℕ → Formatted

unfoldable pub name_of : Option (List ℕ) → Formatted
name_of none = player_id_decode_error
name_of (some name) = player_name name

unfoldable pub format_output : List ℕ → IdType → Formatted
format_output [] id_type = malformed
format_output (a ∷ args) player_id_type = name_of (decode_string a)
format_output (a ∷ args) lobby_id_type = lobby_number a
format_output (a ∷ args) lobby_list_type = lobby_numbers (a ∷ args)

pub data Shown : Type 0 where
  lines : List Line → Shown
  parse_failed unknown_network_message unknown_app_message unsupported_level : Shown
  welcomed lobby_not_created list_not_created join_success join_not_made : Shown
  join_lobby_full join_lobby_not_exist start_game_success start_game_failed : Shown
  authentication_failed lobby_was_created lobby_list_was_created : Formatted → Shown

unfoldable pub show_message : MessageType → List ℕ → Shown
show_message (network_message welcome) args = welcomed
show_message (network_message auth_failed) args =
    authentication_failed (format_output args player_id_type)
show_message (network_message _) args = unknown_network_message
show_message (app_message party_created) args = lobby_was_created (format_output args lobby_id_type)
show_message (app_message party_not_created) args = lobby_not_created
show_message (app_message list_parties_created) args =
    lobby_list_was_created (format_output args lobby_list_type)
show_message (app_message list_parties_not_created) args = list_not_created
show_message (app_message player_joined_party) args = join_success
show_message (app_message player_not_joined_party) args = join_not_made
show_message (app_message player_not_joined_full_party) args = join_lobby_full
show_message (app_message player_not_joined_not_exist_party) args = join_lobby_not_exist
show_message (app_message game_started) args = start_game_success
show_message (app_message game_not_started) args = start_game_failed
show_message (app_message _) args = unknown_app_message
show_message _ args = unsupported_level

unfoldable pub show_parsed : Option Message → Shown
show_parsed none = parse_failed
show_parsed (some m) = show_message m.type m.args

module _ (c : Cbor) where
  -- `routeMessage`: a snapshot is tried first.
  unfoldable pub show_either : Option DungeonSnapshot → ByteBuffer → Shown
  show_either (some s) data_bytes = lines (render_game_state s)
  show_either none data_bytes = show_parsed (deserialize_buffer_to_message c data_bytes)

  unfoldable pub route_message : ByteBuffer → Shown
  route_message data_bytes = show_either (deserialize_game_state c data_bytes) data_bytes
