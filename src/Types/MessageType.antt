-- ===== src/Types/MessageType.antt =====
-- src/common/types/message_types.h: the three levels of messages, and the variant over them.
use dungeon_crawler.Base.{ℕ, List, [], ◌∷◌}

pub data Level : Type 0 where
  network app domain unknown : Level

-- `kMax` of each enumeration is a sentinel.
pub data NetworkMessageType : Type 0 where
  ping pong join welcome auth_failed reconnect reconnected not_reconnected : NetworkMessageType
  max_network : NetworkMessageType

pub data AppMessageType : Type 0 where
  create_party party_created party_not_created : AppMessageType
  list_parties list_parties_created list_parties_not_created : AppMessageType
  join_party player_joined_party player_not_joined_party : AppMessageType
  leave_party player_leaved_party player_not_leaved_party : AppMessageType
  start_game game_started game_not_started : AppMessageType
  player_not_joined_full_party player_not_joined_not_exist_party : AppMessageType
  max_app : AppMessageType

pub data DomainMessageType : Type 0 where
  move player_moved player_not_moved : DomainMessageType
  attack player_attacked player_not_attacked : DomainMessageType
  state_update state_not_updated game_over : DomainMessageType
  max_domain : DomainMessageType

-- std::variant<std::monostate, …>
pub data MessageType : Type 0 where
  monostate : MessageType
  network_message : NetworkMessageType → MessageType
  app_message : AppMessageType → MessageType
  domain_message : DomainMessageType → MessageType

-- The enumerators in the order of their values.
abbrev pub network_messages : List NetworkMessageType
network_messages =
    ping ∷ pong ∷ join ∷ welcome ∷ auth_failed ∷ reconnect ∷ reconnected ∷ not_reconnected
    ∷ max_network ∷ []

abbrev pub app_messages : List AppMessageType
app_messages =
    create_party ∷ party_created ∷ party_not_created ∷ list_parties ∷ list_parties_created
    ∷ list_parties_not_created ∷ join_party ∷ player_joined_party ∷ player_not_joined_party
    ∷ leave_party ∷ player_leaved_party ∷ player_not_leaved_party ∷ start_game ∷ game_started
    ∷ game_not_started ∷ player_not_joined_full_party ∷ player_not_joined_not_exist_party ∷ max_app
    ∷ []

abbrev pub domain_messages : List DomainMessageType
domain_messages =
    move ∷ player_moved ∷ player_not_moved ∷ attack ∷ player_attacked ∷ player_not_attacked
    ∷ state_update ∷ state_not_updated ∷ game_over ∷ max_domain ∷ []

-- `static_cast<uint8_t>` of an enumerator.
unfoldable pub network_id : NetworkMessageType → ℕ
network_id ping = 0
network_id pong = 1
network_id join = 2
network_id welcome = 3
network_id auth_failed = 4
network_id reconnect = 5
network_id reconnected = 6
network_id not_reconnected = 7
network_id max_network = 8

unfoldable pub app_id : AppMessageType → ℕ
app_id create_party = 0
app_id party_created = 1
app_id party_not_created = 2
app_id list_parties = 3
app_id list_parties_created = 4
app_id list_parties_not_created = 5
app_id join_party = 6
app_id player_joined_party = 7
app_id player_not_joined_party = 8
app_id leave_party = 9
app_id player_leaved_party = 10
app_id player_not_leaved_party = 11
app_id start_game = 12
app_id game_started = 13
app_id game_not_started = 14
app_id player_not_joined_full_party = 15
app_id player_not_joined_not_exist_party = 16
app_id max_app = 17

unfoldable pub domain_id : DomainMessageType → ℕ
domain_id move = 0
domain_id player_moved = 1
domain_id player_not_moved = 2
domain_id attack = 3
domain_id player_attacked = 4
domain_id player_not_attacked = 5
domain_id state_update = 6
domain_id state_not_updated = 7
domain_id game_over = 8
domain_id max_domain = 9
