-- ===== src/Lobby/Registry.antt =====
-- src/server/domain/lobby/lobby_registry.h and lobby_registry.cpp. A `std::shared_ptr<Lobby>` is
-- a lobby: every lobby is reached through its entry of `lobbies`, so what the source does to the
-- object behind a pointer is written back to that entry. A set of players is a map to nothing.
pub mod Consistent
pub mod Moves
pub mod Leaving
use dungeon_crawler.Base.{
  if◌then◌else◌, Dict, find, contains, assign, emplace, erase, values, ℕ, ◌+◌, ◌%◌, ◌^◌, Bool, true,
  false, not, ◌||◌, Option, none, some, List, [], ◌∷◌,
}
use dungeon_crawler.Settings.{Settings}
use dungeon_crawler.Lobby.Room.{Lobby, is_empty, add_player, remove_player}

abbrev pub IdSet : Type 0
IdSet = Dict (Unit {0})

pub record LobbyRegistry : Type 0 where
  pub lobbies : Dict Lobby
  pub player_to_lobby : Dict ℕ
  pub lobby_players : Dict IdSet
  pub next_id : ℕ

abbrev pub empty_registry : LobbyRegistry
empty_registry = record { lobbies = []; player_to_lobby = []; lobby_players = []; next_id = 1 }

-- A null pointer is `none`.
unfoldable pub add_lobby : Option Lobby → LobbyRegistry → LobbyRegistry × Bool
add_lobby none r = (r, false)
add_lobby (some l) r =
    if contains l.id r.lobbies
    then (r, false)
    else (record r { lobbies = emplace l.id l r.lobbies }, true)

-- The loop over the players of a lobby that is removed.
unfoldable pub erase_all : IdSet → Dict ℕ → Dict ℕ
erase_all [] m = m
erase_all ((pid, u) ∷ pids) m = erase_all pids (erase pid m)

unfoldable pub forget_players : ℕ → Option IdSet → LobbyRegistry → LobbyRegistry
forget_players lid none r = r
forget_players lid (some pids) r = record r {
  player_to_lobby = erase_all pids r.player_to_lobby;
  lobby_players = erase lid r.lobby_players;
}

unfoldable pub remove_lobby : ℕ → LobbyRegistry → LobbyRegistry × Bool
remove_lobby lid r =
    let r' = forget_players lid (find lid r.lobby_players) r in
    if not (contains lid r.lobbies)
    then (r, false)
    else (record r' { lobbies = erase lid r'.lobbies }, true)

unfoldable pub find_lobby : ℕ → LobbyRegistry → Option Lobby
find_lobby lid r = find lid r.lobbies

-- The ids of `getAllLobbies`.
unfoldable pub get_all_lobbies : LobbyRegistry → List Lobby
get_all_lobbies r = values r.lobbies

unfoldable pub is_player_in_lobby : ℕ → LobbyRegistry → Bool
is_player_in_lobby pid r = contains pid r.player_to_lobby

unfoldable pub get_player_lobby : ℕ → LobbyRegistry → Option ℕ
get_player_lobby pid r = find pid r.player_to_lobby

unfoldable pub generate_next_lobby_id : LobbyRegistry → LobbyRegistry × ℕ
generate_next_lobby_id r = (record r { next_id = (r.next_id + 1) % 2 ^ 64 }, r.next_id)

-- `lobby_players_[lobby_id]`, which makes the empty set if there is none.
unfoldable pub set_of : Option IdSet → IdSet
set_of none = []
set_of (some s) = s

-- Steps 3 and 4, for the lobby that was found: `seated` is the lobby after `addPlayer`.
unfoldable pub seat_player : ℕ → ℕ → Lobby × Bool → LobbyRegistry → LobbyRegistry × Bool
seat_player pid lid seated r =
    let set = set_of (find lid r.lobby_players) in
    let set_inserted = not (contains pid set) in
    let map_inserted = not (contains pid r.player_to_lobby) in
    let set' = emplace pid tt set in
    let map' = emplace pid lid r.player_to_lobby in
    if not seated.1
    then (r, false)
    else if not set_inserted || not map_inserted
    then (
      record r {
        lobbies = assign lid (remove_player pid seated.0).0 r.lobbies;
        lobby_players = assign lid (if set_inserted then erase pid set' else set') r.lobby_players;
        player_to_lobby = if map_inserted then erase pid map' else map';
      },
      false,
    )
    else (
      record r {
        lobbies = assign lid seated.0 r.lobbies;
        lobby_players = assign lid set' r.lobby_players;
        player_to_lobby = map';
      },
      true,
    )

unfoldable pub seat_in : Settings → ℕ → ℕ → Option Lobby → LobbyRegistry → LobbyRegistry × Bool
seat_in c pid lid none r = (r, false)
seat_in c pid lid (some l) r = seat_player pid lid (add_player c pid l) r

unfoldable pub add_player_to_lobby : Settings → ℕ → ℕ → LobbyRegistry → LobbyRegistry × Bool
add_player_to_lobby c pid lid r =
    if is_player_in_lobby pid r then (r, false) else seat_in c pid lid (find lid r.lobbies) r

-- Steps 4 and 5, with the lobby after `removePlayer`.
unfoldable pub unseat_player : ℕ → ℕ → Lobby × Bool → LobbyRegistry → LobbyRegistry × Bool
unseat_player pid lid left r =
    let stale = record r { player_to_lobby = erase pid r.player_to_lobby } in
    let set = set_of (find lid r.lobby_players) in
    if not left.1
    then (stale, false)
    else if is_empty left.0
    then (
      record stale {
        lobbies = erase lid (assign lid left.0 r.lobbies);
        lobby_players = erase lid (assign lid (erase pid set) r.lobby_players);
      },
      true,
    )
    else (
      record stale {
        lobbies = assign lid left.0 r.lobbies;
        lobby_players = assign lid (erase pid set) r.lobby_players;
      },
      true,
    )

unfoldable pub unseat_from : ℕ → ℕ → Option Lobby → LobbyRegistry → LobbyRegistry × Bool
unseat_from pid lid none r = (record r { player_to_lobby = erase pid r.player_to_lobby }, false)
unseat_from pid lid (some l) r = unseat_player pid lid (remove_player pid l) r

unfoldable pub unseat : ℕ → Option ℕ → LobbyRegistry → LobbyRegistry × Bool
unseat pid none r = (r, false)
unseat pid (some lid) r = unseat_from pid lid (find lid r.lobbies) r

unfoldable pub remove_player_from_lobby : ℕ → LobbyRegistry → LobbyRegistry × Bool
remove_player_from_lobby pid r = unseat pid (find pid r.player_to_lobby) r
