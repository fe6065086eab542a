-- ===== src/Lobby/Manager.antt =====
-- src/server/domain/lobby/lobby_manager.h and lobby_manager.cpp: the handlers of the requests. They
-- run one after the other on a strand. Each takes the registry, and returns the new one with the
-- event that it publishes.
pub mod Opening
pub mod Requests
use dungeon_crawler.Base.{
  if◌then◌else◌, is_some, assign, ℕ, Bool, not, Option, none, some, List, map,
}
use dungeon_crawler.Settings.{Settings}
use dungeon_crawler.Lobby.Room.{Lobby, new_lobby, is_full, set_ready}
use dungeon_crawler.Lobby.Registry.{
  LobbyRegistry, add_lobby, remove_lobby, find_lobby, get_all_lobbies, is_player_in_lobby,
  get_player_lobby, generate_next_lobby_id, add_player_to_lobby, remove_player_from_lobby,
}

-- The request events of src/server/domain/core/events.h.
pub data Request : Type 0 where
  create_lobby : ℕ → Request
  join_lobby : ℕ → ℕ → Request
  leave_lobby : ℕ → Request
  player_ready : ℕ → Bool → Request
  list_lobbies : ℕ → Request

-- The response events.
pub data Response : Type 0 where
  lobby_created : ℕ → ℕ → Response
  lobby_creation_failed : ℕ → Response
  joined : ℕ → Response
  join_not_exists : ℕ → Response
  join_full : ℕ → Response
  join_failed : ℕ → Response
  left : ℕ → Response
  leave_not_in_lobby : ℕ → Response
  leave_failed : ℕ → Response
  ready_set : ℕ → Response
  ready_failed : ℕ → Response
  lobbies_listed : ℕ → List ℕ → Response

pub data LobbyLookup : Type 0 where
  not_in_lobby stale_mapping : LobbyLookup
  found : ℕ → Lobby → LobbyLookup

-- `getLobbyForPlayer`, which cleans a stale mapping up.
unfoldable pub lookup_lobby : ℕ → Option Lobby → LobbyRegistry → LobbyRegistry × LobbyLookup
lookup_lobby lid (some l) r = (r, found lid l)
lookup_lobby lid none r = (r, stale_mapping)

unfoldable pub lookup_player : ℕ → Option ℕ → LobbyRegistry → LobbyRegistry × LobbyLookup
lookup_player pid none r = (r, not_in_lobby)
lookup_player pid (some lid) r =
    let (r', result) = lookup_lobby lid (find_lobby lid r) r in
    if is_some (find_lobby lid r)
    then (r', result)
    else ((remove_player_from_lobby pid r').0, stale_mapping)

unfoldable pub get_lobby_for_player : ℕ → LobbyRegistry → LobbyRegistry × LobbyLookup
get_lobby_for_player pid r = lookup_player pid (get_player_lobby pid r) r

-- The steps of `onCreateLobbyRequest` behind the first check, with the registry that gave the id out.
unfoldable pub open_lobby : Settings → ℕ → ℕ → LobbyRegistry → LobbyRegistry × Response
open_lobby c pid new_id r =
    let (r1, added) = add_lobby (some (new_lobby new_id pid)) r in
    let (r2, seated) = add_player_to_lobby c pid new_id r1 in
    if not added
    then (r1, lobby_creation_failed pid)
    else if not seated
    then ((remove_lobby new_id r2).0, lobby_creation_failed pid)
    else (r2, lobby_created pid new_id)

unfoldable pub on_create_lobby_request : Settings → ℕ → LobbyRegistry → LobbyRegistry × Response
on_create_lobby_request c pid r =
    let (r', new_id) = generate_next_lobby_id r in
    if is_player_in_lobby pid r then (r, lobby_creation_failed pid) else open_lobby c pid new_id r'

unfoldable pub join_found :
    Settings → ℕ → ℕ → Option Lobby → LobbyRegistry → LobbyRegistry × Response
join_found c pid lid none r = (r, join_not_exists pid)
join_found c pid lid (some l) r =
    let (r', success) = add_player_to_lobby c pid lid r in
    if is_full c l
    then (r, join_full pid)
    else if success
    then (r', joined pid)
    else (r', join_failed pid)

unfoldable pub on_join_lobby_request : Settings → ℕ → ℕ → LobbyRegistry → LobbyRegistry × Response
on_join_lobby_request c pid lid r = join_found c pid lid (find_lobby lid r) r

unfoldable pub leave_found : ℕ → LobbyLookup → LobbyRegistry → LobbyRegistry × Response
leave_found pid not_in_lobby r = (r, leave_not_in_lobby pid)
leave_found pid stale_mapping r = (r, leave_failed pid)
leave_found pid (found lid l) r =
    let (r', removed) = remove_player_from_lobby pid r in
    if removed then (r', left pid) else (r', leave_failed pid)

unfoldable pub on_leave_lobby_request : ℕ → LobbyRegistry → LobbyRegistry × Response
on_leave_lobby_request pid r =
    let (r', result) = get_lobby_for_player pid r in leave_found pid result r'

-- `result.lobby->setReady`: the lobby of the registry changes.
unfoldable pub ready_found : ℕ → Bool → LobbyLookup → LobbyRegistry → LobbyRegistry × Response
ready_found pid ready not_in_lobby r = (r, ready_failed pid)
ready_found pid ready stale_mapping r = (r, ready_failed pid)
ready_found pid ready (found lid l) r =
    let (l', done) = set_ready pid ready l in
    if done
    then (record r { lobbies = assign lid l' r.lobbies }, ready_set pid)
    else (r, ready_failed pid)

unfoldable pub on_player_ready_request : ℕ → Bool → LobbyRegistry → LobbyRegistry × Response
on_player_ready_request pid ready r =
    let (r', result) = get_lobby_for_player pid r in ready_found pid ready result r'

unfoldable pub on_list_lobbies_request : ℕ → LobbyRegistry → LobbyRegistry × Response
on_list_lobbies_request pid r = (r, lobbies_listed pid (map (λ l. l.id) (get_all_lobbies r)))

-- The dispatch that `Initialize` sets up.
unfoldable pub handle : Settings → Request → LobbyRegistry → LobbyRegistry × Response
handle c (create_lobby pid) r = on_create_lobby_request c pid r
handle c (join_lobby pid lid) r = on_join_lobby_request c pid lid r
handle c (leave_lobby pid) r = on_leave_lobby_request pid r
handle c (player_ready pid ready) r = on_player_ready_request pid ready r
handle c (list_lobbies pid) r = on_list_lobbies_request pid r
