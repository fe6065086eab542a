-- ===== src/Game/Manager.antt =====
-- src/server/app/game_manager.h and game_manager.cpp: the handlers run one after the other on a strand. What a handler
-- posts is its result. `draws` has the random draws of each dungeon's tick.
use dungeon_crawler.Base.{
  if◌then◌else◌, ◌>>=◌, Dict, assign, ℕ, Option, none, some, List, [], ◌∷◌, ◌++◌, map,
}
use dungeon_crawler.Settings.{Settings}
use dungeon_crawler.Types.Direction.{Direction}
use dungeon_crawler.Types.GameState.{DungeonSnapshot}
use dungeon_crawler.World.Position.{Position}
use dungeon_crawler.World.GameMap.{default_map}
use dungeon_crawler.Dungeon.{
  Dungeon, add_player_attack_command, add_move_player_command, TickDraws, process_tick, get_players,
}
use dungeon_crawler.Lobby.Room.{Lobby, get_all_players}
use dungeon_crawler.Lobby.Registry.{
  LobbyRegistry, find_lobby, get_player_lobby, remove_player_from_lobby,
}
use dungeon_crawler.Game.Registry.{
  DungeonRegistry, add_dungeon, remove_dungeon, find_dungeon, find_player_dungeon,
}

pub record GameManager : Type 0 where
  pub lobby_registry : LobbyRegistry
  pub dungeon_registry : DungeonRegistry

pub data Notice : Type 0 where
  game_over : ℕ → Notice
  game_state_update : ℕ → DungeonSnapshot → Notice

unfoldable pub leave_all : List ℕ → LobbyRegistry → LobbyRegistry
leave_all [] r = r
leave_all (pid ∷ pids) r = leave_all pids (remove_player_from_lobby pid r).0

-- The steps of `onStartGameRequestEvent`, for the lobby that was found.
unfoldable pub start_in : Settings → (ℕ → Position) → Option Lobby → GameManager → GameManager
start_in c draw none s = s
start_in c draw (some l) s =
    let (r', added) = add_dungeon c draw (default_map c) (get_all_players l) s.dungeon_registry in
    if added
    then record {
      lobby_registry = leave_all (get_all_players l) s.lobby_registry;
      dungeon_registry = r';
    }
    else record s { dungeon_registry = r' }

unfoldable pub on_start_game_request : Settings → (ℕ → Position) → ℕ → GameManager → GameManager
on_start_game_request c draw pid s =
    start_in c draw
      (get_player_lobby pid s.lobby_registry >>= λ lid. find_lobby lid s.lobby_registry) s

-- What a tick of all dungeons gives: the dungeons after it, what is posted, and the ids to remove.
pub record Ticked : Type 0 where
  pub dungeons : Dict Dungeon
  pub notices : List Notice
  pub over : List ℕ

unfoldable pub tick_one : ℕ → Dungeon → Option DungeonSnapshot → Ticked → Ticked
tick_one id d none t = record {
  dungeons = (id, d) ∷ t.dungeons;
  notices = map game_over (get_players d) ++ t.notices;
  over = id ∷ t.over;
}
tick_one id d (some snapshot) t = record t {
  dungeons = (id, d) ∷ t.dungeons;
  notices = game_state_update id snapshot ∷ t.notices;
}

unfoldable pub tick_all : Settings → (ℕ → TickDraws) → Dict Dungeon → Ticked
tick_all c draws [] = record { dungeons = []; notices = []; over = [] }
tick_all c draws ((id, d) ∷ m) =
    let (d', snapshot) = process_tick c (draws id) d in tick_one id d' snapshot (tick_all c draws m)

unfoldable pub remove_all : List ℕ → DungeonRegistry → DungeonRegistry
remove_all [] r = r
remove_all (id ∷ ids) r = remove_all ids (remove_dungeon id r).0

unfoldable pub on_game_tick : Settings → (ℕ → TickDraws) → GameManager → GameManager × List Notice
on_game_tick c draws s =
    let t = tick_all c draws s.dungeon_registry.dungeons in
    (
      record s {
        dungeon_registry = remove_all t.over (record s.dungeon_registry { dungeons = t.dungeons });
      },
      t.notices,
    )

-- The command goes to the dungeon that was found.
unfoldable pub command_in :
    ℕ → (Dungeon → Dungeon) → Option Dungeon → DungeonRegistry → DungeonRegistry
command_in id f none r = r
command_in id f (some d) r = record r { dungeons = assign id (f d) r.dungeons }

unfoldable pub command_for : (Dungeon → Dungeon) → Option ℕ → DungeonRegistry → DungeonRegistry
command_for f none r = r
command_for f (some id) r = command_in id f (find_dungeon id r) r

unfoldable pub on_move_request : ℕ → Direction → GameManager → GameManager
on_move_request pid dir s = record s {
  dungeon_registry =
      command_for (add_move_player_command pid dir) (find_player_dungeon pid s.dungeon_registry)
        s.dungeon_registry;
}

unfoldable pub on_attack_request : Settings → ℕ → GameManager → GameManager
on_attack_request c pid s = record s {
  dungeon_registry =
      command_for (add_player_attack_command pid c.player_default_attack)
        (find_player_dungeon pid s.dungeon_registry) s.dungeon_registry;
}
