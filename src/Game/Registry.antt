-- ===== src/Game/Registry.antt =====
-- src/server/domain/dungeon/dungeon_registry.h and dungeon_registry.cpp. A dungeon behind a pointer is reached
-- through its entry of `dungeons` only.
pub mod Players
use dungeon_crawler.Base.{
  ◌==◌, if◌then◌else◌, length, Dict, find, contains, emplace, erase, ℕ, ◌+◌, ◌%◌, ◌^◌, Bool, true,
  false, not, Option, none, some, List, [], ◌∷◌,
}
use dungeon_crawler.Settings.{Settings}
use dungeon_crawler.World.Position.{Position}
use dungeon_crawler.World.GameMap.{GameMap}
use dungeon_crawler.Dungeon.{Dungeon, new_dungeon}

pub record DungeonRegistry : Type 0 where
  pub dungeons : Dict Dungeon
  pub player_to_dungeon : Dict ℕ
  pub dungeon_to_players : Dict (List ℕ)
  pub next_game_id : ℕ

-- `unique_check`: the set of the ids.
unfoldable pub id_set : List ℕ → Dict (Unit {0})
id_set [] = []
id_set (pid ∷ pids) = emplace pid tt (id_set pids)

-- The loop that looks for a player who is in another dungeon.
unfoldable pub any_known : List ℕ → Dict ℕ → Bool
any_known [] m = false
any_known (pid ∷ pids) m = if contains pid m then true else any_known pids m

unfoldable pub place_players : List ℕ → ℕ → Dict ℕ → Dict ℕ
place_players [] id m = m
place_players (pid ∷ pids) id m = place_players pids id (emplace pid id m)

unfoldable pub register_dungeon : ℕ → Dungeon → List ℕ → DungeonRegistry → DungeonRegistry × Bool
register_dungeon id d pids r = if contains id r.dungeons then (r, false) else (
  record r {
    dungeons = emplace id d r.dungeons;
    player_to_dungeon = place_players pids id r.player_to_dungeon;
    dungeon_to_players = emplace id pids r.dungeon_to_players;
  },
  true,
)

-- `generateNextId`, with the id that it gives.
unfoldable pub generate_next_id : DungeonRegistry → DungeonRegistry × ℕ
generate_next_id r = (record r { next_game_id = (r.next_game_id + 1) % 2 ^ 64 }, r.next_game_id)

unfoldable pub add_dungeon :
    Settings → (ℕ → Position) → GameMap → List ℕ → DungeonRegistry → DungeonRegistry × Bool
add_dungeon c draw world pids r =
    let (r', id) = generate_next_id r in
    if length pids == 0
    then (r, false)
    else if not (length (id_set pids) == length pids)
    then (r, false)
    else if any_known pids r.player_to_dungeon
    then (r, false)
    else register_dungeon id (new_dungeon c draw world pids) pids r'

unfoldable pub release_players : List ℕ → Dict ℕ → Dict ℕ
release_players [] m = m
release_players (pid ∷ pids) m = release_players pids (erase pid m)

unfoldable pub forget_dungeon : ℕ → Option (List ℕ) → DungeonRegistry → DungeonRegistry
forget_dungeon id none r = r
forget_dungeon id (some pids) r = record r {
  player_to_dungeon = release_players pids r.player_to_dungeon;
  dungeon_to_players = erase id r.dungeon_to_players;
}

unfoldable pub remove_dungeon : ℕ → DungeonRegistry → DungeonRegistry × Bool
remove_dungeon id r =
    let r' = forget_dungeon id (find id r.dungeon_to_players) r in
    if not (contains id r.dungeons)
    then (r, false)
    else (record r' { dungeons = erase id r'.dungeons }, true)

unfoldable pub find_dungeon : ℕ → DungeonRegistry → Option Dungeon
find_dungeon id r = find id r.dungeons

unfoldable pub find_player_dungeon : ℕ → DungeonRegistry → Option ℕ
find_player_dungeon pid r = find pid r.player_to_dungeon
