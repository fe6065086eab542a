-- ===== src/Game/Tests.antt =====
-- The theorems about games, at a registry with one dungeon of one player.
use dungeon_crawler.Base.{
  ◌==◌, if◌then◌else◌, length, find, contains, Distinct, pos, ℕ, ◌<◌, ◌≡◌, refl, ◌↔◌, true, false,
  ◌&&◌, none, some, List, [], ◌∷◌, ◌++◌,
}
use dungeon_crawler.Samples.{settings}
use dungeon_crawler.Types.Direction.{left}
use dungeon_crawler.World.Position.{Position}
use dungeon_crawler.World.GameMap.{GameMap}
use dungeon_crawler.World.Entity.{alive, Entity}
use dungeon_crawler.Dungeon.{move_command, Dungeon, TickDraws}
use dungeon_crawler.Lobby.Registry.{empty_registry}
use dungeon_crawler.Game.Registry.{
  DungeonRegistry, add_dungeon, remove_dungeon, find_dungeon, find_player_dungeon,
}
use dungeon_crawler.Game.Registry.Players.{listed, remove_dungeon_lem, names_once, add_dungeon_lem}
use dungeon_crawler.Game.Manager.{GameManager, on_game_tick, on_move_request}
use dungeon_crawler.Game.Ticking.{after_tick, on_game_tick_lem, queued, on_move_request_lem}

abbrev cell : ℕ → Position
cell n = record { x = pos n; y = pos 1 }

abbrev field : GameMap
field = record {
  map_size = record {
    bottom_left_corner = record { x = pos 0; y = pos 0 };
    top_right_corner = record { x = pos 9; y = pos 9 };
  };
  barriers = [];
}

abbrev runner : Entity
runner = record {
  id = 7;
  position = cell 0;
  info = record { health = 10; radius_attack = 1; radius_view = 5 };
  state = alive;
}

abbrev lone_dungeon : Dungeon
lone_dungeon = record {
  game_map = field;
  players = (7, runner) ∷ [];
  monsters = [];
  command_queue = [];
  mob_id_counter = 0;
}

abbrev one_game : DungeonRegistry
one_game = record {
  dungeons = (1, lone_dungeon) ∷ [];
  player_to_dungeon = (7, 1) ∷ [];
  dungeon_to_players = (1, 7 ∷ []) ∷ [];
  next_game_id = 2;
}

abbrev games : GameManager
games = record { lobby_registry = empty_registry; dungeon_registry = one_game }

abbrev still : ℕ → TickDraws
still g = record {
  move_count = 0;
  attack_count = 0;
  move_index = λ i. 0;
  move_direction = λ i. left;
  attack_index = λ i. 0;
}

id_free : contains one_game.next_game_id one_game.dungeons ≡ false
unfolding contains find
id_free = refl

listed_players : find 1 one_game.dungeon_to_players ≡ some (7 ∷ [])
unfolding find
listed_players = refl

one_id : Distinct one_game.dungeons
unfolding find
one_id = (refl, tt)

abbrev newcomers : List ℕ
newcomers = 8 ∷ 9 ∷ []

add_dungeon_lem_example :
    let (r', ok) = add_dungeon settings cell field newcomers one_game in
    ((ok ≡ true) ↔ (
      (0 < length newcomers)
      × (names_once newcomers ≡ true)
      × ((p : ℕ) → listed p newcomers ≡ true → find_player_dungeon p one_game ≡ none)))
    × ((p : ℕ)
        → find_player_dungeon p r' ≡ (
            if ok && listed p newcomers
            then some one_game.next_game_id
            else find_player_dungeon p one_game))
add_dungeon_lem_example = add_dungeon_lem settings cell field newcomers one_game id_free

remove_dungeon_lem_example :
    let (r', ok) = remove_dungeon 1 one_game in
    (ok ≡ contains 1 one_game.dungeons)
    × ((g : ℕ) → find_dungeon g r' ≡ (if 1 == g then none else find_dungeon g one_game))
    × ((p : ℕ)
        → find_player_dungeon p r'
          ≡ (if ok && listed p (7 ∷ []) then none else find_player_dungeon p one_game))
remove_dungeon_lem_example = remove_dungeon_lem 1 (7 ∷ []) one_game listed_players

on_game_tick_lem_example :
    find_dungeon 1 (on_game_tick settings still games).0.dungeon_registry
    ≡ after_tick settings (still 1) (find_dungeon 1 games.dungeon_registry)
on_game_tick_lem_example = on_game_tick_lem settings still games 1 one_id

on_move_request_lem_example :
    let s' = on_move_request 7 left games in
    (find_dungeon 1 s'.dungeon_registry
      ≡ queued 1
          (λ d. record d { command_queue = d.command_queue ++ (move_command 7 left ∷ []) })
          (find_player_dungeon 7 games.dungeon_registry)
          (find_dungeon 1 games.dungeon_registry))
    × (s'.dungeon_registry.player_to_dungeon ≡ games.dungeon_registry.player_to_dungeon)
    × (s'.lobby_registry ≡ games.lobby_registry)
on_move_request_lem_example = on_move_request_lem 7 1 left games
