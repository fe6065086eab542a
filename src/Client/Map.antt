-- ===== src/Client/Map.antt =====
-- src/client/ui/render_game_state.cpp and src/common/utility/number_utils.h: a snapshot as lines of text. A line of
-- words is a case here; the border and the rows of the map are texts.
pub mod Drawn
pub mod Printed
use dungeon_crawler.Base.{
  ltb, leb, ◌==◌, if◌then◌else◌, length, ℕ, zero, suc, ◌+◌, ◌-◌, ◌*◌, ◌/◌, ◌%◌, ◌^◌, Bool, ◌&&◌,
  ◌||◌, List, [], ◌∷◌, ◌++◌, map,
}
use dungeon_crawler.Types.GameState.{
  EntitySnapshot, BarrierSnapshot, GameMapSnapshot, DungeonSnapshot,
}

pub data Line : Type 0 where
  invalid_coordinates coordinate_overflow too_large header : Line
  border : List ℕ → Line
  map_row : List ℕ → Line
  entities : ℕ → Line
  player_hp mob_hp : ℕ → ℕ → Line

abbrev pub player_symbol : ℕ
player_symbol = b'@'

abbrev pub monster_symbol : ℕ
monster_symbol = b'M'

abbrev pub barrier_symbol : ℕ
barrier_symbol = b'b'

abbrev pub floor_symbol : ℕ
floor_symbol = b'.'

abbrev pub edge_symbol : ℕ
edge_symbol = b'#'

abbrev pub max_map_cells : ℕ
max_map_cells = 200 * 200

unfoldable pub is_between : ℕ → ℕ → ℕ → Bool
is_between value low high = leb low value && leb value high

abbrev pub repeat {ℓ} : {A : Type ℓ} → ℕ → A → List A
repeat zero a = []
repeat (suc n) a = a ∷ repeat n a

-- `grid[i]` is changed in place.
abbrev pub modify {ℓ} : {A : Type ℓ} → (A → A) → ℕ → List A → List A
modify f i [] = []
modify f zero (a ∷ as_rest) = f a ∷ as_rest
modify f (suc i) (a ∷ as_rest) = a ∷ modify f i as_rest

abbrev pub Grid : Type 0
Grid = List (List ℕ)

-- The loop body of `placeOnGrid`, and the loop
unfoldable pub place_item : GameMapSnapshot → ℕ → ℕ × ℕ → Grid → Grid
place_item m symbol (x, y) grid =
    if is_between x m.blc_x m.trc_x && is_between y m.blc_y m.trc_y
    then modify (modify (λ c. symbol) (x - m.blc_x)) (y - m.blc_y) grid
    else grid

unfoldable pub place_on_grid : GameMapSnapshot → ℕ → List (ℕ × ℕ) → Grid → Grid
place_on_grid m symbol [] grid = grid
place_on_grid m symbol (item ∷ items) grid =
    place_on_grid m symbol items (place_item m symbol item grid)

unfoldable pub barrier_cell : BarrierSnapshot → ℕ × ℕ
barrier_cell b = (b.pos_x, b.pos_y)

unfoldable pub entity_cell : EntitySnapshot → ℕ × ℕ
entity_cell e = (e.pos_x, e.pos_y)

unfoldable pub draw_grid : DungeonSnapshot → ℕ → ℕ → Grid
draw_grid s width height =
    let m = s.game_map in
    let floor = repeat height (repeat width floor_symbol) in
    let barriers = place_on_grid m barrier_symbol (map barrier_cell m.barriers) floor in
    let players = place_on_grid m player_symbol (map entity_cell s.players) barriers in
    place_on_grid m monster_symbol (map entity_cell s.mobs) players

-- `y >= minY` between numbers of 64 bits that are read as signed
unfoldable pub signed_leb : ℕ → ℕ → Bool
signed_leb a b = leb ((a + 2 ^ 63) % 2 ^ 64) ((b + 2 ^ 63) % 2 ^ 64)

abbrev pub row_at : Grid → ℕ → List ℕ
row_at [] i = []
row_at (row ∷ rows) zero = row
row_at (row ∷ rows) (suc i) = row_at rows i

-- The loop over the rows, from the top. It runs at most as often as there are rows, and then tests once more.
unfoldable pub print_rows : ℕ → ℕ → ℕ → Grid → List Line
print_rows zero y min_y grid = []
print_rows (suc fuel) y min_y grid =
    let below = print_rows fuel ((y + (2 ^ 64 - 1)) % 2 ^ 64) min_y grid in
    let row = row_at grid ((y + (2 ^ 64 - min_y)) % 2 ^ 64) in
    if signed_leb min_y y then map_row (edge_symbol ∷ (row ++ (edge_symbol ∷ []))) ∷ below else []

unfoldable pub hp_lines : (ℕ → ℕ → Line) → List EntitySnapshot → List Line
hp_lines line [] = []
hp_lines line (e ∷ es) = line e.id e.hp ∷ hp_lines line es

-- The lines of a map of this width and height
unfoldable pub draw : DungeonSnapshot → ℕ → ℕ → List Line
draw s width height =
    let frame = border (repeat (width + 2) edge_symbol) in
    let rows =
      print_rows (suc height) s.game_map.trc_y s.game_map.blc_y (draw_grid s width height) in
    (header ∷ frame ∷ rows)
    ++ (frame
        ∷ entities (length s.players + length s.mobs)
        ∷ (hp_lines player_hp s.players ++ hp_lines mob_hp s.mobs))

unfoldable pub render_game_state : DungeonSnapshot → List Line
render_game_state s =
    let m = s.game_map in
    let diff_x = m.trc_x - m.blc_x in
    let diff_y = m.trc_y - m.blc_y in
    if ltb m.trc_x m.blc_x || ltb m.trc_y m.blc_y
    then invalid_coordinates ∷ []
    else if (diff_x == 2 ^ 64 - 1) || (diff_y == 2 ^ 64 - 1)
    then coordinate_overflow ∷ []
    else if ltb (max_map_cells / (diff_y + 1)) (diff_x + 1)
    then too_large ∷ []
    else draw s (diff_x + 1) (diff_y + 1)
