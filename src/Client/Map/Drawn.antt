-- ===== src/Client/Map/Drawn.antt =====
-- What stands in each cell of the map that is drawn.
use dungeon_crawler.Base.{
  ◌==◌, if◌then◌else◌, is_some, get_elem?, ℕ, zero, suc, ◌+◌, ◌-◌, ◌≤◌, ◌<◌, ◌≡◌, refl, ap, Bool,
  true, false, ◌&&◌, ◌||◌, Option, some, List, [], ◌∷◌, map, arith,
}
use dungeon_crawler.Types.GameState.{GameMapSnapshot, DungeonSnapshot}
use dungeon_crawler.Client.Map.{
  player_symbol, monster_symbol, barrier_symbol, floor_symbol, is_between, repeat, modify, Grid,
  place_item, place_on_grid, barrier_cell, entity_cell, draw_grid, row_at,
}

-- The symbol in a row and a column of a grid
abbrev pub cell : Grid → ℕ → ℕ → Option ℕ
cell grid i j = get_elem? (row_at grid i) j

-- Whether an item stands at a position
abbrev pub stands_at : ℕ → ℕ → List (ℕ × ℕ) → Bool
stands_at x y [] = false
stands_at x y ((a, b) ∷ items) = ((a == x) && (b == y)) || stands_at x y items

get-modify :
    (s : ℕ) (j k : ℕ) (row : List ℕ)
    → is_some (get_elem? row k) ≡ true
    → get_elem? (modify (λ c. s) j row) k ≡ (if j == k then some s else get_elem? row k)
get-modify s j k [] h = absurd (cc h)
get-modify s zero zero (a ∷ row) h = ground arith
get-modify s zero (suc k) (a ∷ row) h = ground arith
get-modify s (suc j) zero (a ∷ row) h = ground arith
get-modify s (suc j) (suc k) (a ∷ row) h = ground (arith, get-modify s j k row h)

cell-modify :
    (s i j r k : ℕ) (grid : Grid)
    → is_some (cell grid r k) ≡ true
    → cell (modify (modify (λ c. s) j) i grid) r k
      ≡ (if (i == r) && (j == k) then some s else cell grid r k)
cell-modify s i j r k [] h = absurd (cc h)
cell-modify s zero j zero k (row ∷ grid) h = ground (arith, get-modify s j k row h)
cell-modify s zero j (suc r) k (row ∷ grid) h = ground arith
cell-modify s (suc i) j zero k (row ∷ grid) h = ground arith
cell-modify s (suc i) j (suc r) k (row ∷ grid) h = ground (arith, cell-modify s i j r k grid h)

place_item-cell :
    (m : GameMapSnapshot) (s x y r k : ℕ) (grid : Grid)
    → r ≤ m.trc_y - m.blc_y
    → k ≤ m.trc_x - m.blc_x
    → m.blc_x ≤ m.trc_x
    → m.blc_y ≤ m.trc_y
    → is_some (cell grid r k) ≡ true
    → cell (place_item m s (x, y) grid) r k
      ≡ (if (x == m.blc_x + k) && (y == m.blc_y + r) then some s else cell grid r k)
unfolding place_item is_between
place_item-cell m s x y r k grid hr hk hx hy h =
    ground (arith, hr, hk, hx, hy, cell-modify s (y - m.blc_y) (x - m.blc_x) r k grid h)

-- A cell of the map: the row r above the lower edge, the column k from the left
abbrev pub IsCell : GameMapSnapshot → ℕ → ℕ → Type 0
IsCell m r k =
    (r ≤ m.trc_y - m.blc_y) × (k ≤ m.trc_x - m.blc_x) × (m.blc_x ≤ m.trc_x) × (m.blc_y ≤ m.trc_y)

place_on_grid-cell :
    (m : GameMapSnapshot) (s r k : ℕ) (items : List (ℕ × ℕ)) (grid : Grid)
    → IsCell m r k
    → is_some (cell grid r k) ≡ true
    → cell (place_on_grid m s items grid) r k
      ≡ (if stands_at (m.blc_x + k) (m.blc_y + r) items then some s else cell grid r k)
unfolding place_on_grid
place_on_grid-cell m s r k [] grid c h = refl
place_on_grid-cell m s r k ((x, y) ∷ items) grid c h =
    let one = place_item-cell m s x y r k grid c.0 c.1 c.2 c.3 h in
    let there : is_some (cell (place_item m s (x, y) grid) r k) ≡ true = ground (arith, one, h) in
    let rest = place_on_grid-cell m s r k items (place_item m s (x, y) grid) c there in
    ground (arith, one, rest)

floor-cell :
    (r k height width : ℕ)
    → r < height
    → k < width
    → cell (repeat height (repeat width floor_symbol)) r k ≡ some floor_symbol
floor-cell zero k zero width hr hk = absurd (omega arith)
floor-cell zero zero (suc height) zero hr hk = absurd (omega arith)
floor-cell zero zero (suc height) (suc width) hr hk = refl
floor-cell zero (suc k) (suc height) zero hr hk = absurd (omega arith)
floor-cell zero (suc k) (suc height) (suc width) hr hk =
    floor-cell zero k (suc height) width (omega arith) (omega arith)
floor-cell (suc r) k zero width hr hk = absurd (omega arith)
floor-cell (suc r) k (suc height) width hr hk = floor-cell r k height width (omega arith) hk

-- What is seen at a position: a mob hides a player, and a player a barrier.
unfoldable pub symbol_at : DungeonSnapshot → ℕ → ℕ → ℕ
symbol_at s x y =
    if stands_at x y (map entity_cell s.mobs)
    then monster_symbol
    else if stands_at x y (map entity_cell s.players)
    then player_symbol
    else if stands_at x y (map barrier_cell s.game_map.barriers)
    then barrier_symbol
    else floor_symbol

pub draw_grid-cell :
    (s : DungeonSnapshot) (r k : ℕ)
    → IsCell s.game_map r k
    → cell
        (draw_grid s
          (s.game_map.trc_x - s.game_map.blc_x + 1)
          (s.game_map.trc_y - s.game_map.blc_y + 1))
        r
        k
      ≡ some (symbol_at s (s.game_map.blc_x + k) (s.game_map.blc_y + r))
unfolding draw_grid symbol_at
draw_grid-cell s r k c =
    let m = s.game_map in
    let width = m.trc_x - m.blc_x + 1 in
    let height = m.trc_y - m.blc_y + 1 in
    let g0 = repeat height (repeat width floor_symbol) in
    let g1 = place_on_grid m barrier_symbol (map barrier_cell m.barriers) g0 in
    let g2 = place_on_grid m player_symbol (map entity_cell s.players) g1 in
    let e0 = floor-cell r k height width (omega (arith, c.0)) (omega (arith, c.1)) in
    let e1 =
      place_on_grid-cell m barrier_symbol r k (map barrier_cell m.barriers) g0 c (ap is_some e0) in
    let e2 =
      place_on_grid-cell m player_symbol r k (map entity_cell s.players) g1 c
        (ground (arith, e0, e1)) in
    let e3 =
      place_on_grid-cell m monster_symbol r k (map entity_cell s.mobs) g2 c
        (ground (arith, e0, e1, e2)) in
    ground (arith, e0, e1, e2, e3)
