-- ===== src/Client/Map/Printed.antt =====
-- Where the rows of the map stand among the lines.
use dungeon_crawler.Base.{
  length, get_elem?, ℕ, zero, suc, ◌+◌, ◌-◌, ◌*◌, ◌%◌, ◌^◌, ◌≤◌, ◌<◌, ◌≡◌, refl, sym, ap, ◌∙◌, true,
  some, List, [], ◌∷◌, ◌++◌, arith, dec_lt,
}
use native.Mathlib.Nat.{le-div_iff_mul-le}
use dungeon_crawler.Types.GameState.{GameMapSnapshot, DungeonSnapshot}
use dungeon_crawler.Client.Map.Drawn.{symbol_at, draw_grid-cell}
use dungeon_crawler.Client.Map.{
  Line, border, map_row, entities, player_hp, mob_hp, edge_symbol, max_map_cells, repeat, Grid,
  draw_grid, signed_leb, row_at, print_rows, hp_lines, draw, render_game_state,
}

framed : List ℕ → Line
framed row = map_row (edge_symbol ∷ (row ++ (edge_symbol ∷ [])))

-- The lowest rows, the highest of them first
rows_down : ℕ → Grid → List Line
rows_down zero grid = []
rows_down (suc r) grid = framed (row_at grid r) ∷ rows_down r grid

rows_over :
    (fuel low : ℕ) (grid : Grid)
    → low < 2 ^ 63
    → print_rows fuel ((low + (2 ^ 64 - 1)) % 2 ^ 64) low grid ≡ []
unfolding print_rows signed_leb
rows_over zero low grid h = refl
rows_over (suc fuel) low grid h = ground (arith, h)

print_step :
    (fuel r low : ℕ) (grid : Grid)
    → low + r < 2 ^ 63
    → print_rows (suc fuel) (low + r) low grid
      ≡ framed (row_at grid r) ∷ print_rows fuel ((low + r + (2 ^ 64 - 1)) % 2 ^ 64) low grid
unfolding print_rows signed_leb framed
print_step fuel r low grid h =
    let at : (low + r + (2 ^ 64 - low)) % 2 ^ 64 ≡ r = omega (arith, h) in
    let shown : signed_leb low (low + r) ≡ true = ground (arith, h) in rw at (rw shown refl)

print_rows_down :
    (fuel r low : ℕ) (grid : Grid)
    → r < fuel
    → low + r < 2 ^ 63
    → print_rows fuel (low + r) low grid ≡ rows_down (suc r) grid
unfolding rows_down
print_rows_down zero r low grid f h = absurd (omega arith)
print_rows_down (suc fuel) zero low grid f h =
    let bottom : (low + 0 + (2 ^ 64 - 1)) % 2 ^ 64 ≡ (low + (2 ^ 64 - 1)) % 2 ^ 64 = omega arith in
    print_step fuel 0 low grid h
    ∙ ap (λ y. framed (row_at grid 0) ∷ print_rows fuel y low grid) bottom
    ∙ ap (◌∷◌ (framed (row_at grid 0))) (rows_over fuel low grid (omega (arith, h)))
print_rows_down (suc fuel) (suc r) low grid f h =
    let below : (low + suc r + (2 ^ 64 - 1)) % 2 ^ 64 ≡ low + r = omega (arith, h) in
    print_step fuel (suc r) low grid h
    ∙ ap (λ y. framed (row_at grid (suc r)) ∷ print_rows fuel y low grid) below
    ∙ ap (◌∷◌ (framed (row_at grid (suc r))))
        (print_rows_down fuel r low grid (omega (arith, f)) (omega (arith, h)))

get-rows_down :
    (n r : ℕ) (grid : Grid) (rest : List Line)
    → r ≤ n
    → get_elem? (rows_down (suc n) grid ++ rest) (n - r) ≡ some (framed (row_at grid r))
unfolding rows_down
get-rows_down zero r grid rest h = let bottom : r ≡ 0 = omega (arith, h) in rw bottom refl
get-rows_down (suc n) r grid rest h = elim (dec_lt n r) [
  | yes top ↦
      let same : r ≡ suc n = omega (arith, h, top) in
      let first : suc n - suc n ≡ 0 = omega arith in rw same (rw first refl)
  | no below ↦
      let deeper : suc n - r ≡ suc (n - r) = omega (arith, below) in
      rw deeper (get-rows_down n r grid rest (omega (arith, below)))
]

-- A map that can be shown: its corners are in order and below 2 ^ 63, and it has 40000 cells at most.
abbrev pub IsShown : GameMapSnapshot → Type 0
IsShown m =
    (m.blc_x ≤ m.trc_x)
    × (m.blc_y ≤ m.trc_y)
    × (m.trc_x < 2 ^ 63)
    × (m.trc_y < 2 ^ 63)
    × ((m.trc_x - m.blc_x + 1) * (m.trc_y - m.blc_y + 1) ≤ max_map_cells)

render_draws :
    (s : DungeonSnapshot)
    → IsShown s.game_map
    → render_game_state s
      ≡ draw s (s.game_map.trc_x - s.game_map.blc_x + 1) (s.game_map.trc_y - s.game_map.blc_y + 1)
unfolding render_game_state
render_draws s h =
    let m = s.game_map in
    let fits =
      (le-div_iff_mul-le {k = m.trc_y - m.blc_y + 1} {x = m.trc_x - m.blc_x + 1} {y = max_map_cells}
          (omega arith)).1
        h.4 in
    ground (arith, h.0, h.1, h.2, h.3, fits)

-- A map whose corners are in order and below 2 ^ 63, and that has 40000 cells at most, is drawn with its highest row
-- on top: in the line of each row, behind the edge, stands for each column what is seen at that position, a mob before a
-- player, a player before a barrier, and otherwise the floor.
pub render_game_state_lem :
    (s : DungeonSnapshot) (r : ℕ)
    → IsShown s.game_map
    → r ≤ s.game_map.trc_y - s.game_map.blc_y
    → (row : List ℕ) × (get_elem?
          (render_game_state s)
          (2 + (s.game_map.trc_y - s.game_map.blc_y - r))
        ≡ some (map_row (edge_symbol ∷ (row ++ (edge_symbol ∷ [])))))
      × ((k : ℕ)
          → k ≤ s.game_map.trc_x - s.game_map.blc_x
          → get_elem? row k ≡ some (symbol_at s (s.game_map.blc_x + k) (s.game_map.blc_y + r)))
unfolding draw framed
render_game_state_lem s r h inside =
    let m = s.game_map in
    let n = m.trc_y - m.blc_y in
    let width = m.trc_x - m.blc_x + 1 in
    let grid = draw_grid s width (n + 1) in
    let frame = border (repeat (width + 2) edge_symbol) in
    let rest =
      frame
      ∷ entities (length s.players + length s.mobs)
      ∷ (hp_lines player_hp s.players ++ hp_lines mob_hp s.mobs) in
    let top : m.blc_y + n ≡ m.trc_y = omega (arith, h.1) in
    let rows : print_rows (suc (n + 1)) m.trc_y m.blc_y grid ≡ rows_down (suc n) grid =
      ap (λ y. print_rows (suc (n + 1)) y m.blc_y grid) (sym top)
      ∙ print_rows_down (suc (n + 1)) n m.blc_y grid (omega arith) (omega (arith, top, h.3)) in
    let at : 2 + (n - r) ≡ suc (suc (n - r)) = omega arith in
    (
      row_at grid r,
      ap (λ ls. get_elem? ls (2 + (n - r))) (render_draws s h)
          ∙ ap (get_elem? (draw s width (n + 1))) at
          ∙ ap (λ ls. get_elem? (ls ++ rest) (n - r)) rows
          ∙ get-rows_down n r grid rest inside,
      λ k hk. draw_grid-cell s r k (inside, hk, h.0, h.1),
    )
