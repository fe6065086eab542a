-- ===== src/Settings.antt =====
-- The fields of `Settings` (src/common/utility/config.h) that the modelled code reads, as numbers. The two
-- radii, which are doubles, enter as what `static_cast<uint32_t>` makes of them, and the timeout in
-- ticks of the steady clock.
pub mod Loading
mod Tests
use dungeon_crawler.Base.{ℤ, ℕ}

pub record Settings : Type 0 where
  pub client_disconnect_timeout : ℕ
  pub lobby_max_players : ℕ
  pub player_default_hp : ℕ
  pub monster_default_hp : ℕ
  pub monsters_per_player : ℕ
  pub default_radius_attack : ℕ
  pub default_radius_view : ℕ
  pub player_default_attack : ℕ
  pub monster_default_attack : ℕ
  pub default_map_blc_x : ℤ
  pub default_map_blc_y : ℤ
  pub default_map_trc_x : ℤ
  pub default_map_trc_y : ℤ
