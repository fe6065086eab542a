-- ===== src/Types/GameState.antt =====
-- src/common/network/game_state_dto.h: the snapshot that the server sends to the clients.
use dungeon_crawler.Base.{ℕ, List}

pub record EntitySnapshot : Type 0 where
  pub type : ℕ
  pub state : ℕ
  pub id : ℕ
  pub pos_x : ℕ
  pub pos_y : ℕ
  pub hp : ℕ

pub record BarrierSnapshot : Type 0 where
  pub pos_x : ℕ
  pub pos_y : ℕ

pub record GameMapSnapshot : Type 0 where
  pub blc_x : ℕ
  pub blc_y : ℕ
  pub trc_x : ℕ
  pub trc_y : ℕ
  pub barriers : List BarrierSnapshot

pub record DungeonSnapshot : Type 0 where
  pub game_map : GameMapSnapshot
  pub players : List EntitySnapshot
  pub mobs : List EntitySnapshot
