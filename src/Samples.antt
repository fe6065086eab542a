-- ===== src/Samples.antt =====
-- Settings for the tests: those of a small server.
use dungeon_crawler.Base.{pos}
use dungeon_crawler.Settings.{Settings}

abbrev pub settings : Settings
settings = record {
  client_disconnect_timeout = 30;
  lobby_max_players = 4;
  player_default_hp = 100;
  monster_default_hp = 50;
  monsters_per_player = 3;
  default_radius_attack = 1;
  default_radius_view = 5;
  player_default_attack = 20;
  monster_default_attack = 10;
  default_map_blc_x = pos 0;
  default_map_blc_y = pos 0;
  default_map_trc_x = pos 9;
  default_map_trc_y = pos 9;
}
