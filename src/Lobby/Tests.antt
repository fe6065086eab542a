-- ===== src/Lobby/Tests.antt =====
-- The theorems about lobbies, at a registry with one lobby of two players.
use dungeon_crawler.Base.{
  ◌==◌, if◌then◌else◌, Bool-cases, find, contains, ℕ, ◌≡◌, refl, inl, inr, true, false, none, [],
  ◌∷◌, arith,
}
use dungeon_crawler.Samples.{settings}
use dungeon_crawler.Lobby.Room.{Lobby, IsLobby}
use dungeon_crawler.Lobby.Registry.{
  LobbyRegistry, is_player_in_lobby, get_player_lobby, set_of, remove_player_from_lobby,
}
use dungeon_crawler.Lobby.Registry.Consistent.{IsRoom, IsConsistent}
use dungeon_crawler.Lobby.Registry.Leaving.{remove_player_from_lobby_lem}
use dungeon_crawler.Lobby.Manager.Requests.{handle-IsConsistent}
use dungeon_crawler.Lobby.Manager.{create_lobby, handle}

abbrev pair : Lobby
pair = record { id = 1; players = (7, true) ∷ (8, false) ∷ []; leader_id = 7 }

pair-IsLobby : IsLobby settings pair
unfolding find contains
pair-IsLobby = record { distinct = (refl, (refl, tt)); bounded = omega arith; led = inr refl }

pair-IsRoom : IsRoom settings 2 1 pair
unfolding find contains
pair-IsRoom = record {
  own_id = refl;
  given = omega arith;
  distinct = (refl, (refl, tt));
  bounded = omega arith;
  led = refl;
}

abbrev one_lobby : LobbyRegistry
one_lobby = record {
  lobbies = (1, pair) ∷ [];
  player_to_lobby = (7, 1) ∷ (8, 1) ∷ [];
  lobby_players = (1, (7, tt) ∷ (8, tt) ∷ []) ∷ [];
  next_id = 2;
}

one_lobby-IsConsistent : IsConsistent settings one_lobby
unfolding find contains set_of
one_lobby-IsConsistent = record {
  mapped = λ q k. (λ h. ground (arith, h), λ h. ground (arith, h));
  sets = λ q k. ground arith;
  rooms = λ k l h. elim (Bool-cases (1 == k)) [
    | inl e ↦ ground (arith, pair-IsRoom)
    | inr e ↦ absurd (ground arith)
  ];
}

remove_player_from_lobby_lem_example :
    IsConsistent settings (remove_player_from_lobby 7 one_lobby).0
    × ((remove_player_from_lobby 7 one_lobby).1 ≡ is_player_in_lobby 7 one_lobby)
    × ((q : ℕ)
        → get_player_lobby q (remove_player_from_lobby 7 one_lobby).0
          ≡ (if 7 == q then none else get_player_lobby q one_lobby))
remove_player_from_lobby_lem_example =
    remove_player_from_lobby_lem settings 7 one_lobby one_lobby-IsConsistent

handle-IsConsistent_example : IsConsistent settings (handle settings (create_lobby 9) one_lobby).0
handle-IsConsistent_example =
    handle-IsConsistent settings (create_lobby 9) one_lobby (omega arith) (omega arith)
      one_lobby-IsConsistent
