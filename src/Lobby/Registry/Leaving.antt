-- ===== src/Lobby/Registry/Leaving.antt =====
-- Leaving a lobby, and what joining and leaving do to the map from players to lobbies.
use dungeon_crawler.Base.{
  ◌==◌, if◌then◌else◌, Bool-cases, Option-cases, length, Dict, find, contains, assign, erase,
  find-erase, contains-find, contains-erase, contains-nil, ℕ, ◌≡◌, sym, ◌∙◌, inl, inr, Bool, true,
  false, none, some, [], ◌∷◌, arith,
}
use dungeon_crawler.Settings.{Settings}
use dungeon_crawler.Lobby.Room.{
  Lobby, is_empty, assign_new_leader, remove_player, IsLobby, remove_player-IsLobby,
}
use dungeon_crawler.Lobby.Registry.{
  LobbyRegistry, is_player_in_lobby, get_player_lobby, set_of, unseat_player, unseat_from, unseat,
  remove_player_from_lobby,
}
use dungeon_crawler.Lobby.Registry.Consistent.{
  IsConsistent, unseat-IsConsistent, close-IsConsistent,
}

-- What `Lobby::removePlayer` does for a player who is there.
remove_player_lem :
    (pid : ℕ) (l : Lobby)
    → contains pid l.players ≡ true
    → (remove_player pid l ≡ ((remove_player pid l).0, true))
      × ((remove_player pid l).0.id ≡ l.id)
      × ((remove_player pid l).0.players ≡ erase pid l.players)
unfolding remove_player assign_new_leader
remove_player_lem pid l h = ground (arith, h)

empty_contains : (m : Dict Bool) (q : ℕ) → (length m == 0) ≡ true → contains q m ≡ false
empty_contains [] q h = contains-nil Bool q
empty_contains (x ∷ m) q h = absurd (ground arith)

-- The two ways in which a player leaves a lobby.
unseat_player_stays :
    (pid lid : ℕ) (l : Lobby) (r : LobbyRegistry)
    → is_empty l ≡ false
    → unseat_player pid lid (l, true) r ≡ (
      record r {
        lobbies = assign lid l r.lobbies;
        lobby_players = assign lid (erase pid (set_of (find lid r.lobby_players))) r.lobby_players;
        player_to_lobby = erase pid r.player_to_lobby;
      },
      true,
    )
unfolding unseat_player
unseat_player_stays pid lid l r h = rw h

unseat_player_closes :
    (pid lid : ℕ) (l : Lobby) (r : LobbyRegistry)
    → is_empty l ≡ true
    → unseat_player pid lid (l, true) r ≡ (
      record r {
        lobbies = erase lid (assign lid l r.lobbies);
        lobby_players =
            erase lid (assign lid (erase pid (set_of (find lid r.lobby_players))) r.lobby_players);
        player_to_lobby = erase pid r.player_to_lobby;
      },
      true,
    )
unfolding unseat_player
unseat_player_closes pid lid l r h = rw h

unseat_player_map :
    (pid lid : ℕ) (l : Lobby) (r : LobbyRegistry)
    → ((unseat_player pid lid (l, true) r).1 ≡ true)
      × ((unseat_player pid lid (l, true) r).0.player_to_lobby ≡ erase pid r.player_to_lobby)
unfolding unseat_player
unseat_player_map pid lid l r = ground arith

-- A player of the lobby leaves it.
unseat_player-IsConsistent :
    (c : Settings) (r : LobbyRegistry) (pid lid : ℕ) (l : Lobby)
    → IsConsistent c r
    → find pid r.player_to_lobby ≡ some lid
    → find lid r.lobbies ≡ some l
    → contains pid l.players ≡ true
    → IsConsistent c (unseat_player pid lid (remove_player pid l) r).0
unfolding is_empty
unseat_player-IsConsistent c r pid lid l v sits f here =
    let (gone, same_id, rest) = remove_player_lem pid l here in
    let l' = (remove_player pid l).0 in
    let m = v.rooms lid l f in
    let room : IsLobby c l' =
      remove_player-IsLobby c pid l
        (record { distinct = m.distinct; bounded = m.bounded; led = inr m.led }) in
    rw gone (elim (Bool-cases (is_empty l')) [
      | inl none_left ↦ rw (unseat_player_closes pid lid l' r none_left) (
          close-IsConsistent c r pid lid l' (erase pid (set_of (find lid r.lobby_players))) v sits
            (λ q. ground (
              arith,
              f,
              rest,
              contains-erase q pid l.players,
              empty_contains l'.players q none_left,
            )))
      | inr some_left ↦ rw (unseat_player_stays pid lid l' r some_left) (
          unseat-IsConsistent c r pid lid l' v sits
            (record {
              own_id = same_id ∙ m.own_id;
              given = m.given;
              distinct = room.distinct;
              bounded = room.bounded;
              led = ground (arith, room.led, some_left);
            })
            (λ q. ground (arith, f, rest, contains-erase q pid l.players)))
    ])

-- In a consistent registry, leaving keeps it consistent. It succeeds exactly for a player who
-- sits somewhere, who then sits nowhere, and it moves nobody else.
pub remove_player_from_lobby_lem :
    (c : Settings) (pid : ℕ) (r : LobbyRegistry)
    → IsConsistent c r
    → IsConsistent c (remove_player_from_lobby pid r).0
      × ((remove_player_from_lobby pid r).1 ≡ is_player_in_lobby pid r)
      × ((q : ℕ)
          → get_player_lobby q (remove_player_from_lobby pid r).0
            ≡ (if pid == q then none else get_player_lobby q r))
unfolding remove_player_from_lobby unseat unseat_from is_player_in_lobby get_player_lobby
remove_player_from_lobby_lem c pid r v = elim (Option-cases (find pid r.player_to_lobby)) [
  | inl e ↦
      rw (e, unseat)
        (v, ground (arith, e, contains-find pid r.player_to_lobby), λ q. ground (arith, e))
  | inr (lid, e) ↦
      rw (e, unseat)
        (elim (Option-cases (find lid r.lobbies)) [
          | inl f ↦ absurd (ground (arith, e, f, v.mapped pid lid))
          | inr (l, f) ↦
              let here : contains pid l.players ≡ true = ground (arith, e, f, v.mapped pid lid) in
              let (gone, _, _) = remove_player_lem pid l here in
              let (ok, kept) = unseat_player_map pid lid (remove_player pid l).0 r in
              rw (f, unseat_from)
                (
                  unseat_player-IsConsistent c r pid lid l v e f here,
                  rw gone (ok ∙ sym (ground (arith, e, contains-find pid r.player_to_lobby))),
                  λ q. rw gone (rw kept (find-erase q pid r.player_to_lobby)),
                )
        ])
]
