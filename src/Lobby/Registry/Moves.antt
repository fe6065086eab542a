-- ===== src/Lobby/Registry/Moves.antt =====
-- Joining and leaving keep the registry consistent.
use dungeon_crawler.Base.{
  Bool-cases, Option-cases, find, contains, assign, emplace, contains-find, ℕ, ◌≡◌, ◌∙◌, inl, inr,
  true, false, arith,
}
use dungeon_crawler.Settings.{Settings}
use dungeon_crawler.Lobby.Room.{Lobby, add_player, add_player_lem}
use dungeon_crawler.Lobby.Registry.{
  LobbyRegistry, is_player_in_lobby, set_of, seat_player, seat_in, add_player_to_lobby,
}
use dungeon_crawler.Lobby.Registry.Consistent.{IsRoom, IsConsistent, seat-IsConsistent}

-- The steps of `addPlayerToLobby` when the player is in neither map: nothing fails, and nothing is
-- rolled back.
pub seat_player_new :
    (r : LobbyRegistry) (pid lid : ℕ) (l : Lobby)
    → contains pid r.player_to_lobby ≡ false
    → contains pid (set_of (find lid r.lobby_players)) ≡ false
    → seat_player pid lid (l, true) r ≡ (
      record r {
        lobbies = assign lid l r.lobbies;
        lobby_players =
            assign lid (emplace pid tt (set_of (find lid r.lobby_players))) r.lobby_players;
        player_to_lobby = emplace pid lid r.player_to_lobby;
      },
      true,
    )
unfolding seat_player
seat_player_new r pid lid l new new_here = ground arith

-- What `addPlayerToLobby` does when the lobby takes the player, in a consistent registry: no step fails, and
-- nothing is rolled back.
pub seat_player_ok :
    (c : Settings) (r : LobbyRegistry) (pid lid : ℕ) (l : Lobby)
    → IsConsistent c r
    → contains pid r.player_to_lobby ≡ false
    → seat_player pid lid (l, true) r ≡ (
      record r {
        lobbies = assign lid l r.lobbies;
        lobby_players =
            assign lid (emplace pid tt (set_of (find lid r.lobby_players))) r.lobby_players;
        player_to_lobby = emplace pid lid r.player_to_lobby;
      },
      true,
    )
seat_player_ok c r pid lid l v new =
    seat_player_new r pid lid l new
      (ground (arith, v.mapped pid lid, v.sets pid lid, contains-find pid r.player_to_lobby))

pub add_player_ok :
    (c : Settings) (pid : ℕ) (l : Lobby)
    → (add_player c pid l).1 ≡ true
    → add_player c pid l ≡ ((add_player c pid l).0, true)
add_player_ok c pid l h = λ i. ((add_player c pid l).0, h i)

seat_player_refused :
    (c : Settings) (r : LobbyRegistry) (pid lid : ℕ) (l : Lobby)
    → (add_player c pid l).1 ≡ false
    → seat_player pid lid (add_player c pid l) r ≡ (r, false)
unfolding seat_player
seat_player_refused c r pid lid l h = rw h

add_player-IsRoom :
    (c : Settings) (n pid lid : ℕ) (l : Lobby)
    → IsRoom c n lid l
    → (add_player c pid l).0.id ≡ l.id
    → IsRoom c n lid (add_player c pid l).0
add_player-IsRoom c n pid lid l m same =
    let (ok, d, b, led, has) = add_player_lem c pid l m.distinct m.bounded in
    record {
      own_id = same ∙ m.own_id;
      given = m.given;
      distinct = d;
      bounded = b;
      led = ground (arith, led, has l.leader_id, m.led);
    }

add_player_id : (c : Settings) (pid : ℕ) (l : Lobby) → (add_player c pid l).0.id ≡ l.id
unfolding add_player
add_player_id c pid l = ground arith

-- Joining, whether it succeeds or not, keeps a consistent registry consistent.
pub add_player_to_lobby-IsConsistent :
    (c : Settings) (pid lid : ℕ) (r : LobbyRegistry)
    → IsConsistent c r
    → IsConsistent c (add_player_to_lobby c pid lid r).0
unfolding add_player_to_lobby seat_in
add_player_to_lobby-IsConsistent c pid lid r v = elim (Bool-cases (is_player_in_lobby pid r)) [
  | inl e ↦ rw e v
  | inr e ↦ rw e (elim (Option-cases (find lid r.lobbies)) [
    | inl f ↦ rw (f, seat_in) v
    | inr (l, f) ↦
        rw (f, seat_in)
          (elim (Bool-cases (add_player c pid l).1) [
            | inr no_room ↦ rw (seat_player_refused c r pid lid l no_room) v
            | inl room ↦
                let new : contains pid r.player_to_lobby ≡ false = unfold is_player_in_lobby in e in
                let m = v.rooms lid l f in
                let (ok, d, b, led, has) = add_player_lem c pid l m.distinct m.bounded in
                rw (add_player_ok c pid l room) (
                  rw (seat_player_ok c r pid lid (add_player c pid l).0 v new) (
                    seat-IsConsistent c r pid lid (add_player c pid l).0 v new
                      (add_player-IsRoom c r.next_id pid lid l m (add_player_id c pid l))
                      (λ q. ground (arith, has q, room, f))))
          ])
  ])
]
