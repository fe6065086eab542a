-- ===== src/Lobby/Manager/Opening.antt =====
-- Opening a lobby keeps the registry consistent.
use dungeon_crawler.Base.{
  ◌==◌, if◌then◌else◌, ==_iff, Bool-cases, Option-cases, find, contains, assign, emplace,
  find-emplace, contains-find, assign-emplace, ℕ, suc, ◌+◌, ◌%◌, ◌^◌, ◌<◌, ◌≡◌, refl, inl, inr,
  true, false, none, some, arith,
}
use dungeon_crawler.Settings.{Settings}
use dungeon_crawler.Lobby.Room.{Lobby, new_lobby, contains_player, is_full, add_player}
use dungeon_crawler.Lobby.Registry.{
  LobbyRegistry, add_lobby, is_player_in_lobby, generate_next_lobby_id, set_of, seat_player,
  seat_in, add_player_to_lobby,
}
use dungeon_crawler.Lobby.Registry.Consistent.{
  IsRoom, IsConsistent, advance-IsConsistent, seat-IsConsistent,
}
use dungeon_crawler.Lobby.Registry.Moves.{seat_player_new, add_player_ok}
use dungeon_crawler.Lobby.Manager.{
  lobby_created, lobby_creation_failed, open_lobby, on_create_lobby_request,
}

-- The lobby that a player opens, with that player in it.
opened_lobby :
    (c : Settings) (n pid lid : ℕ)
    → 0 < c.lobby_max_players
    → lid < n
    → ((add_player c pid (new_lobby lid pid)).1 ≡ true)
      × IsRoom c n lid (add_player c pid (new_lobby lid pid)).0
      × ((q : ℕ) → contains q (add_player c pid (new_lobby lid pid)).0.players ≡ (pid == q))
unfolding new_lobby add_player contains_player is_full contains find emplace assign
opened_lobby c n pid lid room given = (
  ground arith,
  record {
    own_id = ground arith;
    given = given;
    distinct = ground arith;
    bounded = ground arith;
    led = ground (arith, ==_iff pid pid);
  },
  λ q. ground arith,
)

-- The registry in which `addLobby` has put the new lobby takes its leader in, as the registry before takes
-- the leader into a lobby that it does not have.
open_seats :
    (r : LobbyRegistry) (pid lid : ℕ) (w l : Lobby)
    → contains pid r.player_to_lobby ≡ false
    → contains lid r.lobbies ≡ false
    → contains pid (set_of (find lid r.lobby_players)) ≡ false
    → seat_player pid lid (l, true) (record r { lobbies = emplace lid w r.lobbies }) ≡ (
      record r {
        lobbies = assign lid l r.lobbies;
        lobby_players =
            assign lid (emplace pid tt (set_of (find lid r.lobby_players))) r.lobby_players;
        player_to_lobby = emplace pid lid r.player_to_lobby;
      },
      true,
    )
open_seats r pid lid w l new unused new_here =
    rw (seat_player_new (record r { lobbies = emplace lid w r.lobbies }) pid lid l new new_here)
      (rw (assign-emplace lid l w r.lobbies unused) refl)

open_joins :
    (c : Settings) (pid lid : ℕ) (r : LobbyRegistry)
    → 0 < c.lobby_max_players
    → contains pid r.player_to_lobby ≡ false
    → contains lid r.lobbies ≡ false
    → contains pid (set_of (find lid r.lobby_players)) ≡ false
    → add_player_to_lobby c pid lid
        (record r { lobbies = emplace lid (new_lobby lid pid) r.lobbies })
      ≡ (
        record r {
          lobbies = assign lid (add_player c pid (new_lobby lid pid)).0 r.lobbies;
          lobby_players =
              assign lid (emplace pid tt (set_of (find lid r.lobby_players))) r.lobby_players;
          player_to_lobby = emplace pid lid r.player_to_lobby;
        },
        true,
      )
unfolding add_player_to_lobby is_player_in_lobby seat_in
open_joins c pid lid r room new unused new_here =
    let w = new_lobby lid pid in
    let there : find lid (emplace lid w r.lobbies) ≡ some w =
      ground (arith, find-emplace lid lid w r.lobbies, ==_iff lid lid) in
    let (ok, _, _) = opened_lobby c (suc lid) pid lid room (omega arith) in
    rw new (
      rw (there, seat_in)
        (rw (add_player_ok c pid w ok)
          (open_seats r pid lid w (add_player c pid w).0 new unused new_here)))

open-IsConsistent :
    (c : Settings) (pid lid : ℕ) (r : LobbyRegistry)
    → 0 < c.lobby_max_players
    → lid < r.next_id
    → contains pid r.player_to_lobby ≡ false
    → find lid r.lobbies ≡ none
    → IsConsistent c r
    → (IsConsistent c (open_lobby c pid lid r).0)
      × ((open_lobby c pid lid r).1 ≡ lobby_created pid lid)
unfolding open_lobby add_lobby new_lobby
open-IsConsistent c pid lid r room given new none_there v =
    let unused : contains lid r.lobbies ≡ false =
      ground (arith, contains-find lid r.lobbies, none_there) in
    let new_here : contains pid (set_of (find lid r.lobby_players)) ≡ false =
      ground (arith, v.sets pid lid, none_there) in
    let (ok, is_room, has) = opened_lobby c r.next_id pid lid room given in
    rw unused (
      rw (open_joins c pid lid r room new unused new_here) (
        seat-IsConsistent c r pid lid (add_player c pid (new_lobby lid pid)).0 v new is_room
            (λ q. ground (arith, has q, none_there)),
        refl,
      ))

pub create-IsConsistent :
    (c : Settings) (pid : ℕ) (r : LobbyRegistry)
    → 0 < c.lobby_max_players
    → r.next_id + 1 < 2 ^ 64
    → IsConsistent c r
    → (IsConsistent c (on_create_lobby_request c pid r).0)
      × ((on_create_lobby_request c pid r).1 ≡ (
          if is_player_in_lobby pid r
          then lobby_creation_failed pid
          else lobby_created pid r.next_id))
unfolding on_create_lobby_request generate_next_lobby_id is_player_in_lobby
create-IsConsistent c pid r room fresh v = elim (Bool-cases (contains pid r.player_to_lobby)) [
  | inl e ↦ rw e (v, refl)
  | inr e ↦
      let next : (r.next_id + 1) % 2 ^ 64 ≡ r.next_id + 1 = omega arith in
      let unused : find r.next_id r.lobbies ≡ none =
        elim (Option-cases (find r.next_id r.lobbies)) [
          | inl f ↦ f
          | inr (l, f) ↦ absurd (omega (arith, (v.rooms r.next_id l f).given))
        ] in
      rw e (
        rw next (
          open-IsConsistent c pid r.next_id (record r { next_id = r.next_id + 1 }) room
            (omega arith) e unused (advance-IsConsistent c r (r.next_id + 1) (omega arith) v)))
]
