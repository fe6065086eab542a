-- ===== src/Lobby/Room.antt =====
-- src/server/domain/lobby/lobby.h and lobby.cpp. Times of joining are written and never read, and
-- are left out. `players` is in iteration order, which the program does not fix: the theorems
-- hold for every order.
use dungeon_crawler.Base.{
  ◌==◌, if◌then◌else◌, Bool-cases, length, Dict, find, contains, assign, emplace, erase, keys,
  Distinct, emplace-Distinct, erase-Distinct, length-erase_le, contains-erase, contains-emplace,
  length-emplace_new, ℕ, ◌≤◌, ◌≡◌, ◌⊎◌, inl, inr, Bool, true, false, not, ◌&&◌, List, [], ◌∷◌,
  arith,
}
use dungeon_crawler.Settings.{Settings}

pub record Lobby : Type 0 where
  pub id : ℕ
  -- the readiness of each player
  pub players : Dict Bool
  pub leader_id : ℕ

-- The leader is not added.
unfoldable pub new_lobby : ℕ → ℕ → Lobby
new_lobby lid pid = record { id = lid; players = []; leader_id = pid }

unfoldable pub contains_player : ℕ → Lobby → Bool
contains_player pid l = contains pid l.players

unfoldable pub is_full : Settings → Lobby → Bool
is_full c l = length l.players == c.lobby_max_players

unfoldable pub is_empty : Lobby → Bool
is_empty l = length l.players == 0

unfoldable pub add_player : Settings → ℕ → Lobby → Lobby × Bool
unfolding contains_player is_full
add_player c pid l =
    if contains_player pid l
    then (l, false)
    else if is_full c l
    then (l, false)
    else (record l { players = emplace pid false l.players }, true)

-- `assignNewLeader`: the first player in the map.
unfoldable pub first_key : Dict Bool → ℕ → ℕ
first_key [] leader = leader
first_key ((pid, ready) ∷ m) leader = pid

unfoldable pub assign_new_leader : Lobby → Lobby
unfolding first_key
assign_new_leader l = record l { leader_id = first_key l.players l.leader_id }

unfoldable pub remove_player : ℕ → Lobby → Lobby × Bool
unfolding is_empty assign_new_leader
remove_player pid l =
    let l' = record l { players = erase pid l.players } in
    if not (contains pid l.players)
    then (l, false)
    else if (l.leader_id == pid) && not (is_empty l')
    then (assign_new_leader l', true)
    else (l', true)

unfoldable pub set_ready : ℕ → Bool → Lobby → Lobby × Bool
set_ready pid ready l =
    if not (contains pid l.players)
    then (l, false)
    else (record l { players = assign pid ready l.players }, true)

unfoldable pub check_all_ready : Dict Bool → Bool
check_all_ready [] = true
check_all_ready ((pid, ready) ∷ m) = ready && check_all_ready m

unfoldable pub get_all_players : Lobby → List ℕ
get_all_players l = keys l.players

-- A lobby of the registry: each player once, no more players than the limit, and, but in the
-- moment before its first player is added, a leader who is one of the players.
pub record IsLobby (c : Settings) (l : Lobby) : Type 0 where
  pub distinct : Distinct l.players
  pub bounded : length l.players ≤ c.lobby_max_players
  pub led : (is_empty l ≡ true) ⊎ (contains l.leader_id l.players ≡ true)

first_key-contains :
    (m : Dict Bool) (k : ℕ) → (length m == 0) ≡ false → contains (first_key m k) m ≡ true
unfolding first_key contains find
first_key-contains [] k h = absurd (cc h)
first_key-contains ((pid, r) ∷ m) k h = ground arith

-- Where the players are distinct and within the limit, adding a player succeeds exactly if the
-- player is not there yet and there is room. The players stay distinct and within the limit, the
-- leader stays, and the one new player is the one that was added, if any.
pub add_player_lem :
    (c : Settings) (pid : ℕ) (l : Lobby)
    → Distinct l.players
    → length l.players ≤ c.lobby_max_players
    → ((add_player c pid l).1 ≡ (not (contains_player pid l) && not (is_full c l)))
      × Distinct (add_player c pid l).0.players
      × (length (add_player c pid l).0.players ≤ c.lobby_max_players)
      × ((add_player c pid l).0.leader_id ≡ l.leader_id)
      × ((q : ℕ)
          → contains q (add_player c pid l).0.players
            ≡ (if (add_player c pid l).1 && (pid == q) then true else contains q l.players))
unfolding add_player contains_player is_full
add_player_lem c pid l d b = (
  ground arith,
  ground (arith, emplace-Distinct pid false l.players d),
  ground (arith, length-emplace_new pid false l.players),
  ground arith,
  λ q. ground (arith, contains-emplace q pid false l.players),
)

-- Removing a player keeps the lobby in order: the players stay distinct and within the limit, and a lobby
-- that still has players has one of them for its leader.
pub remove_player-IsLobby :
    (c : Settings) (pid : ℕ) (l : Lobby) → IsLobby c l → IsLobby c (remove_player pid l).0
unfolding remove_player is_empty assign_new_leader
remove_player-IsLobby c pid l v = elim (Bool-cases (contains pid l.players)) [
  | inr e ↦ rw e v
  | inl e ↦
      rw e (elim (Bool-cases ((l.leader_id == pid) && not (length (erase pid l.players) == 0))) [
        | inl t ↦ rw t (record {
          distinct = erase-Distinct pid l.players v.distinct;
          bounded = omega (arith, v.bounded, length-erase_le pid l.players);
          led = inr (first_key-contains (erase pid l.players) l.leader_id (ground arith));
        })
        | inr t ↦ rw t (record {
          distinct = erase-Distinct pid l.players v.distinct;
          bounded = omega (arith, v.bounded, length-erase_le pid l.players);
          led = elim (Bool-cases (length (erase pid l.players) == 0)) [
            | inl z ↦ inl z
            | inr z ↦ inr (
                ground (
                  arith,
                  contains-erase l.leader_id pid l.players,
                  v.led,
                  length-erase_le pid l.players,
                ))
          ];
        })
      ])
]
