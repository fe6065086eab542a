-- ===== src/Lobby/Registry/Consistent.antt =====
-- The three maps of the registry tell one story, and what changes of one seat do to it.
use dungeon_crawler.Base.{
  ◌==◌, if◌then◌else◌, Bool-cases, length, Dict, find, contains, assign, emplace, erase, Distinct,
  find-assign, find-erase, find-emplace, contains-find, contains-erase, contains-emplace,
  contains-nil, ℕ, ◌≤◌, ◌<◌, ◌≡◌, refl, ◌↔◌, inl, inr, Bool, true, false, Option, none, some, arith,
}
use dungeon_crawler.Settings.{Settings}
use dungeon_crawler.Lobby.Room.{Lobby}
use dungeon_crawler.Lobby.Registry.{LobbyRegistry, empty_registry, set_of}

-- Whether the lobby, if there is one, has the player.
abbrev pub seated : Option Lobby → ℕ → Bool
seated none q = false
seated (some l) q = contains q l.players

-- A lobby under its id, which was given out already, in order, and led by one of its players.
pub record IsRoom (c : Settings) (next_id k : ℕ) (l : Lobby) : Type 0 where
  pub own_id : l.id ≡ k
  pub given : k < next_id
  pub distinct : Distinct l.players
  pub bounded : length l.players ≤ c.lobby_max_players
  pub led : contains l.leader_id l.players ≡ true

-- A player is mapped to a lobby exactly if that lobby has the player, and the set of players that is kept for a lobby
-- is the set of its players.
pub record IsConsistent (c : Settings) (r : LobbyRegistry) : Type 0 where
  pub mapped :
      (q k : ℕ) → (find q r.player_to_lobby ≡ some k) ↔ (seated (find k r.lobbies) q ≡ true)
  pub sets : (q k : ℕ) → contains q (set_of (find k r.lobby_players)) ≡ seated (find k r.lobbies) q
  pub rooms : (k : ℕ) (l : Lobby) → find k r.lobbies ≡ some l → IsRoom c r.next_id k l

pub empty_registry-IsConsistent : (c : Settings) → IsConsistent c empty_registry
unfolding find contains set_of
empty_registry-IsConsistent c = record {
  mapped = λ q k. (λ h. absurd (cc h), λ h. absurd (cc h));
  sets = λ q k. refl;
  rooms = λ k l h. absurd (cc h);
}

-- Giving ids out moves nobody.
pub advance-IsConsistent :
    (c : Settings) (r : LobbyRegistry) (n : ℕ)
    → r.next_id ≤ n
    → IsConsistent c r
    → IsConsistent c (record r { next_id = n })
advance-IsConsistent c r n le v = record {
  mapped = v.mapped;
  sets = v.sets;
  rooms = λ k l h.
      let m = v.rooms k l h in
      record {
        own_id = m.own_id;
        given = omega (arith, le, m.given);
        distinct = m.distinct;
        bounded = m.bounded;
        led = m.led;
      };
}

-- A player who sits nowhere takes a seat.
pub seat-IsConsistent :
    (c : Settings) (r : LobbyRegistry) (pid lid : ℕ) (l : Lobby)
    → IsConsistent c r
    → contains pid r.player_to_lobby ≡ false
    → IsRoom c r.next_id lid l
    → ((q : ℕ) → contains q l.players ≡ (if pid == q then true else seated (find lid r.lobbies) q))
    → IsConsistent c (record r {
      lobbies = assign lid l r.lobbies;
      lobby_players =
          assign lid (emplace pid tt (set_of (find lid r.lobby_players))) r.lobby_players;
      player_to_lobby = emplace pid lid r.player_to_lobby;
    })
unfolding set_of
seat-IsConsistent c r pid lid l v new room has = record {
  mapped = λ q k.
      let was = find-emplace q pid lid r.player_to_lobby in
      let at = find-assign k lid l r.lobbies in
      let nowhere = contains-find pid r.player_to_lobby in
      (
        λ h. ground (arith, was, at, nowhere, has q, v.mapped q k, v.mapped pid k),
        λ h. ground (arith, was, at, nowhere, has q, v.mapped q k, v.mapped pid k),
      );
  sets = λ q k. ground (
    arith,
    find-assign k lid l r.lobbies,
    has q,
    v.sets q k,
    v.sets q lid,
    find-assign k lid (emplace pid tt (set_of (find lid r.lobby_players))) r.lobby_players,
    contains-emplace q pid tt (set_of (find lid r.lobby_players)),
  );
  rooms = λ k m h. elim (Bool-cases (lid == k)) [
    | inl e ↦ ground (arith, find-assign k lid l r.lobbies, room)
    | inr e ↦ v.rooms k m (ground (arith, find-assign k lid l r.lobbies))
  ];
}

-- A player leaves a lobby, which keeps other players.
pub unseat-IsConsistent :
    (c : Settings) (r : LobbyRegistry) (pid lid : ℕ) (l : Lobby)
    → IsConsistent c r
    → find pid r.player_to_lobby ≡ some lid
    → IsRoom c r.next_id lid l
    → ((q : ℕ) → contains q l.players ≡ (if pid == q then false else seated (find lid r.lobbies) q))
    → IsConsistent c (record r {
      lobbies = assign lid l r.lobbies;
      lobby_players = assign lid (erase pid (set_of (find lid r.lobby_players))) r.lobby_players;
      player_to_lobby = erase pid r.player_to_lobby;
    })
unfolding set_of
unseat-IsConsistent c r pid lid l v sits room has = record {
  mapped = λ q k.
      let was = find-erase q pid r.player_to_lobby in
      let at = find-assign k lid l r.lobbies in
      (
        λ h. ground (arith, was, at, has q, v.mapped q k, v.mapped pid k),
        λ h. ground (arith, was, at, has q, v.mapped q k, v.mapped pid k),
      );
  sets = λ q k. ground (
    arith,
    find-assign k lid l r.lobbies,
    has q,
    v.sets q k,
    v.sets q lid,
    find-assign k lid (erase pid (set_of (find lid r.lobby_players))) r.lobby_players,
    contains-erase q pid (set_of (find lid r.lobby_players)),
  );
  rooms = λ k m h. elim (Bool-cases (lid == k)) [
    | inl e ↦ ground (arith, find-assign k lid l r.lobbies, room)
    | inr e ↦ v.rooms k m (ground (arith, find-assign k lid l r.lobbies))
  ];
}

-- The last player leaves, and the lobby goes.
pub close-IsConsistent :
    (c : Settings) (r : LobbyRegistry) (pid lid : ℕ) (l : Lobby) (s : Dict (Unit {0}))
    → IsConsistent c r
    → find pid r.player_to_lobby ≡ some lid
    → ((q : ℕ) → (if pid == q then false else seated (find lid r.lobbies) q) ≡ false)
    → IsConsistent c (record r {
      lobbies = erase lid (assign lid l r.lobbies);
      lobby_players = erase lid (assign lid s r.lobby_players);
      player_to_lobby = erase pid r.player_to_lobby;
    })
unfolding set_of
close-IsConsistent c r pid lid l s v sits alone = record {
  mapped = λ q k.
      let was = find-erase q pid r.player_to_lobby in
      let at = find-erase k lid (assign lid l r.lobbies) in
      let at' = find-assign k lid l r.lobbies in
      (
        λ h. ground (arith, was, at, at', alone q, v.mapped q k, v.mapped pid k, v.mapped q lid),
        λ h. ground (arith, was, at, at', alone q, v.mapped q k, v.mapped pid k, v.mapped q lid),
      );
  sets = λ q k. ground (
    arith,
    find-erase k lid (assign lid l r.lobbies),
    find-assign k lid l r.lobbies,
    v.sets q k,
    find-erase k lid (assign lid s r.lobby_players),
    find-assign k lid s r.lobby_players,
    contains-nil (Unit {0}) q,
  );
  rooms = λ k m h.
      v.rooms k m
        (ground (arith, find-erase k lid (assign lid l r.lobbies), find-assign k lid l r.lobbies));
}
