-- ===== src/Lobby/Manager/Requests.antt =====
-- Every request keeps the lobbies consistent.
use dungeon_crawler.Base.{
  ◌==◌, Bool-cases, Option-cases, find, contains, assign, find-assign, contains-find,
  assign-Distinct, length-assign_old, contains-assign, ℕ, ◌+◌, ◌^◌, ◌<◌, ◌≡◌, ◌⊎◌, inl, inr, Bool,
  true, some, arith,
}
use dungeon_crawler.Settings.{Settings}
use dungeon_crawler.Lobby.Room.{Lobby, is_full, set_ready}
use dungeon_crawler.Lobby.Registry.{
  LobbyRegistry, find_lobby, get_player_lobby, add_player_to_lobby, remove_player_from_lobby,
}
use dungeon_crawler.Lobby.Registry.Consistent.{IsRoom, IsConsistent}
use dungeon_crawler.Lobby.Registry.Moves.{add_player_to_lobby-IsConsistent}
use dungeon_crawler.Lobby.Registry.Leaving.{remove_player_from_lobby_lem}
use dungeon_crawler.Lobby.Manager.Opening.{create-IsConsistent}
use dungeon_crawler.Lobby.Manager.{
  Request, create_lobby, join_lobby, leave_lobby, player_ready, list_lobbies, not_in_lobby, found,
  lookup_lobby, lookup_player, get_lobby_for_player, join_found, on_join_lobby_request, leave_found,
  on_leave_lobby_request, ready_found, on_player_ready_request, on_list_lobbies_request, handle,
}

-- The registry knows the lobby of every player that it maps, so no lookup finds a stale mapping.
lookup_consistent :
    (c : Settings) (pid : ℕ) (r : LobbyRegistry)
    → IsConsistent c r
    → (get_lobby_for_player pid r ≡ (r, not_in_lobby))
      ⊎ ((lid : ℕ) × (l : Lobby) × (get_lobby_for_player pid r ≡ (r, found lid l))
          × (find lid r.lobbies ≡ some l)
          × (contains pid l.players ≡ true))
unfolding get_lobby_for_player lookup_player lookup_lobby get_player_lobby find_lobby
lookup_consistent c pid r v = elim (Option-cases (find pid r.player_to_lobby)) [
  | inl e ↦ inl (rw (e, lookup_player))
  | inr (lid, e) ↦ elim (Option-cases (find lid r.lobbies)) [
    | inl f ↦ absurd (ground (arith, e, f, v.mapped pid lid))
    | inr (l, f) ↦ inr (lid, l, ground (arith, e, f), f, ground (arith, e, f, v.mapped pid lid))
  ]
]

leave-IsConsistent :
    (c : Settings) (pid : ℕ) (r : LobbyRegistry)
    → IsConsistent c r
    → IsConsistent c (on_leave_lobby_request pid r).0
unfolding on_leave_lobby_request leave_found
leave-IsConsistent c pid r v = elim (lookup_consistent c pid r v) [
  | inl e ↦ rw (e, leave_found) v
  | inr (lid, l, e, f, here) ↦
      let (keeps, _, _) = remove_player_from_lobby_lem c pid r v in
      rw (e, leave_found)
        (elim (Bool-cases (remove_player_from_lobby pid r).1) [
          | inl ok ↦ rw ok keeps
          | inr failed ↦ rw failed keeps
        ])
]

ready-IsRoom :
    (c : Settings) (n pid lid : ℕ) (ready : Bool) (l : Lobby)
    → IsRoom c n lid l
    → contains pid l.players ≡ true
    → IsRoom c n lid (record l { players = assign pid ready l.players })
ready-IsRoom c n pid lid ready l m here = record {
  own_id = m.own_id;
  given = m.given;
  distinct = assign-Distinct pid ready l.players m.distinct;
  bounded = elim (Option-cases (find pid l.players)) [
    | inl e ↦ absurd (ground (arith, here, contains-find pid l.players, e))
    | inr (w, e) ↦ omega (arith, length-assign_old pid ready l.players e, m.bounded)
  ];
  led = ground (arith, contains-assign l.leader_id pid ready l.players, m.led);
}

-- Readiness is no part of who sits where.
ready-IsConsistent :
    (c : Settings) (pid : ℕ) (ready : Bool) (r : LobbyRegistry)
    → IsConsistent c r
    → IsConsistent c (on_player_ready_request pid ready r).0
unfolding on_player_ready_request ready_found set_ready
ready-IsConsistent c pid ready r v = elim (lookup_consistent c pid r v) [
  | inl e ↦ rw (e, ready_found) v
  | inr (lid, l, e, f, here) ↦
      let room = ready-IsRoom c r.next_id pid lid ready l (v.rooms lid l f) here in
      let same = λ (q : ℕ). contains-assign q pid ready l.players in
      let l' : Lobby = record l { players = assign pid ready l.players } in
      rw (e, ready_found)
        (rw here (record {
          mapped = λ q k. (
            λ h. ground (arith, f, here, find-assign k lid l' r.lobbies, same q, v.mapped q k),
            λ h. ground (arith, f, here, find-assign k lid l' r.lobbies, same q, v.mapped q k),
          );
          sets = λ q k. ground (arith, f, here, find-assign k lid l' r.lobbies, same q, v.sets q k);
          rooms = λ k n h. elim (Bool-cases (lid == k)) [
            | inl x ↦ ground (arith, find-assign k lid l' r.lobbies, room)
            | inr x ↦ v.rooms k n (ground (arith, find-assign k lid l' r.lobbies))
          ];
        }))
]

join-IsConsistent :
    (c : Settings) (pid lid : ℕ) (r : LobbyRegistry)
    → IsConsistent c r
    → IsConsistent c (on_join_lobby_request c pid lid r).0
unfolding on_join_lobby_request join_found find_lobby
join-IsConsistent c pid lid r v =
    let keeps = add_player_to_lobby-IsConsistent c pid lid r v in
    elim (Option-cases (find lid r.lobbies)) [
      | inl e ↦ rw (e, join_found) v
      | inr (l, e) ↦
          rw (e, join_found)
            (elim (Bool-cases (is_full c l)) [
              | inl full ↦ rw full v
              | inr room ↦ rw room (elim (Bool-cases (add_player_to_lobby c pid lid r).1) [
                | inl ok ↦ rw ok keeps
                | inr failed ↦ rw failed keeps
              ])
            ])
    ]

-- Every request, whether it succeeds or not, keeps a consistent registry consistent, where a
-- lobby may have a player or more and the next id is not the last one of 64 bits.
pub handle-IsConsistent :
    (c : Settings) (q : Request) (r : LobbyRegistry)
    → 0 < c.lobby_max_players
    → r.next_id + 1 < 2 ^ 64
    → IsConsistent c r
    → IsConsistent c (handle c q r).0
unfolding handle on_list_lobbies_request
handle-IsConsistent c (create_lobby pid) r room fresh v =
    (create-IsConsistent c pid r room fresh v).0
handle-IsConsistent c (join_lobby pid lid) r room fresh v = join-IsConsistent c pid lid r v
handle-IsConsistent c (leave_lobby pid) r room fresh v = leave-IsConsistent c pid r v
handle-IsConsistent c (player_ready pid ready) r room fresh v = ready-IsConsistent c pid ready r v
handle-IsConsistent c (list_lobbies pid) r room fresh v = v
