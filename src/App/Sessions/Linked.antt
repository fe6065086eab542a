-- ===== src/App/Sessions/Linked.antt =====
-- The two maps between players and sessions are inverse to each other.
use dungeon_crawler.Base.{
  if◌then◌else◌, ==_refl, Bool-cases, Option-cases, find, contains, erase, find-erase, find-emplace,
  contains-find, contains-erase, contains-assign, contains-emplace, ℕ, ◌≡◌, refl, ◌↔◌, inl, inr,
  true, false, not, none, some, arith,
}
use dungeon_crawler.App.Sessions.{
  Session, SessionRegistry, add_session, unbind, remove_session_by_session_id, is_player_id_bound,
  is_session_id_bound, get_player_id_by_session_id, get_session_id_by_player_id,
  bind_player_to_session,
}

-- A player is mapped to a session exactly if that session is mapped to the player, and a session that is
-- mapped is a session of the registry.
pub record IsLinked (r : SessionRegistry) : Type 0 where
  pub inverse :
      (pid sid : ℕ)
      → (find pid r.player_to_session ≡ some sid) ↔ (find sid r.session_to_player ≡ some pid)
  pub present : (sid : ℕ) → contains sid r.session_to_player ≡ true → contains sid r.sessions ≡ true

-- Where the maps are linked, adding a session succeeds exactly for one whose id is new, and keeps
-- them linked.
pub add_session-IsLinked :
    (s : Session) (r : SessionRegistry)
    → IsLinked r
    → IsLinked (add_session (some s) r).0
      × ((add_session (some s) r).1 ≡ not (contains s.session_id r.sessions))
unfolding add_session
add_session-IsLinked s r v = elim (Bool-cases (contains s.session_id r.sessions)) [
  | inl e ↦ rw e (v, refl)
  | inr e ↦ rw e (
    record {
      inverse = v.inverse;
      present =
          λ sid h. ground (arith, contains-assign sid s.session_id s r.sessions, v.present sid);
    },
    refl,
  )
]

unbind-IsLinked :
    (sid : ℕ) (r : SessionRegistry)
    → IsLinked r
    → IsLinked
        (unbind sid (find sid r.session_to_player) (record r { sessions = erase sid r.sessions }))
unfolding unbind
unbind-IsLinked sid r v = elim (Option-cases (find sid r.session_to_player)) [
  | inl e ↦
      rw (e, unbind)
        (record {
          inverse = v.inverse;
          present = λ k h. ground (
            arith,
            contains-erase k sid r.sessions,
            v.present k,
            contains-find k r.session_to_player,
            e,
          );
        })
  | inr (pid, e) ↦
      let known = (v.inverse pid sid).1 e in
      rw (e, unbind)
        (record {
          inverse = λ p k.
              let was = find-erase p pid r.player_to_session in
              let at = find-erase k sid r.session_to_player in
              (
                λ h. ground (arith, was, at, known, e, v.inverse p k),
                λ h. ground (arith, was, at, known, e, v.inverse p k),
              );
          present = λ k h. ground (
            arith,
            contains-erase k sid r.sessions,
            contains-erase k sid r.session_to_player,
            v.present k,
          );
        })
]

unbind_forgets :
    (sid : ℕ) (r : SessionRegistry)
    → find sid
        (unbind sid
          (find sid r.session_to_player)
          (record r { sessions = erase sid r.sessions })).session_to_player
      ≡ none
unfolding unbind
unbind_forgets sid r = elim (Option-cases (find sid r.session_to_player)) [
  | inl e ↦ rw (e, unbind) e
  | inr (pid, e) ↦
      rw (e, unbind) (ground (arith, find-erase sid sid r.session_to_player, ==_refl sid))
]

-- Where the maps are linked, removing a session succeeds exactly for one of the registry, the
-- session then has no player, and the maps stay linked.
pub remove_session-IsLinked :
    (sid : ℕ) (r : SessionRegistry)
    → IsLinked r
    → IsLinked (remove_session_by_session_id sid r).0
      × ((remove_session_by_session_id sid r).1 ≡ contains sid r.sessions)
      × (get_player_id_by_session_id sid (remove_session_by_session_id sid r).0 ≡ none)
unfolding remove_session_by_session_id get_player_id_by_session_id
remove_session-IsLinked sid r v = elim (Bool-cases (contains sid r.sessions)) [
  | inr e ↦ rw e (
    v,
    refl,
    ground (
      arith,
      e,
      v.present sid,
      contains-find sid r.session_to_player,
      Option-cases (find sid r.session_to_player),
    ),
  )
  | inl e ↦ rw e (unbind-IsLinked sid r v, refl, unbind_forgets sid r)
]

-- Where the maps are linked and neither is bound, binding a player to a session succeeds exactly
-- if the registry has the session; the maps stay linked, and the player then finds the session.
pub bind_player-IsLinked :
    (pid sid : ℕ) (r : SessionRegistry)
    → IsLinked r
    → is_player_id_bound pid r ≡ false
    → is_session_id_bound sid r ≡ false
    → IsLinked (bind_player_to_session pid sid r).0
      × ((bind_player_to_session pid sid r).1 ≡ contains sid r.sessions)
      × (get_session_id_by_player_id pid (bind_player_to_session pid sid r).0
          ≡ (if contains sid r.sessions then some sid else none))
unfolding bind_player_to_session is_player_id_bound is_session_id_bound get_session_id_by_player_id
bind_player-IsLinked pid sid r v new_player new_session =
    let free_player = contains-find pid r.player_to_session in
    let free_session = contains-find sid r.session_to_player in
    elim (Bool-cases (contains sid r.sessions)) [
      | inr e ↦
          rw e (v, refl, ground (arith, free_player, Option-cases (find pid r.player_to_session)))
      | inl e ↦ rw e (
        record {
          inverse = λ p k.
              let was = find-emplace p pid sid r.player_to_session in
              let at = find-emplace k sid pid r.session_to_player in
              (
                λ h. ground (arith, was, at, free_player, free_session, v.inverse p k),
                λ h. ground (arith, was, at, free_player, free_session, v.inverse p k),
              );
          present =
              λ k h. ground (arith, e, contains-emplace k sid pid r.session_to_player, v.present k);
        },
        refl,
        ground (arith, find-emplace pid pid sid r.player_to_session, ==_refl pid),
      )
    ]

-- What removing the session of a player leaves.
pub remove_session_bound :
    (sid pid : ℕ) (r : SessionRegistry)
    → IsLinked r
    → find sid r.session_to_player ≡ some pid
    → remove_session_by_session_id sid r ≡ (
      record {
        sessions = erase sid r.sessions;
        player_to_session = erase pid r.player_to_session;
        session_to_player = erase sid r.session_to_player;
      },
      true,
    )
unfolding remove_session_by_session_id unbind
remove_session_bound sid pid r v h =
    ground (arith, h, v.present sid, contains-find sid r.session_to_player)

pub unbound_player :
    (pid : ℕ) (r : SessionRegistry)
    → is_player_id_bound pid r ≡ false
    → get_session_id_by_player_id pid r ≡ none
unfolding is_player_id_bound get_session_id_by_player_id
unbound_player pid r h =
    ground
      (arith, contains-find pid r.player_to_session, Option-cases (find pid r.player_to_session))
