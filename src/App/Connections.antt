-- ===== src/App/Connections.antt =====
-- src/server/app/connection_manager.h and connection_manager.cpp. What a handler publishes is
-- returned beside the new state. The time of `std::chrono::steady_clock::now()` is an argument.
use dungeon_crawler.Base.{
  ltb, leb, if◌then◌else◌, ==_refl, Bool-cases, Dict, find, contains, assign, erase, find-assign,
  find-erase, contains-erase, ℕ, ◌-◌, ◌≡◌, refl, ◌∙◌, inl, inr, Bool, true, false, ◌&&◌, Option,
  none, some, arith, dec_lt,
}
use dungeon_crawler.Settings.{Settings}
use dungeon_crawler.App.Sessions.{
  Session, SessionRegistry, add_session, remove_session_by_session_id, find_session_by_session_id,
  is_player_id_bound, is_session_id_bound, get_player_id_by_session_id, get_session_id_by_player_id,
  bind_player_to_session,
}
use dungeon_crawler.App.Sessions.Linked.{
  IsLinked, remove_session-IsLinked, bind_player-IsLinked, remove_session_bound, unbound_player,
}

pub record ConnectionManager : Type 0 where
  pub session_registry : SessionRegistry
  pub disconnected_players : Dict ℕ

-- The events with a session and a player.
pub data Answer : Type 0 where
  player_authenticated player_authentication_failed : ℕ → ℕ → Answer
  player_reconnected player_reconnection_failed : ℕ → ℕ → Answer

unfoldable pub handle_client_connected : Option Session → ConnectionManager → ConnectionManager
handle_client_connected none m = m
handle_client_connected (some s) m = record m {
  session_registry = (add_session (some s) m.session_registry).0;
}

-- `disconnected_players_[*player_id] = now`
unfoldable pub note_disconnected : ℕ → Option ℕ → Dict ℕ → Dict ℕ
note_disconnected now none players = players
note_disconnected now (some pid) players = assign pid now players

unfoldable pub handle_client_disconnected :
    ℕ → Option Session → ConnectionManager → ConnectionManager
handle_client_disconnected now none m = m
handle_client_disconnected now (some s) m = record {
  session_registry = (remove_session_by_session_id s.session_id m.session_registry).0;
  disconnected_players =
      note_disconnected now (get_player_id_by_session_id s.session_id m.session_registry)
        m.disconnected_players;
}

-- The answer, and the registry, for the time of the disconnection that was found.
unfoldable pub reconnect_since :
    Settings → ℕ → ℕ → ℕ → Option ℕ → SessionRegistry → SessionRegistry × Answer
reconnect_since c now pid sid none r = (r, player_reconnection_failed sid pid)
reconnect_since c now pid sid (some since) r =
    let (r', bound) = bind_player_to_session pid sid r in
    if ltb c.client_disconnect_timeout (now - since)
    then (r, player_reconnection_failed sid pid)
    else if bound
    then (r', player_reconnected sid pid)
    else (r', player_reconnection_failed sid pid)

unfoldable pub handle_player_reconnect_requested :
    Settings → ℕ → ℕ → ℕ → ConnectionManager → ConnectionManager × Answer
handle_player_reconnect_requested c now pid sid m =
    let (r', answer) =
      reconnect_since c now pid sid (find pid m.disconnected_players) m.session_registry in
    (
      record { session_registry = r'; disconnected_players = erase pid m.disconnected_players },
      answer,
    )

unfoldable pub handle_player_auth_requested : ℕ → ℕ → ConnectionManager → ConnectionManager × Answer
handle_player_auth_requested pid sid m =
    let (r', bound) = bind_player_to_session pid sid m.session_registry in
    (
      record m { session_registry = r' },
      if bound then player_authenticated sid pid else player_authentication_failed sid pid,
    )

-- Where the maps are linked, a player whose session ends is disconnected since then and no longer
-- bound, the registry no longer has the session, and the maps stay linked.
pub handle_client_disconnected_lem :
    (now : ℕ) (s : Session) (pid : ℕ) (m : ConnectionManager)
    → IsLinked m.session_registry
    → get_player_id_by_session_id s.session_id m.session_registry ≡ some pid
    → let m' = handle_client_disconnected now (some s) m in
      IsLinked m'.session_registry
      × (find pid m'.disconnected_players ≡ some now)
      × (is_player_id_bound pid m'.session_registry ≡ false)
      × (find_session_by_session_id s.session_id m'.session_registry ≡ none)
unfolding handle_client_disconnected note_disconnected get_player_id_by_session_id
    is_player_id_bound find_session_by_session_id
handle_client_disconnected_lem now s pid m v h =
    let r = m.session_registry in
    let gone = remove_session_bound s.session_id pid r v h in
    (
      (remove_session-IsLinked s.session_id r v).0,
      ground (arith, h, find-assign pid pid now m.disconnected_players, ==_refl pid),
      rw gone (ground (arith, contains-erase pid pid r.player_to_session, ==_refl pid)),
      rw gone
          (ground (arith, find-erase s.session_id s.session_id r.sessions, ==_refl s.session_id)),
    )

-- Disconnected, and for no longer than the timeout.
unfoldable pub in_time : Settings → ℕ → Option ℕ → Bool
in_time c now none = false
in_time c now (some since) = leb (now - since) c.client_disconnect_timeout

reconnect_since_lem :
    (c : Settings) (now pid sid : ℕ) (since : Option ℕ) (r : SessionRegistry)
    → IsLinked r
    → is_player_id_bound pid r ≡ false
    → is_session_id_bound sid r ≡ false
    → let (r', answer) = reconnect_since c now pid sid since r in
      let returns = in_time c now since && contains sid r.sessions in
      IsLinked r'
      × (answer
          ≡ (if returns then player_reconnected sid pid else player_reconnection_failed sid pid))
      × (get_session_id_by_player_id pid r' ≡ (if returns then some sid else none))
unfolding reconnect_since in_time
reconnect_since_lem c now pid sid none r v new_player new_session =
    (v, refl, unbound_player pid r new_player)
reconnect_since_lem c now pid sid (some since) r v new_player new_session =
    let (linked, ok, bound) = bind_player-IsLinked pid sid r v new_player new_session in
    elim (dec_lt c.client_disconnect_timeout (now - since)) [
      | yes late ↦
          let late_test : ltb c.client_disconnect_timeout (now - since) ≡ true = ground arith in
          let out : leb (now - since) c.client_disconnect_timeout ≡ false = ground arith in
          rw late_test (rw out (v, refl, unbound_player pid r new_player))
      | no late ↦
          let on_time : ltb c.client_disconnect_timeout (now - since) ≡ false = ground arith in
          let within : leb (now - since) c.client_disconnect_timeout ≡ true = ground arith in
          rw on_time (
            rw within (elim (Bool-cases (contains sid r.sessions)) [
              | inl e ↦ rw (ok ∙ e) (rw e (linked, refl, ground (arith, bound, e)))
              | inr e ↦ rw (ok ∙ e) (rw e (linked, refl, ground (arith, bound, e)))
            ]))
    ]

-- Where the maps are linked, a player who is not bound comes back on a session that is not bound
-- exactly if they were disconnected, no longer ago than the timeout, and the registry has the
-- session. Then they are bound to it; in every case the maps stay linked, and the disconnection
-- is forgotten.
pub handle_player_reconnect_requested_lem :
    (c : Settings) (now pid sid : ℕ) (m : ConnectionManager)
    → IsLinked m.session_registry
    → is_player_id_bound pid m.session_registry ≡ false
    → is_session_id_bound sid m.session_registry ≡ false
    → let (m', answer) = handle_player_reconnect_requested c now pid sid m in
      let returns =
        in_time c now (find pid m.disconnected_players)
        && contains sid m.session_registry.sessions in
      IsLinked m'.session_registry
      × (answer
          ≡ (if returns then player_reconnected sid pid else player_reconnection_failed sid pid))
      × (get_session_id_by_player_id pid m'.session_registry ≡ (if returns then some sid else none))
      × (find pid m'.disconnected_players ≡ none)
unfolding handle_player_reconnect_requested
handle_player_reconnect_requested_lem c now pid sid m v new_player new_session =
    let (linked, answer, bound) =
      reconnect_since_lem c now pid sid (find pid m.disconnected_players) m.session_registry v
        new_player new_session in
    (linked, answer, bound, ground (arith, find-erase pid pid m.disconnected_players, ==_refl pid))
