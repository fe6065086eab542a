-- ===== src/App/Sessions.antt =====
-- src/server/app/session_registry.h and session_registry.cpp. A session is its id; a pointer to one
-- is an `Option`. Each operation holds the mutex to its end.
pub mod Linked
use dungeon_crawler.Base.{
  if◌then◌else◌, ◌>>=◌, ◌>>◌, length, Dict, find, contains, assign, emplace, erase, values, ℕ, Bool,
  true, false, not, Option, none, some, List,
}

pub record Session : Type 0 where
  pub session_id : ℕ

pub record SessionRegistry : Type 0 where
  pub sessions : Dict Session
  pub player_to_session : Dict ℕ
  pub session_to_player : Dict ℕ

unfoldable pub registry_size : SessionRegistry → ℕ
registry_size r = length r.sessions

unfoldable pub add_session : Option Session → SessionRegistry → SessionRegistry × Bool
add_session none r = (r, false)
add_session (some s) r =
    if contains s.session_id r.sessions
    then (r, false)
    else (record r { sessions = assign s.session_id s r.sessions }, true)

-- What is erased with a session, for the player that the session finds.
unfoldable pub unbind : ℕ → Option ℕ → SessionRegistry → SessionRegistry
unbind sid none r = r
unbind sid (some pid) r = record r {
  player_to_session = erase pid r.player_to_session;
  session_to_player = erase sid r.session_to_player;
}

unfoldable pub remove_session_by_session_id : ℕ → SessionRegistry → SessionRegistry × Bool
remove_session_by_session_id sid r =
    let r' = record r { sessions = erase sid r.sessions } in
    if not (contains sid r.sessions)
    then (r, false)
    else (unbind sid (find sid r.session_to_player) r', true)

unfoldable pub find_session_by_session_id : ℕ → SessionRegistry → Option Session
find_session_by_session_id sid r = find sid r.sessions

unfoldable pub find_session_by_player_id : ℕ → SessionRegistry → Option Session
find_session_by_player_id pid r = do
  sid ← find pid r.player_to_session
  find_session_by_session_id sid r

unfoldable pub is_player_id_bound : ℕ → SessionRegistry → Bool
is_player_id_bound pid r = contains pid r.player_to_session

unfoldable pub is_session_id_bound : ℕ → SessionRegistry → Bool
is_session_id_bound sid r = contains sid r.session_to_player

unfoldable pub get_player_id_by_session_id : ℕ → SessionRegistry → Option ℕ
get_player_id_by_session_id sid r = find sid r.session_to_player

unfoldable pub get_session_id_by_player_id : ℕ → SessionRegistry → Option ℕ
get_session_id_by_player_id pid r = find pid r.player_to_session

unfoldable pub get_all_sessions : SessionRegistry → List Session
get_all_sessions r = values r.sessions

unfoldable pub bind_player_to_session : ℕ → ℕ → SessionRegistry → SessionRegistry × Bool
bind_player_to_session pid sid r = if not (contains sid r.sessions) then (r, false) else (
  record r {
    player_to_session = emplace pid sid r.player_to_session;
    session_to_player = emplace sid pid r.session_to_player;
  },
  true,
)
