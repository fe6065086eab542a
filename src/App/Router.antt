-- ===== src/App/Router.antt =====
-- src/server/app: msg_router.h, msg_router.cpp, msg_dispatcher.cpp and msg_dispatcher_dtl.h: from a message that was
-- deserialized to the event that is published. Its arguments are 64-bit numbers; an id is its number.
use dungeon_crawler.Base.{
  ltb, if◌then◌else◌, ◌>>=◌, ℕ, ◌≡◌, refl, sym, ap, ◌∙◌, ◌⊎◌, Bool, true, false, Option, none, some,
  List, [], ◌∷◌, ◌++◌, arith,
}
use dungeon_crawler.Types.Direction.{Direction, cast_direction}
use dungeon_crawler.Types.MessageType.{
  join, reconnect, create_party, list_parties, join_party, leave_party, start_game, move, attack,
  MessageType, monostate, network_message, app_message, domain_message,
}
use dungeon_crawler.Lobby.Manager.{
  Request, create_lobby, join_lobby, leave_lobby, player_ready, list_lobbies,
}
use dungeon_crawler.App.Sessions.{SessionRegistry, get_player_id_by_session_id}

-- `DeserializedRawMessage`
pub record Message : Type 0 where
  pub type : MessageType
  pub args : List ℕ

-- The events that a message can become: the session's id stands first where there is one.
pub data Event : Type 0 where
  auth_requested reconnect_requested : ℕ → ℕ → Event
  lobby_request : Request → Event
  start_game_request : ℕ → Event
  move_request : ℕ → Direction → Event
  attack_request : ℕ → Event

-- `safeArgumentCast<Direction>`: every byte passes, also one that names no direction.
unfoldable pub cast_to_direction : ℕ → Option Direction
unfolding cast_direction
cast_to_direction value = if ltb 255 value then none else some (cast_direction value)

-- `createEvent`, with one argument and with two.
unfoldable pub create_event_1 : (ℕ → Option Event) → List ℕ → Option Event
create_event_1 make (a ∷ []) = make a
create_event_1 make _ = none

unfoldable pub create_event_2 : (ℕ → ℕ → Option Event) → List ℕ → Option Event
create_event_2 make (a ∷ b ∷ []) = make a b
create_event_2 make _ = none

unfoldable pub create_move : ℕ → ℕ → Option Event
create_move pid value = do dir ← cast_to_direction value; some (move_request pid dir)

-- `kEventFactoryMap` and `makeEvent`.
unfoldable pub make_event : MessageType → List ℕ → Option Event
make_event (network_message join) args =
    create_event_2 (λ sid pid. some (auth_requested sid pid)) args
make_event (network_message reconnect) args =
    create_event_2 (λ sid pid. some (reconnect_requested sid pid)) args
make_event (app_message create_party) args =
    create_event_1 (λ pid. some (lobby_request (create_lobby pid))) args
make_event (app_message list_parties) args =
    create_event_1 (λ pid. some (lobby_request (list_lobbies pid))) args
make_event (app_message join_party) args =
    create_event_2 (λ pid lid. some (lobby_request (join_lobby pid lid))) args
make_event (app_message leave_party) args =
    create_event_1 (λ pid. some (lobby_request (leave_lobby pid))) args
make_event (app_message start_game) args =
    create_event_1 (λ pid. some (start_game_request pid)) args
make_event (domain_message move) args = create_event_2 create_move args
make_event (domain_message attack) args = create_event_1 (λ pid. some (attack_request pid)) args
make_event _ args = none

-- The types whose event gets the session's id, and those whose event gets the player's.
unfoldable pub takes_session : MessageType → Bool
takes_session (network_message join) = true
takes_session (network_message reconnect) = true
takes_session _ = false

unfoldable pub takes_player : MessageType → Bool
takes_player (app_message join_party) = true
takes_player (app_message leave_party) = true
takes_player (app_message create_party) = true
takes_player (app_message list_parties) = true
takes_player (app_message start_game) = true
takes_player (domain_message move) = true
takes_player (domain_message attack) = true
takes_player _ = false

-- `checkPlayer`, and what it puts in front: nothing if the session has no player.
unfoldable pub player_args : Option ℕ → List ℕ
player_args none = []
player_args (some pid) = pid ∷ []

unfoldable pub check_player : ℕ → SessionRegistry → Option ℕ
check_player sid r = get_player_id_by_session_id sid r

-- `OnRawMessage`, from the deserialized message on. The three tests of level are those that
-- `takes_session` and `takes_player` make.
unfoldable pub event_args : ℕ → SessionRegistry → MessageType → List ℕ
event_args sid r type =
    if takes_session type
    then sid ∷ []
    else if takes_player type
    then player_args (check_player sid r)
    else []

unfoldable pub on_message : ℕ → Message → SessionRegistry → Option Event
on_message sid message r = make_event message.type (event_args sid r message.type ++ message.args)

-- The player that an event acts for.
unfoldable pub event_player : Event → ℕ
event_player (auth_requested sid pid) = pid
event_player (reconnect_requested sid pid) = pid
event_player (lobby_request (create_lobby pid)) = pid
event_player (lobby_request (join_lobby pid lid)) = pid
event_player (lobby_request (leave_lobby pid)) = pid
event_player (lobby_request (player_ready pid ready)) = pid
event_player (lobby_request (list_lobbies pid)) = pid
event_player (start_game_request pid) = pid
event_player (move_request pid dir) = pid
event_player (attack_request pid) = pid

unfoldable pub event_session : Event → Option ℕ
event_session (auth_requested sid pid) = some sid
event_session (reconnect_requested sid pid) = some sid
event_session _ = none

-- What the event of one message says, by the arguments behind the one that is put in front.
Says : ℕ → ℕ → Event → Type 0
Says sid pid e = (event_session e ≡ some sid) ⊎ ((event_session e ≡ none) × (event_player e ≡ pid))

create_1-Says :
    (sid pid : ℕ) (make : ℕ → Option Event) (args : List ℕ) (e : Event)
    → ((f : Event) → make pid ≡ some f → Says sid pid f)
    → create_event_1 make (pid ∷ args) ≡ some e
    → Says sid pid e
unfolding create_event_1
create_1-Says sid pid make [] e says h = says e h
create_1-Says sid pid make (b ∷ args) e says h = absurd (cc h)

create_2-Says :
    (sid pid a : ℕ) (make : ℕ → ℕ → Option Event) (args : List ℕ) (e : Event)
    → ((b : ℕ) (f : Event) → make a b ≡ some f → Says sid pid f)
    → create_event_2 make (a ∷ args) ≡ some e
    → Says sid pid e
unfolding create_event_2
create_2-Says sid pid a make [] e says h = absurd (cc h)
create_2-Says sid pid a make (b ∷ []) e says h = says b e h
create_2-Says sid pid a make (b ∷ x ∷ args) e says h = absurd (cc h)

move-Says : (sid pid b : ℕ) (f : Event) → create_move pid b ≡ some f → Says sid pid f
unfolding create_move cast_to_direction Says event_session event_player
move-Says sid pid b f h = ground arith

type-Says :
    (type : MessageType) (sid pid : ℕ) (args : List ℕ) (e : Event)
    → make_event type (
        (if takes_session type then sid ∷ [] else if takes_player type then pid ∷ [] else [])
        ++ args)
      ≡ some e
    → Says sid pid e
unfolding make_event takes_session takes_player Says event_session event_player
type-Says (network_message join) sid pid args e h =
    create_2-Says sid pid sid _ args e (λ b f k. ground (arith, k)) h
type-Says (network_message reconnect) sid pid args e h =
    create_2-Says sid pid sid _ args e (λ b f k. ground (arith, k)) h
type-Says (app_message create_party) sid pid args e h =
    create_1-Says sid pid _ args e (λ f k. ground (arith, k)) h
type-Says (app_message list_parties) sid pid args e h =
    create_1-Says sid pid _ args e (λ f k. ground (arith, k)) h
type-Says (app_message join_party) sid pid args e h =
    create_2-Says sid pid pid _ args e (λ b f k. ground (arith, k)) h
type-Says (app_message leave_party) sid pid args e h =
    create_1-Says sid pid _ args e (λ f k. ground (arith, k)) h
type-Says (app_message start_game) sid pid args e h =
    create_1-Says sid pid _ args e (λ f k. ground (arith, k)) h
type-Says (domain_message move) sid pid args e h =
    create_2-Says sid pid pid _ args e (move-Says sid pid) h
type-Says (domain_message attack) sid pid args e h =
    create_1-Says sid pid _ args e (λ f k. ground (arith, k)) h
type-Says monostate sid pid args e h = absurd (cc h)
type-Says (network_message _) sid pid args e h = absurd (cc h)
type-Says (app_message _) sid pid args e h = absurd (cc h)
type-Says (domain_message _) sid pid args e h = absurd (cc h)

bound_args :
    (sid pid : ℕ) (type : MessageType) (r : SessionRegistry)
    → get_player_id_by_session_id sid r ≡ some pid
    → event_args sid r type
      ≡ (if takes_session type then sid ∷ [] else if takes_player type then pid ∷ [] else [])
unfolding event_args check_player player_args
bound_args sid pid type r bound = rw bound refl

-- The events from a session that is bound to a player: one that asks for a player to be bound names that
-- session, and every other one acts for the player of that session, whatever the arguments.
pub on_message_sound :
    (sid pid : ℕ) (message : Message) (r : SessionRegistry) (e : Event)
    → get_player_id_by_session_id sid r ≡ some pid
    → on_message sid message r ≡ some e
    → (event_session e ≡ some sid) ⊎ ((event_session e ≡ none) × (event_player e ≡ pid))
unfolding on_message Says
on_message_sound sid pid message r e bound h = type-Says message.type sid pid message.args e (
    ap (λ a. make_event message.type (a ++ message.args))
      (sym (bound_args sid pid message.type r bound))
    ∙ h)
