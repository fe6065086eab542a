-- ===== src/Client/Accepted.antt =====
-- What the client's commands send, the server's router accepts.
use dungeon_crawler.Base.{
  ltb, if◌then◌else◌, Option-cases, bytes_eq, length, ℕ, ◌^◌, ◌<◌, ◌≡◌, refl, sym, ap, ◌∙◌, inl,
  inr, Bool, true, false, ◌||◌, Option, none, some, List, [], ◌∷◌, arith,
}
use dungeon_crawler.Types.MessageType.{
  join, create_party, list_parties, join_party, start_game, move, attack, MessageType,
  network_message, app_message, domain_message,
}
use dungeon_crawler.Types.Direction.{Direction, cast_direction, direction_to_byte}
use dungeon_crawler.Types.MessageUtils.Packing.{IsMessage}
use dungeon_crawler.App.Router.{
  Event, auth_requested, lobby_request, start_game_request, move_request, attack_request,
  cast_to_direction, create_event_1, create_event_2, create_move, make_event, takes_session,
  takes_player, player_args, check_player, event_args, on_message,
}
use dungeon_crawler.App.Sessions.{SessionRegistry, get_player_id_by_session_id}
use dungeon_crawler.Ids.{codes, encode_string}
use dungeon_crawler.Lobby.Manager.{create_lobby, join_lobby, list_lobbies}
use dungeon_crawler.Ids.RoundTrip.{decode-encode_string}
use dungeon_crawler.Wire.{Cbor}
use dungeon_crawler.Wire.Laws.{IsDocumented}
use dungeon_crawler.Wire.Messages.{AreArgs}
use dungeon_crawler.Net.Pipeline.{on_raw_message, on_raw_message_lem}
use dungeon_crawler.Client.Text.{
  trim_whitespace, read_word, digits_value, fits_uint64, from_chars, whole_number,
  convert_string_to_uint64,
}
use dungeon_crawler.Client.Commands.{
  Told, invalid_name, invalid_characters, invalid_lobby_id, unknown_command, usage_join,
  usage_join_lobby, usage_move, Routed, send_bytes, tell, min_len_player_name, max_len_player_name,
  direction_from_word, try_serialize, join_as, handle_join, join_lobby_as, handle_join_lobby,
  move_byte, move_in, handle_move, with_word, route_word, route_first, route_command,
}
use dungeon_crawler.Client.Keys.{try_serialize_lem}

from_chars-lt : (w rest : List ℕ) (n : ℕ) → from_chars w ≡ some (n, rest) → n < 2 ^ 64
unfolding from_chars fits_uint64
from_chars-lt [] rest n h = absurd (cc h)
from_chars-lt (d ∷ w) rest n h = elim (Option-cases (digits_value 0 (d ∷ w))) [
  | inl e ↦ absurd (ground (arith, h, e))
  | inr (p, e) ↦ ground (arith, h, e)
]

-- A number that a text converts to has 64 bits.
convert-lt : (w : List ℕ) (n : ℕ) → convert_string_to_uint64 w ≡ some n → n < 2 ^ 64
unfolding convert_string_to_uint64 whole_number
convert-lt w n h = elim (Option-cases (from_chars (trim_whitespace w))) [
  | inl e ↦ absurd (ground (arith, h, e))
  | inr ((m, rest), e) ↦ ground (arith, h, e, from_chars-lt (trim_whitespace w) rest m e)
]

direction-lt : (d : Direction) (n : ℕ) → direction_to_byte d ≡ some n → n < 4
unfolding direction_to_byte
direction-lt d n h = ground (arith, h)

module _ (c : Cbor) (laws : IsDocumented c) (sid pid : ℕ) (r : SessionRegistry) where
  -- If bytes are sent, the server makes an event of them.
  abbrev IsAccepted : Routed → Type 0
  IsAccepted routed =
      (b : List ℕ) → routed ≡ send_bytes b → (e : Event) × (on_raw_message c sid r b ≡ some e)

  tell-IsAccepted : (t : Told) → IsAccepted (tell t)
  tell-IsAccepted t b h = absurd (cc h)

  either-IsAccepted :
      (t : Bool) (x y : Routed) → IsAccepted x → IsAccepted y → IsAccepted (if t then x else y)
  either-IsAccepted true x y h k = h
  either-IsAccepted false x y h k = k

  try_serialize-IsAccepted :
      (type : MessageType) (args : List ℕ)
      → IsMessage type
      → AreArgs args
      → ((e : Event) × (on_message sid (record { type = type; args = args }) r ≡ some e))
      → IsAccepted (try_serialize c type args)
  try_serialize-IsAccepted type args known as_args (e, makes) b h =
      let (b', sends, bytes) = try_serialize_lem c laws type args known as_args in
      let same : b' ≡ b = ground (arith, sends, h) in
      (
        e,
        ap (on_raw_message c sid r) (sym same)
            ∙ on_raw_message_lem c laws sid r (record { type = type; args = args }) b' known as_args
                bytes
            ∙ makes,
      )

  with_word-IsAccepted :
      (t : Told) (handler : List ℕ → Routed) (o : Option (List ℕ × List ℕ))
      → ((w : List ℕ) → IsAccepted (handler w))
      → IsAccepted (with_word c t handler o)
  unfolding with_word
  with_word-IsAccepted t handler none h = tell-IsAccepted t
  with_word-IsAccepted t handler (some (w, rest)) h = h w

  module _ (bound : get_player_id_by_session_id sid r ≡ some pid) where
    join-IsAccepted :
        (n : ℕ) → n < 2 ^ 64 → IsAccepted (try_serialize c (network_message join) (n ∷ []))
    unfolding on_message event_args takes_session make_event create_event_2
    join-IsAccepted n small =
        try_serialize-IsAccepted (network_message join) (n ∷ []) (ground arith) (small, tt)
          (auth_requested sid n, refl)

    join_party-IsAccepted :
        (n : ℕ) → n < 2 ^ 64 → IsAccepted (try_serialize c (app_message join_party) (n ∷ []))
    unfolding on_message event_args takes_session takes_player check_player player_args make_event
        create_event_2
    join_party-IsAccepted n small =
        try_serialize-IsAccepted (app_message join_party) (n ∷ []) (ground arith) (small, tt)
          (lobby_request (join_lobby pid n), rw bound refl)

    move-IsAccepted : (n : ℕ) → n < 4 → IsAccepted (try_serialize c (domain_message move) (n ∷ []))
    unfolding on_message event_args takes_session takes_player check_player player_args make_event
        create_event_2 create_move cast_to_direction
    move-IsAccepted n small =
        try_serialize-IsAccepted (domain_message move) (n ∷ []) (ground arith)
          (omega (arith, small), tt)
          (move_request pid (cast_direction n), rw bound (ground (arith, small)))

    create_party-IsAccepted : IsAccepted (try_serialize c (app_message create_party) [])
    unfolding on_message event_args takes_session takes_player check_player player_args make_event
        create_event_1
    create_party-IsAccepted =
        try_serialize-IsAccepted (app_message create_party) [] (ground arith) tt
          (lobby_request (create_lobby pid), rw bound refl)

    list_parties-IsAccepted : IsAccepted (try_serialize c (app_message list_parties) [])
    unfolding on_message event_args takes_session takes_player check_player player_args make_event
        create_event_1
    list_parties-IsAccepted =
        try_serialize-IsAccepted (app_message list_parties) [] (ground arith) tt
          (lobby_request (list_lobbies pid), rw bound refl)

    start_game-IsAccepted : IsAccepted (try_serialize c (app_message start_game) [])
    unfolding on_message event_args takes_session takes_player check_player player_args make_event
        create_event_1
    start_game-IsAccepted =
        try_serialize-IsAccepted (app_message start_game) [] (ground arith) tt
          (start_game_request pid, rw bound refl)

    attack-IsAccepted : IsAccepted (try_serialize c (domain_message attack) [])
    unfolding on_message event_args takes_session takes_player check_player player_args make_event
        create_event_1
    attack-IsAccepted =
        try_serialize-IsAccepted (domain_message attack) [] (ground arith) tt
          (attack_request pid, rw bound refl)

    handle_join-IsAccepted : (name : List ℕ) → IsAccepted (handle_join c name)
    unfolding handle_join join_as
    handle_join-IsAccepted name =
        either-IsAccepted
          (ltb (length name) min_len_player_name || ltb max_len_player_name (length name))
          (tell invalid_name) (join_as c (encode_string name)) (tell-IsAccepted invalid_name)
          (elim (Option-cases (encode_string name)) [
            | inl e ↦ rw e (tell-IsAccepted invalid_characters)
            | inr (n, e) ↦ rw e (join-IsAccepted n (decode-encode_string name n e).1)
          ])

    handle_join_lobby-IsAccepted : (lobby : List ℕ) → IsAccepted (handle_join_lobby c lobby)
    unfolding handle_join_lobby join_lobby_as
    handle_join_lobby-IsAccepted lobby = elim (Option-cases (convert_string_to_uint64 lobby)) [
      | inl e ↦ rw e (tell-IsAccepted invalid_lobby_id)
      | inr (n, e) ↦ rw e (join_party-IsAccepted n (convert-lt lobby n e))
    ]

    handle_move-IsAccepted : (w : List ℕ) → IsAccepted (handle_move c w)
    unfolding handle_move move_in move_byte
    handle_move-IsAccepted w = elim (Option-cases (direction_from_word w)) [
      | inl e ↦ rw e (tell-IsAccepted unknown_command)
      | inr (d, e) ↦ elim (Option-cases (direction_to_byte d)) [
        | inl f ↦ rw e (rw f (tell-IsAccepted unknown_command))
        | inr (n, f) ↦ rw e (rw f (move-IsAccepted n (direction-lt d n f)))
      ]
    ]

    route_word-IsAccepted : (cmd rest : List ℕ) → IsAccepted (route_word c cmd rest)
    unfolding route_word
    route_word-IsAccepted cmd rest =
        either-IsAccepted (bytes_eq cmd (codes "JOIN")) _ _
          (with_word-IsAccepted usage_join (handle_join c) (read_word rest) handle_join-IsAccepted)
          (either-IsAccepted (bytes_eq cmd (codes "CREATE_LOBBY")) _ _ create_party-IsAccepted (
            either-IsAccepted (bytes_eq cmd (codes "LIST_LOBBY")) _ _ list_parties-IsAccepted (
              either-IsAccepted (bytes_eq cmd (codes "JOIN_LOBBY")) _ _
                (with_word-IsAccepted usage_join_lobby (handle_join_lobby c) (read_word rest)
                  handle_join_lobby-IsAccepted)
                (either-IsAccepted (bytes_eq cmd (codes "START_GAME")) _ _ start_game-IsAccepted (
                  either-IsAccepted (bytes_eq cmd (codes "MOVE")) _ _
                    (with_word-IsAccepted usage_move (handle_move c) (read_word rest)
                      handle_move-IsAccepted)
                    (either-IsAccepted (bytes_eq cmd (codes "ATTACK")) _ _ attack-IsAccepted
                      (tell-IsAccepted unknown_command)))))))

    route_first-IsAccepted : (o : Option (List ℕ × List ℕ)) → IsAccepted (route_first c o)
    unfolding route_first
    route_first-IsAccepted none = route_word-IsAccepted [] []
    route_first-IsAccepted (some (cmd, rest)) = route_word-IsAccepted cmd rest

-- Whatever line the player types: if the client sends bytes for it, the server, when they arrive from a session that is
-- bound to a player, makes an event of them. Libcbor does what it documents.
pub route_command_lem :
    (c : Cbor) (sid pid : ℕ) (r : SessionRegistry) (line b : List ℕ)
    → IsDocumented c
    → get_player_id_by_session_id sid r ≡ some pid
    → route_command c line ≡ send_bytes b
    → (e : Event) × (on_raw_message c sid r b ≡ some e)
unfolding route_command
route_command_lem c sid pid r line b laws bound h =
    route_first-IsAccepted c laws sid pid r bound (read_word line) b h
