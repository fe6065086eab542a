-- ===== src/Client/Keys.antt =====
-- From a command of the player to the event that the server makes of it.
use dungeon_crawler.Base.{ℕ, ◌^◌, ◌<◌, ◌≡◌, refl, ◌∙◌, ◌⊎◌, inl, inr, some, List, [], ◌∷◌, arith}
use dungeon_crawler.Types.MessageType.{move, MessageType, domain_message}
use dungeon_crawler.Types.Direction.{
  Direction, up, down, left, right, raw, cast_direction, direction_to_byte,
}
use dungeon_crawler.Types.MessageUtils.Packing.{IsMessage}
use dungeon_crawler.App.Router.{
  move_request, cast_to_direction, create_event_2, create_move, make_event, takes_session,
  takes_player, player_args, check_player, event_args, on_message,
}
use dungeon_crawler.App.Sessions.{SessionRegistry, get_player_id_by_session_id}
use dungeon_crawler.Wire.{Cbor}
use dungeon_crawler.Wire.Laws.{IsDocumented}
use dungeon_crawler.Wire.Message.{serialize_message_to_buffer}
use dungeon_crawler.Wire.Messages.{AreArgs, deserialize-serialize_message}
use dungeon_crawler.Net.Pipeline.{on_raw_message, on_raw_message_lem}
use dungeon_crawler.Ids.{codes}
use dungeon_crawler.Client.Text.{is_space, read_word}
use dungeon_crawler.Client.Commands.{
  send_bytes, direction_from_word, serialized, try_serialize, move_byte, move_in, handle_move,
  with_word, route_word, route_first, route_command, lower_key, command_from_key,
}

-- The keys of a direction, w, a, s and d, small or capital
abbrev pub KeyFor : Direction → ℕ → Type 0
KeyFor up key = (key ≡ b'w') ⊎ (key ≡ b'W')
KeyFor left key = (key ≡ b'a') ⊎ (key ≡ b'A')
KeyFor down key = (key ≡ b's') ⊎ (key ≡ b'S')
KeyFor right key = (key ≡ b'd') ⊎ (key ≡ b'D')
KeyFor (raw n) key = ⊥

pub move-IsMessage : IsMessage (domain_message move)
move-IsMessage = ground arith

direction_line : Direction → List ℕ
direction_line up = codes "MOVE UP"
direction_line down = codes "MOVE DOWN"
direction_line left = codes "MOVE LEFT"
direction_line right = codes "MOVE RIGHT"
direction_line (raw n) = []

key_line : (d : Direction) (key : ℕ) → KeyFor d key → command_from_key key ≡ some (direction_line d)
unfolding command_from_key lower_key direction_line
key_line up key (inl e) = rw e refl
key_line up key (inr e) = rw e refl
key_line left key (inl e) = rw e refl
key_line left key (inr e) = rw e refl
key_line down key (inl e) = rw e refl
key_line down key (inr e) = rw e refl
key_line right key (inl e) = rw e refl
key_line right key (inr e) = rw e refl
key_line (raw n) key h = absurd h

-- The byte of a direction that a key has
byte_of : Direction → ℕ
byte_of up = 0
byte_of down = 1
byte_of left = 2
byte_of right = 3
byte_of (raw n) = 0

byte_of-lt : (d : Direction) → byte_of d < 2 ^ 64
unfolding byte_of
byte_of-lt up = omega arith
byte_of-lt down = omega arith
byte_of-lt left = omega arith
byte_of-lt right = omega arith
byte_of-lt (raw n) = omega arith

module _ (c : Cbor) where
  line_routed :
      (d : Direction) (key : ℕ)
      → KeyFor d key
      → route_command c (direction_line d) ≡ try_serialize c (domain_message move) (byte_of d ∷ [])
  unfolding route_command route_first route_word read_word is_space with_word handle_move move_in
      direction_from_word move_byte direction_to_byte direction_line byte_of
  line_routed up key h = refl
  line_routed down key h = refl
  line_routed left key h = refl
  line_routed right key h = refl
  line_routed (raw n) key h = absurd h

move_event :
    (sid pid : ℕ) (r : SessionRegistry) (d : Direction) (key : ℕ)
    → KeyFor d key
    → get_player_id_by_session_id sid r ≡ some pid
    → on_message sid (record { type = domain_message move; args = byte_of d ∷ [] }) r
      ≡ some (move_request pid d)
unfolding on_message event_args takes_session takes_player check_player player_args make_event
    create_event_2 create_move cast_to_direction cast_direction byte_of
move_event sid pid r up key h bound = rw bound refl
move_event sid pid r down key h bound = rw bound refl
move_event sid pid r left key h bound = rw bound refl
move_event sid pid r right key h bound = rw bound refl
move_event sid pid r (raw n) key h bound = absurd h

module _ (c : Cbor) (laws : IsDocumented c) where
  pub try_serialize_lem :
      (type : MessageType) (args : List ℕ)
      → IsMessage type
      → AreArgs args
      → (b : List ℕ) × (try_serialize c type args ≡ send_bytes b)
        × (serialize_message_to_buffer c type args ≡ some b)
  unfolding try_serialize serialized
  try_serialize_lem type args known as_args =
      let (b, e, d) = deserialize-serialize_message c laws type args known as_args in
      (b, rw e refl, e)

  -- The key of a direction, small or capital, becomes a command, and the command becomes bytes; when they arrive from a
  -- session that is bound to a player, the server makes of them the request to move that player in that direction.
  -- Libcbor does what it documents.
  pub key_moves :
      (sid pid : ℕ) (r : SessionRegistry) (d : Direction) (key : ℕ)
      → get_player_id_by_session_id sid r ≡ some pid
      → KeyFor d key
      → (line : List ℕ) × (b : List ℕ) × (command_from_key key ≡ some line)
        × (route_command c line ≡ send_bytes b)
        × (on_raw_message c sid r b ≡ some (move_request pid d))
  key_moves sid pid r d key bound h =
      let args : AreArgs (byte_of d ∷ []) = (byte_of-lt d, tt) in
      let (b, sends, bytes) =
        try_serialize_lem (domain_message move) (byte_of d ∷ []) move-IsMessage args in
      (
        direction_line d,
        b,
        key_line d key h,
        line_routed c d key h ∙ sends,
        on_raw_message_lem c laws sid r
              (record { type = domain_message move; args = byte_of d ∷ [] }) b move-IsMessage args
              bytes
            ∙ move_event sid pid r d key h bound,
      )
