-- ===== src/Types/Tests.antt =====
-- The theorems about types, at messages and directions of the protocol.
use dungeon_crawler.Base.{◌≡◌, refl, some, [], ◌∷◌}
use dungeon_crawler.Types.MessageType.{join_party, MessageType, app_message, app_id}
use dungeon_crawler.Types.MessageUtils.{
  level_value, uint8_to_level, make_variant_from_level_id, unpack_message_type, read_packed_type,
}
use dungeon_crawler.Types.MessageUtils.Packing.{IsMessage}
use dungeon_crawler.Types.RawMessage.{
  make_message, ParsedRawMessage, parse_message, parse-make_message,
}

abbrev joining : MessageType
joining = app_message join_party

joining-IsMessage : IsMessage joining
joining-IsMessage = (λ e. cc, λ e. cc, λ e. cc, λ e. cc)

joining_code : unpack_message_type 262 ≡ some joining
unfolding unpack_message_type uint8_to_level level_value make_variant_from_level_id app_id
joining_code = refl

parse-make_message_example :
    parse_message (make_message joining (7 ∷ []))
    ≡ some (record { type = joining; payload = 7 ∷ [] })
parse-make_message_example = parse-make_message joining (7 ∷ []) joining-IsMessage

abbrev parsed : ParsedRawMessage
parsed = record { type = joining; payload = 7 ∷ [] }

parsed_run : parse_message (1 ∷ 6 ∷ 7 ∷ []) ≡ some parsed
unfolding parse_message read_packed_type unpack_message_type uint8_to_level level_value
    make_variant_from_level_id app_id
parsed_run = refl
