-- ===== src/Types/RawMessage.antt =====
-- src/common/wire/message_utils.h: a raw message is the two bytes of its type, then its payload.
use dungeon_crawler.Base.{
  ℕ, ◌+◌, ◌*◌, ◌<◌, ◌≡◌, sym, ap, ◌∙◌, inl, inr, Option, none, some, List, [], ◌∷◌, ◌++◌, arith,
  leb, Option-cases, ◌>>=◌, ◌>>◌, guard, length, drop, All,
}
use dungeon_crawler.Types.MessageType.{MessageType}
use dungeon_crawler.Types.MessageUtils.{
  pack_message_type, unpack_message_type, append_packed_type, read_packed_type,
}
use dungeon_crawler.Types.MessageUtils.Packing.{
  IsMessage, unpack-pack, pack-unpack, pack_message_type-lt,
}

abbrev pub ByteBuffer : Type 0
ByteBuffer = List ℕ

abbrev pub packed_type_size : ℕ
packed_type_size = 2

abbrev pub AreBytes : ByteBuffer → Type 0
AreBytes = All (λ b. b < 256)

-- The data of a message with a known code.
unfoldable pub with_header : Option ℕ → ByteBuffer → ByteBuffer
unfolding append_packed_type
with_header none payload = []
with_header (some packed) payload = append_packed_type packed [] ++ payload

-- On a type that cannot be packed the message is empty.
unfoldable pub make_message : MessageType → ByteBuffer → ByteBuffer
unfolding with_header
make_message type payload = with_header (pack_message_type type) payload

pub record ParsedRawMessage : Type 0 where
  pub type : MessageType
  pub payload : ByteBuffer

unfoldable pub parse_message : ByteBuffer → Option ParsedRawMessage
unfolding read_packed_type
parse_message buffer = do
  guard (leb packed_type_size (length buffer))
  packed ← read_packed_type buffer 0
  type ← unpack_message_type packed
  some (record { type = type; payload = drop packed_type_size buffer })

parse-with_header :
    (c : ℕ) (v : MessageType) (payload : ByteBuffer)
    → c < 1024
    → unpack_message_type c ≡ some v
    → parse_message (with_header (some c) payload) ≡ some (record { type = v; payload = payload })
unfolding parse_message with_header append_packed_type
parse-with_header c v payload b e = ground arith

-- Making a message of any type that the protocol has, and parsing it, gives the type and the payload back.
pub parse-make_message :
    (v : MessageType) (payload : ByteBuffer)
    → IsMessage v
    → parse_message (make_message v payload) ≡ some (record { type = v; payload = payload })
unfolding make_message
parse-make_message v payload h = elim (Option-cases (pack_message_type v)) [
  | inl e ↦ absurd (cc (unpack-pack v h, ap (λ o. o >>= unpack_message_type) e))
  | inr (c, e) ↦ rw e (
      parse-with_header c v payload (pack_message_type-lt v c e)
        (sym (ap (λ o. o >>= unpack_message_type) e) ∙ unpack-pack v h))
]

-- A buffer of bytes that parses is the message made of what was parsed, and its type is one of the protocol.
pub make-parse_message :
    (buffer : ByteBuffer) (m : ParsedRawMessage)
    → AreBytes buffer
    → parse_message buffer ≡ some m
    → (make_message m.type m.payload ≡ buffer) × IsMessage m.type
unfolding parse_message make_message append_packed_type
make-parse_message [] m b h = absurd (cc h)
make-parse_message (x ∷ []) m b h = absurd (cc h)
make-parse_message (x ∷ y ∷ rest) m b h = elim (Option-cases (unpack_message_type (x * 256 + y))) [
  | inl e ↦ absurd (ground arith)
  | inr (v, e) ↦ ground (arith, pack-unpack (x * 256 + y) v (omega arith) e)
]
