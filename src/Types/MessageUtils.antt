-- ===== src/Types/MessageUtils.antt =====
-- src/common/types/message_utils.h: a message type as a 16-bit code, two bits of level above
-- eight bits of id. `code >> 8` is `code / 2 ^ 8`, and `code & 0xFF` is `code % 2 ^ 8`.
pub mod Packing
use mathlib.Core.Option
use dungeon_crawler.Base.{
  ltb, leb, ◌==◌, if◌then◌else◌, ◌>>=◌, ◌>>◌, guard, length, get_elem?, ℕ, ◌+◌, ◌-◌, ◌*◌, ◌/◌, ◌%◌,
  ◌^◌, Bool, true, false, Option, none, some, List, [], ◌∷◌, ◌++◌, map,
}
use dungeon_crawler.Types.MessageType.{
  Level, network, app, domain, unknown, NetworkMessageType, max_network, AppMessageType, max_app,
  DomainMessageType, max_domain, MessageType, monostate, network_message, app_message,
  domain_message, network_messages, app_messages, domain_messages, network_id, app_id, domain_id,
}

abbrev pub id_bits : ℕ
id_bits = 8

abbrev pub level_mask : ℕ
level_mask = 2 ^ 2 - 1

-- `static_cast<uint8_t>` of a level
unfoldable pub level_value : Level → ℕ
level_value network = 0
level_value app = 1
level_value domain = 2
level_value unknown = 3

unfoldable pub level_to_uint8 : Level → Option ℕ
unfolding level_value
level_to_uint8 lvl = if ltb level_mask (level_value lvl) then none else some (level_value lvl)

unfoldable pub uint8_to_level : ℕ → Option Level
unfolding level_value
uint8_to_level raw =
    if ltb (level_value unknown) raw
    then none
    else get_elem? (network ∷ app ∷ domain ∷ unknown ∷ []) raw

pub record LevelId : Type 0 where
  pub level : Level
  pub id : ℕ

unfoldable pub get_level_id : MessageType → Option LevelId
unfolding network_id app_id domain_id
get_level_id monostate = none
get_level_id (network_message t) = some (record { level = network; id = network_id t })
get_level_id (app_message t) = some (record { level = app; id = app_id t })
get_level_id (domain_message t) = some (record { level = domain; id = domain_id t })

unfoldable pub make_variant_from_level_id : Level → ℕ → Option MessageType
unfolding network_id app_id domain_id
make_variant_from_level_id network id =
    if leb (network_id max_network) id
    then none
    else Option.map network_message (get_elem? network_messages id)
make_variant_from_level_id app id =
    if leb (app_id max_app) id then none else Option.map app_message (get_elem? app_messages id)
make_variant_from_level_id domain id =
    if leb (domain_id max_domain) id
    then none
    else Option.map domain_message (get_elem? domain_messages id)
make_variant_from_level_id unknown id = none

-- `info && info->level == …`
unfoldable pub level_eq : Level → Level → Bool
unfolding level_value
level_eq a b = level_value a == level_value b

unfoldable pub at_level : Level → Option LevelId → Bool
unfolding level_eq
at_level l none = false
at_level l (some info) = level_eq info.level l

unfoldable pub is_network_message : MessageType → Bool
unfolding at_level get_level_id
is_network_message v = at_level network (get_level_id v)

unfoldable pub is_app_message : MessageType → Bool
unfolding at_level get_level_id
is_app_message v = at_level app (get_level_id v)

unfoldable pub is_domain_message : MessageType → Bool
unfolding at_level get_level_id
is_domain_message v = at_level domain (get_level_id v)

unfoldable pub is_unknown_message : MessageType → Bool
is_unknown_message monostate = true
is_unknown_message _ = false

unfoldable pub as_network_message : MessageType → Option NetworkMessageType
as_network_message (network_message t) = some t
as_network_message _ = none

unfoldable pub as_app_message : MessageType → Option AppMessageType
as_app_message (app_message t) = some t
as_app_message _ = none

unfoldable pub as_domain_message : MessageType → Option DomainMessageType
as_domain_message (domain_message t) = some t
as_domain_message _ = none

unfoldable pub pack_level_id : Level → ℕ → Option ℕ
unfolding level_to_uint8
pack_level_id level id = do lvl ← level_to_uint8 level; some (lvl * 2 ^ id_bits + id)

unfoldable pub pack_message_type : MessageType → Option ℕ
unfolding get_level_id pack_level_id
pack_message_type v = do info ← get_level_id v; pack_level_id info.level info.id

unfoldable pub unpack_message_type : ℕ → Option MessageType
unfolding uint8_to_level make_variant_from_level_id
unpack_message_type code = do
  level ← uint8_to_level (code / 2 ^ id_bits % 2 ^ 8)
  make_variant_from_level_id level (code % 2 ^ id_bits)

-- The two bytes of a packed type, high byte first.
unfoldable pub append_packed_type : ℕ → List ℕ → List ℕ
append_packed_type packed out = out ++ (packed / 2 ^ 8 % 2 ^ 8 ∷ packed % 2 ^ 8 ∷ [])

unfoldable pub read_packed_type : List ℕ → ℕ → Option ℕ
read_packed_type buffer offset = do
  guard (leb (offset + 2) (length buffer))
  hi ← get_elem? buffer offset
  lo ← get_elem? buffer (offset + 1)
  some (hi * 2 ^ 8 + lo)
