-- ===== src/Types/MessageUtils/Packing.antt =====
-- Packing a message type and reading it back.
use dungeon_crawler.Base.{ℕ, ◌^◌, ◌<◌, ◌≡◌, refl, ◌≢◌, some, List, [], ◌++◌, arith, ◌>>=◌}
use dungeon_crawler.Types.MessageType.{
  MessageType, monostate, network_message, app_message, domain_message, max_network, max_app,
  max_domain,
}
use dungeon_crawler.Types.MessageUtils.{
  pack_message_type, unpack_message_type, append_packed_type, read_packed_type,
}

-- A message that the protocol has: neither the empty variant nor a sentinel.
abbrev pub IsMessage : MessageType → Type 0
IsMessage v =
    (v ≢ monostate)
    × (v ≢ network_message max_network)
    × (v ≢ app_message max_app)
    × (v ≢ domain_message max_domain)

-- A packed type fits ten bits.
pub pack_message_type-lt : (v : MessageType) (c : ℕ) → pack_message_type v ≡ some c → c < 1024
unfolding pack_message_type
pack_message_type-lt monostate c h = cc
pack_message_type-lt (network_message t) c h = ground arith
pack_message_type-lt (app_message t) c h = ground arith
pack_message_type-lt (domain_message t) c h = ground arith

-- Every message that the protocol has is packed, and read back from its code.
pub unpack-pack :
    (v : MessageType) → IsMessage v → (pack_message_type v >>= unpack_message_type) ≡ some v
unfolding pack_message_type unpack_message_type
unpack-pack monostate h = absurd (h.0 refl)
unpack-pack (network_message max_network) h = absurd (h.1 refl)
unpack-pack (network_message _) h = refl
unpack-pack (app_message max_app) h = absurd (h.2 refl)
unpack-pack (app_message _) h = refl
unpack-pack (domain_message max_domain) h = absurd (h.3 refl)
unpack-pack (domain_message _) h = refl

-- A 16-bit code that is read as a message is the code of that message, and the message is one of the protocol.
pub pack-unpack :
    (c : ℕ) (v : MessageType)
    → c < 2 ^ 16
    → unpack_message_type c ≡ some v
    → (pack_message_type v ≡ some c) × IsMessage v
unfolding pack_message_type unpack_message_type
pack-unpack c v b h = ground arith

pub read-append :
    (c : ℕ) (out rest : List ℕ)
    → c < 2 ^ 16
    → read_packed_type (append_packed_type c [] ++ rest) 0 ≡ some c
unfolding append_packed_type read_packed_type
read-append c out rest b = ground arith
