-- ===== src/Wire/Tests.antt =====
-- The theorems about the wire format, with the library for tests.
use dungeon_crawler.Base.{length, ℕ, ◌≡◌, refl, false, some, List, [], ◌∷◌, arith}
use dungeon_crawler.Types.MessageType.{join, move, network_message, domain_message}
use dungeon_crawler.Types.GameState.{DungeonSnapshot}
use dungeon_crawler.Types.MessageUtils.{unpack_message_type}
use dungeon_crawler.Types.MessageUtils.Packing.{IsMessage}
use dungeon_crawler.Wire.{array_elements}
use dungeon_crawler.Wire.Toy.{toy, toy-IsDocumented}
use dungeon_crawler.Wire.Message.{
  get_msg_args, serialize_message_to_buffer, deserialize_buffer_to_message,
}
use dungeon_crawler.Wire.Messages.{deserialize-serialize_message, deserialize_message_sound}
use dungeon_crawler.Wire.Snapshot.{serialize_game_state, deserialize_game_state}
use dungeon_crawler.Wire.Snapshots.{IsSnapshot, deserialize-serialize_game_state}

move-IsMessage : IsMessage (domain_message move)
move-IsMessage =
    (λ h. absurd (cc h), λ h. absurd (cc h), λ h. absurd (cc h), λ h. absurd (ground (arith, h)))

deserialize-serialize_message_example :
    (b : List ℕ) × (serialize_message_to_buffer toy (domain_message move) (2 ∷ []) ≡ some b)
    × (deserialize_buffer_to_message toy b
        ≡ some (record { type = domain_message move; args = 2 ∷ [] }))
deserialize-serialize_message_example =
    deserialize-serialize_message toy toy-IsDocumented (domain_message move) (2 ∷ []) move-IsMessage
      (omega arith, tt)

abbrev move_bytes : List ℕ
move_bytes = 1 ∷ 2 ∷ 0 ∷ 512 ∷ 2 ∷ 0 ∷ 2 ∷ []

move_bytes_read :
    deserialize_buffer_to_message toy move_bytes
    ≡ some (record { type = domain_message move; args = 2 ∷ [] })
unfolding deserialize_buffer_to_message unpack_message_type get_msg_args
move_bytes_read = refl

-- A code above 16 bits is read as its remainder.
wrapped_code :
    deserialize_buffer_to_message toy (1 ∷ 2 ∷ 0 ∷ 65538 ∷ [])
    ≡ some (record { type = network_message join; args = [] })
unfolding deserialize_buffer_to_message unpack_message_type get_msg_args
wrapped_code = refl

deserialize_message_sound_example :
    ((toy.load move_bytes).failed ≡ false)
    × ((toy.load move_bytes).read ≡ length move_bytes)
    × IsMessage (domain_message move)
    × (items : List (List ℕ)) × (root : List ℕ) × ((toy.load move_bytes).root ≡ some root)
    × (array_elements toy root ≡ some items)
    × (length items ≡ 2)
deserialize_message_sound_example =
    deserialize_message_sound toy move_bytes (record { type = domain_message move; args = 2 ∷ [] })
      move_bytes_read

abbrev small_snapshot : DungeonSnapshot
small_snapshot = record {
  game_map = record {
    blc_x = 0;
    blc_y = 0;
    trc_x = 9;
    trc_y = 9;
    barriers = record { pos_x = 3; pos_y = 4 } ∷ [];
  };
  players = record { type = 0; state = 1; id = 7; pos_x = 1; pos_y = 2; hp = 10 } ∷ [];
  mobs = [];
}

small_snapshot-IsSnapshot : IsSnapshot small_snapshot
small_snapshot-IsSnapshot = ground arith

deserialize-serialize_game_state_example :
    (b : List ℕ) × (serialize_game_state toy small_snapshot ≡ some b)
    × (deserialize_game_state toy b ≡ some small_snapshot)
deserialize-serialize_game_state_example =
    deserialize-serialize_game_state toy toy-IsDocumented small_snapshot small_snapshot-IsSnapshot
