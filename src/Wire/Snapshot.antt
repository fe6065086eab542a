-- ===== src/Wire/Snapshot.antt =====
-- src/common/wire/serder_game_state.cpp: the snapshot as a map of three keys. A number that is read is cast to
-- the width of its field.
use dungeon_crawler.Base.{
  ◌==◌, ◌>>=◌, ◌>>◌, guard, length, get_elem?, ℕ, ◌%◌, ◌^◌, Bool, true, false, Option, some, List,
  [], ◌∷◌, map,
}
use dungeon_crawler.Types.GameState.{
  EntitySnapshot, BarrierSnapshot, GameMapSnapshot, DungeonSnapshot,
}
use dungeon_crawler.Wire.{
  View, cbor_map, Cbor, read_cbor_uint, array_elements, build_array, cbor_to_message,
  buffer_to_cbor, cbor_map_get, serialize_vector, deserialize_vector,
}

abbrev pub barrier_array_size : ℕ
barrier_array_size = 2

abbrev pub entity_array_size : ℕ
entity_array_size = 6

abbrev pub game_map_array_size : ℕ
game_map_array_size = 5

abbrev pub snapshot_size : ℕ
snapshot_size = 3

-- The keys, as their bytes
abbrev pub map_key : List ℕ
map_key = b'm' ∷ b'a' ∷ b'p' ∷ []

abbrev pub players_key : List ℕ
players_key = b'p' ∷ b'l' ∷ b'a' ∷ b'y' ∷ b'e' ∷ b'r' ∷ b's' ∷ []

abbrev pub mobs_key : List ℕ
mobs_key = b'm' ∷ b'o' ∷ b'b' ∷ b's' ∷ []

module _ (c : Cbor) where
  -- The array that an item is, if it has this many elements
  unfoldable pub array_of_size : ℕ → c.Item → Option (List c.Item)
  unfolding array_elements
  array_of_size size item = do
    items ← array_elements c item
    guard (length items == size)
    some items

  unfoldable pub uint_at : List c.Item → ℕ → Option ℕ
  unfolding read_cbor_uint
  uint_at items i = do item ← get_elem? items i; read_cbor_uint c item

  unfoldable pub serialize_barrier : BarrierSnapshot → Option c.Item
  unfolding build_array
  serialize_barrier barrier =
      build_array c (c.build_uint64 barrier.pos_x ∷ c.build_uint64 barrier.pos_y ∷ [])

  unfoldable pub deserialize_barrier : c.Item → Option BarrierSnapshot
  unfolding array_of_size uint_at
  deserialize_barrier item = do
    items ← array_of_size barrier_array_size item
    x ← uint_at items 0
    y ← uint_at items 1
    some (record { pos_x = x; pos_y = y })

  unfoldable pub serialize_entity : EntitySnapshot → Option c.Item
  unfolding build_array
  serialize_entity entity = build_array c (
      c.build_uint64 entity.type
      ∷ c.build_uint64 entity.state
      ∷ c.build_uint64 entity.id
      ∷ c.build_uint64 entity.pos_x
      ∷ c.build_uint64 entity.pos_y
      ∷ c.build_uint64 entity.hp
      ∷ [])

  unfoldable pub deserialize_entity : c.Item → Option EntitySnapshot
  unfolding array_of_size uint_at
  deserialize_entity item = do
    items ← array_of_size entity_array_size item
    type ← uint_at items 0
    state ← uint_at items 1
    id ← uint_at items 2
    pos_x ← uint_at items 3
    pos_y ← uint_at items 4
    hp ← uint_at items 5
    some (record {
      type = type % 2 ^ 8;
      state = state % 2 ^ 8;
      id = id;
      pos_x = pos_x;
      pos_y = pos_y;
      hp = hp % 2 ^ 32;
    })

  unfoldable pub serialize_map : GameMapSnapshot → Option c.Item
  unfolding serialize_vector serialize_barrier build_array
  serialize_map map = do
    barriers ← serialize_vector c serialize_barrier map.barriers
    build_array c (
        c.build_uint64 map.blc_x
        ∷ c.build_uint64 map.blc_y
        ∷ c.build_uint64 map.trc_x
        ∷ c.build_uint64 map.trc_y
        ∷ some barriers
        ∷ [])

  unfoldable pub deserialize_map : c.Item → Option GameMapSnapshot
  unfolding array_of_size uint_at deserialize_vector deserialize_barrier
  deserialize_map item = do
    items ← array_of_size game_map_array_size item
    blc_x ← uint_at items 0
    blc_y ← uint_at items 1
    trc_x ← uint_at items 2
    trc_y ← uint_at items 3
    barriers_item ← get_elem? items 4
    barriers ← deserialize_vector c deserialize_barrier barriers_item
    some
        (record { blc_x = blc_x; blc_y = blc_y; trc_x = trc_x; trc_y = trc_y; barriers = barriers })

  -- `addValueToMap`
  unfoldable pub add_value_to_map : c.Map → List ℕ → Option c.Item → Option c.Map
  add_value_to_map root key value = do
    item ← value
    key_cbor ← c.build_string key
    c.map_add root key_cbor item

  unfoldable pub serialize_game_state : DungeonSnapshot → Option (List ℕ)
  unfolding add_value_to_map serialize_map serialize_entity serialize_vector cbor_to_message
  serialize_game_state snapshot = do
    root ← c.new_definite_map snapshot_size
    with_map ← add_value_to_map root map_key (serialize_map snapshot.game_map)
    with_players ←
        add_value_to_map with_map players_key (serialize_vector c serialize_entity snapshot.players)
    with_mobs ←
        add_value_to_map with_players mobs_key (serialize_vector c serialize_entity snapshot.mobs)
    cbor_to_message c (c.map_item with_mobs)

  -- `cbor_isa_map`
  unfoldable pub is_map : View c.Item → Bool
  is_map (cbor_map pairs) = true
  is_map _ = false

  -- `extractValue` and `extractVector`
  unfoldable pub extract_value : {A : Type 0} → (c.Item → Option A) → c.Item → List ℕ → Option A
  unfolding cbor_map_get
  extract_value deserialize root key = do item ← cbor_map_get c root key; deserialize item

  unfoldable pub deserialize_game_state : List ℕ → Option DungeonSnapshot
  unfolding buffer_to_cbor is_map extract_value deserialize_map deserialize_vector
      deserialize_entity
  deserialize_game_state message = do
    root ← buffer_to_cbor c message
    guard (is_map (c.view root))
    game_map ← extract_value deserialize_map root map_key
    players ← extract_value (deserialize_vector c deserialize_entity) root players_key
    mobs ← extract_value (deserialize_vector c deserialize_entity) root mobs_key
    some (record { game_map = game_map; players = players; mobs = mobs })
