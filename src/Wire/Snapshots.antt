-- ===== src/Wire/Snapshots.antt =====
-- A snapshot that was serialized is deserialized to itself.
use dungeon_crawler.Base.{
  All, ℕ, suc, ◌%◌, ◌^◌, ◌<◌, ◌≡◌, refl, true, Option, some, List, [], ◌∷◌, ◌++◌, arith,
}
use dungeon_crawler.Types.GameState.{
  EntitySnapshot, BarrierSnapshot, GameMapSnapshot, DungeonSnapshot,
}
use dungeon_crawler.Wire.{
  cbor_map, string, Cbor, elements_of, array_elements, key_matches, find_key, value_in,
  cbor_map_get, serialize_vector, deserialize_vector,
}
use dungeon_crawler.Wire.Laws.{IsDocumented}
use dungeon_crawler.Wire.Vectors.{
  read_uint64, RoundTrips, serialize_vector-RoundTrips, cbor_to_message-loads, build_array-shows,
}
use dungeon_crawler.Wire.Snapshot.{
  snapshot_size, map_key, players_key, mobs_key, array_of_size, uint_at, serialize_barrier,
  deserialize_barrier, serialize_entity, deserialize_entity, serialize_map, deserialize_map,
  add_value_to_map, serialize_game_state, is_map, extract_value, deserialize_game_state,
}

-- The numbers of a snapshot fit the types of their fields.
abbrev pub IsBarrier : BarrierSnapshot → Type 0
IsBarrier b = (b.pos_x < 2 ^ 64) × (b.pos_y < 2 ^ 64)

abbrev pub IsEntity : EntitySnapshot → Type 0
IsEntity e =
    (e.type < 2 ^ 8)
    × (e.state < 2 ^ 8)
    × (e.id < 2 ^ 64)
    × (e.pos_x < 2 ^ 64)
    × (e.pos_y < 2 ^ 64)
    × (e.hp < 2 ^ 32)

abbrev pub IsGameMap : GameMapSnapshot → Type 0
IsGameMap m =
    (m.blc_x < 2 ^ 64)
    × (m.blc_y < 2 ^ 64)
    × (m.trc_x < 2 ^ 64)
    × (m.trc_y < 2 ^ 64)
    × All IsBarrier m.barriers

abbrev pub IsSnapshot : DungeonSnapshot → Type 0
IsSnapshot s = IsGameMap s.game_map × All IsEntity s.players × All IsEntity s.mobs

module _ (c : Cbor) (laws : IsDocumented c) where
  barrier-RoundTrips :
      (b : BarrierSnapshot)
      → IsBarrier b
      → RoundTrips c laws (serialize_barrier c) (deserialize_barrier c) b
  unfolding serialize_barrier deserialize_barrier array_of_size array_elements elements_of uint_at
  barrier-RoundTrips b h =
      let (i, p, x) = read_uint64 c laws b.pos_x h.0 in
      let (j, q, y) = read_uint64 c laws b.pos_y h.1 in
      let (k, built, shown) = build_array-shows c laws (i ∷ j ∷ []) in
      (k, rw p (rw q built), rw shown (rw x (rw y refl)))

  entity-RoundTrips :
      (e : EntitySnapshot)
      → IsEntity e
      → RoundTrips c laws (serialize_entity c) (deserialize_entity c) e
  unfolding serialize_entity deserialize_entity array_of_size array_elements elements_of uint_at
  entity-RoundTrips e h =
      let (i0, p0, x0) = read_uint64 c laws e.type (omega (arith, h.0)) in
      let (i1, p1, x1) = read_uint64 c laws e.state (omega (arith, h.1)) in
      let (i2, p2, x2) = read_uint64 c laws e.id h.2 in
      let (i3, p3, x3) = read_uint64 c laws e.pos_x h.3 in
      let (i4, p4, x4) = read_uint64 c laws e.pos_y h.4 in
      let (i5, p5, x5) = read_uint64 c laws e.hp (omega (arith, h.5)) in
      let (k, built, shown) = build_array-shows c laws (i0 ∷ i1 ∷ i2 ∷ i3 ∷ i4 ∷ i5 ∷ []) in
      let type : e.type % 2 ^ 8 ≡ e.type = omega (arith, h.0) in
      let state : e.state % 2 ^ 8 ≡ e.state = omega (arith, h.1) in
      let hp : e.hp % 2 ^ 32 ≡ e.hp = omega (arith, h.5) in
      (
        k,
        rw (p0, p1, p2, p3, p4, p5) built,
        rw (shown, x0, x1, x2, x3, x4, x5, type, state, hp) refl,
      )

  All-RoundTrips :
      {A : Type 0} (P : A → Type 0) (f : A → Option c.Item) (g : c.Item → Option A) (xs : List A)
      → ((x : A) → P x → RoundTrips c laws f g x)
      → All P xs
      → All (RoundTrips c laws f g) xs
  All-RoundTrips P f g [] r h = tt
  All-RoundTrips P f g (x ∷ xs) r h = (r x h.0, All-RoundTrips P f g xs r h.1)

  map-RoundTrips :
      (m : GameMapSnapshot)
      → IsGameMap m
      → RoundTrips c laws (serialize_map c) (deserialize_map c) m
  unfolding serialize_map deserialize_map array_of_size array_elements elements_of uint_at
  map-RoundTrips m h =
      let (i0, p0, x0) = read_uint64 c laws m.blc_x h.0 in
      let (i1, p1, x1) = read_uint64 c laws m.blc_y h.1 in
      let (i2, p2, x2) = read_uint64 c laws m.trc_x h.2 in
      let (i3, p3, x3) = read_uint64 c laws m.trc_y h.3 in
      let (i4, p4, x4) =
        serialize_vector-RoundTrips c laws (serialize_barrier c) (deserialize_barrier c) m.barriers
          (All-RoundTrips IsBarrier (serialize_barrier c) (deserialize_barrier c) m.barriers
            barrier-RoundTrips h.4) in
      let (k, built, shown) = build_array-shows c laws (i0 ∷ i1 ∷ i2 ∷ i3 ∷ i4 ∷ []) in
      (k, rw (p4, p0, p1, p2, p3) built, rw (shown, x0, x1, x2, x3, x4) refl)

  entities-RoundTrips :
      (es : List EntitySnapshot)
      → All IsEntity es
      → RoundTrips c laws
          (serialize_vector c (serialize_entity c))
          (deserialize_vector c (deserialize_entity c))
          es
  entities-RoundTrips es h =
      serialize_vector-RoundTrips c laws (serialize_entity c) (deserialize_entity c) es
        (All-RoundTrips IsEntity (serialize_entity c) (deserialize_entity c) es entity-RoundTrips h)

  -- A value added to a map of which the key is known
  add_value-shows :
      (m : c.Map) (pairs : List (c.Item × c.Item)) (room : ℕ) (key : List ℕ) (i : c.Item)
      → c.view (c.map_item m) ≡ cbor_map pairs
      → c.map_room m ≡ suc room
      → (w : c.Map) × (k : c.Item) × (add_value_to_map c m key (some i) ≡ some w)
        × (c.view k ≡ string true key)
        × (c.view (c.map_item w) ≡ cbor_map (pairs ++ ((k, i) ∷ [])))
        × (c.map_room w ≡ room)
  unfolding add_value_to_map
  add_value-shows m pairs room key i shown free =
      let (k, built, text) = laws.build_string-shows key in
      let (w, added, now, left) = laws.map_add-shows m k i pairs room shown free in
      (w, k, rw built added, text, now, left)

  -- A snapshot whose numbers fit their fields can be serialized, and the bytes are deserialized to the same snapshot,
  -- if libcbor does what it documents.
  pub deserialize-serialize_game_state :
      (s : DungeonSnapshot)
      → IsSnapshot s
      → (b : List ℕ) × (serialize_game_state c s ≡ some b) × (deserialize_game_state c b ≡ some s)
  unfolding serialize_game_state deserialize_game_state extract_value cbor_map_get value_in find_key
      key_matches is_map
  deserialize-serialize_game_state s h =
      let (g, pg, rg) = map-RoundTrips s.game_map h.0 in
      let (p, pp, rp) = entities-RoundTrips s.players h.1 in
      let (o, po, ro) = entities-RoundTrips s.mobs h.2 in
      let (m0, new, shown0, room0) = laws.new_map-shows snapshot_size in
      let (m1, k1, a1, t1, shown1, room1) = add_value-shows m0 [] 2 map_key g shown0 room0 in
      let (m2, k2, a2, t2, shown2, room2) =
        add_value-shows m1 ((k1, g) ∷ []) 1 players_key p shown1 room1 in
      let (m3, k3, a3, t3, shown3, room3) =
        add_value-shows m2 ((k1, g) ∷ (k2, p) ∷ []) 0 mobs_key o shown2 room2 in
      let (b, e, l) = cbor_to_message-loads c laws (c.map_item m3) in
      (b, rw (new, pg, a1, pp, a2, po, a3) e, rw (l, shown3, t1, t2, t3, rg, rp, ro) refl)
