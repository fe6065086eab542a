-- ===== src/Wire/Laws.antt =====
-- What src/common/wire relies on of libcbor: what the items show that it builds, that a call succeeds
-- while there is room, and that loading gives back the item that was serialized.
use dungeon_crawler.Base.{length, ℕ, suc, ◌^◌, ◌<◌, ◌≡◌, true, false, some, List, [], ◌∷◌, ◌++◌}
use dungeon_crawler.Wire.{int_64, uint, array, cbor_map, string, Cbor}

pub record IsDocumented (c : Cbor) : Type 0 where
  pub build_uint64-shows :
      (n : ℕ) → n < 2 ^ 64 → (i : c.Item) × (c.build_uint64 n ≡ some i) × (c.view i ≡ uint int_64 n)
  pub build_string-shows :
      (s : List ℕ) → (i : c.Item) × (c.build_string s ≡ some i) × (c.view i ≡ string true s)
  pub new_array-shows :
      (n : ℕ)
      → (a : c.Array) × (c.new_definite_array n ≡ some a)
        × (c.view (c.array_item a) ≡ array [])
        × (c.array_room a ≡ n)
  pub array_push-shows :
      (a : c.Array) (i : c.Item) (items : List c.Item) (room : ℕ)
      → c.view (c.array_item a) ≡ array items
      → c.array_room a ≡ suc room
      → (b : c.Array) × (c.array_push a i ≡ some b)
        × (c.view (c.array_item b) ≡ array (items ++ (i ∷ [])))
        × (c.array_room b ≡ room)
  pub new_map-shows :
      (n : ℕ)
      → (m : c.Map) × (c.new_definite_map n ≡ some m)
        × (c.view (c.map_item m) ≡ cbor_map [])
        × (c.map_room m ≡ n)
  pub map_add-shows :
      (m : c.Map) (k v : c.Item) (pairs : List (c.Item × c.Item)) (room : ℕ)
      → c.view (c.map_item m) ≡ cbor_map pairs
      → c.map_room m ≡ suc room
      → (w : c.Map) × (c.map_add m k v ≡ some w)
        × (c.view (c.map_item w) ≡ cbor_map (pairs ++ ((k, v) ∷ [])))
        × (c.map_room w ≡ room)
  pub serialize-loads :
      (i : c.Item)
      → (b : List ℕ) × (c.serialize_alloc i ≡ some b)
        × (c.load b ≡ record { root = some i; failed = false; read = length b })
