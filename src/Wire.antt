-- ===== src/Wire.antt =====
-- src/common/wire: serder_dtl.h, serder_dtl.cpp, serder_gto_base.h. The library libcbor is a parameter: `Cbor` has
-- the calls that the code makes, and a call that allocates can fail.
pub mod Laws
pub mod Message
pub mod Snapshot
pub mod Vectors
pub mod Messages
pub mod Snapshots
pub mod Toy
pub mod Tests
use dungeon_crawler.Base.{
  ◌==◌, if◌then◌else◌, bytes_eq, ◌>>=◌, ◌>>◌, length, ℕ, Bool, true, false, Option, none, some,
  List, [], ◌∷◌,
}

-- `cbor_int_get_width`
pub data Width : Type 0 where
  int_8 int_16 int_32 int_64 : Width

-- What an item shows: `cbor_isa_uint` with its getters, `cbor_isa_array` with size and elements,
-- `cbor_isa_map` with `cbor_map_handle`, `cbor_isa_string` with whether it is definite and with its bytes.
pub data View (I : Type 0) : Type 0 where
  uint : Width → ℕ → View I
  array : List I → View I
  cbor_map : List (I × I) → View I
  string : Bool → List ℕ → View I
  other : View I

-- `cbor_load_result`, with the item that was loaded
pub record Loaded (I : Type 0) : Type 0 where
  pub root : Option I
  pub failed : Bool
  pub read : ℕ

-- A definite array or map that is being filled has room for as many more elements as were allocated and
-- not pushed; once it is filled it is used as an item.
pub record Cbor : Type 1 where
  pub Item : Type 0
  pub Array : Type 0
  pub Map : Type 0
  pub view : Item → View Item
  pub build_uint64 : ℕ → Option Item
  pub build_string : List ℕ → Option Item
  pub new_definite_array : ℕ → Option Array
  pub array_push : Array → Item → Option Array
  pub array_item : Array → Item
  pub array_room : Array → ℕ
  pub new_definite_map : ℕ → Option Map
  pub map_add : Map → Item → Item → Option Map
  pub map_item : Map → Item
  pub map_room : Map → ℕ
  pub serialize_alloc : Item → Option (List ℕ)
  pub load : List ℕ → Loaded Item

module _ (c : Cbor) where
  -- `readCborUint`
  unfoldable pub uint_of : View c.Item → Option ℕ
  uint_of (uint int_8 n) = some n
  uint_of (uint int_16 n) = some n
  uint_of (uint int_32 n) = some n
  uint_of (uint int_64 n) = some n
  uint_of _ = none

  unfoldable pub read_cbor_uint : c.Item → Option ℕ
  unfolding uint_of
  read_cbor_uint item = uint_of (c.view item)

  -- `cbor_isa_array`, and the elements
  unfoldable pub elements_of : View c.Item → Option (List c.Item)
  elements_of (array items) = some items
  elements_of _ = none

  unfoldable pub array_elements : c.Item → Option (List c.Item)
  unfolding elements_of
  array_elements item = elements_of (c.view item)

  -- `pushItems` and `buildArray`. The items are built before the array; one that is missing would be a null
  -- pointer that is pushed, and has no array here.
  unfoldable pub push_items : c.Array → List (Option c.Item) → Option c.Array
  push_items arr [] = some arr
  push_items arr (arg ∷ args) = do
    item ← arg
    pushed ← c.array_push arr item
    push_items pushed args

  unfoldable pub build_array : List (Option c.Item) → Option c.Item
  unfolding push_items
  build_array args = do
    arr ← c.new_definite_array (length args)
    filled ← push_items arr args
    some (c.array_item filled)

  -- `cborToMessage`
  unfoldable pub cbor_to_message : c.Item → Option (List ℕ)
  cbor_to_message root = c.serialize_alloc root

  -- `bufferToCbor`: the whole buffer is one item.
  unfoldable pub whole : ℕ → Loaded c.Item → Option c.Item
  whole size result =
      if result.failed then none else if result.read == size then result.root else none

  unfoldable pub buffer_to_cbor : List ℕ → Option c.Item
  unfolding whole
  buffer_to_cbor buffer = whole (length buffer) (c.load buffer)

  -- `cborMapGet`: the value of the first key that is this definite string.
  unfoldable pub key_matches : List ℕ → View c.Item → Bool
  key_matches key (string true s) = bytes_eq s key
  key_matches key _ = false

  unfoldable pub find_key : List ℕ → List (c.Item × c.Item) → Option c.Item
  unfolding key_matches
  find_key key [] = none
  find_key key ((k, v) ∷ pairs) = if key_matches key (c.view k) then some v else find_key key pairs

  unfoldable pub value_in : List ℕ → View c.Item → Option c.Item
  unfolding find_key
  value_in key (cbor_map pairs) = find_key key pairs
  value_in key _ = none

  unfoldable pub cbor_map_get : c.Item → List ℕ → Option c.Item
  unfolding value_in
  cbor_map_get item key = value_in key (c.view item)

  -- `serializeVector` and `deserializeVector`
  module _ {A : Type 0} where
    unfoldable pub push_each : (A → Option c.Item) → c.Array → List A → Option c.Array
    push_each serialize arr [] = some arr
    push_each serialize arr (x ∷ xs) = do
      item ← serialize x
      pushed ← c.array_push arr item
      push_each serialize pushed xs

    unfoldable pub serialize_vector : (A → Option c.Item) → List A → Option c.Item
    unfolding push_each
    serialize_vector serialize xs = do
      arr ← c.new_definite_array (length xs)
      filled ← push_each serialize arr xs
      some (c.array_item filled)

    unfoldable pub read_all : (c.Item → Option A) → List c.Item → Option (List A)
    read_all deserialize [] = some []
    read_all deserialize (item ∷ items) = do
      x ← deserialize item
      xs ← read_all deserialize items
      some (x ∷ xs)

    unfoldable pub deserialize_vector : (c.Item → Option A) → c.Item → Option (List A)
    unfolding array_elements read_all
    deserialize_vector deserialize item = do items ← array_elements item; read_all deserialize items
