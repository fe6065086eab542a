-- ===== src/Wire/Vectors.antt =====
-- Arrays of CBOR items: what is built, and what is read back from it.
use dungeon_crawler.Base.{
  ==_refl, length, All, length-map, ℕ, ◌^◌, ◌<◌, ◌≡◌, refl, sym, ap, ◌∙◌, Option, some, List, [],
  ◌∷◌, ◌++◌, map, append-nil, append_assoc,
}
use dungeon_crawler.Wire.{
  array, Cbor, uint_of, read_cbor_uint, elements_of, array_elements, push_items, build_array,
  cbor_to_message, whole, buffer_to_cbor, push_each, serialize_vector, read_all, deserialize_vector,
}
use dungeon_crawler.Wire.Laws.{IsDocumented}

module _ (c : Cbor) (laws : IsDocumented c) where
  -- An array under construction that shows these items, and has this much room.
  abbrev pub IsFilled : c.Array → List c.Item → ℕ → Type 0
  IsFilled a items room = (c.view (c.array_item a) ≡ array items) × (c.array_room a ≡ room)

  pub read_uint64 :
      (n : ℕ)
      → n < 2 ^ 64
      → (i : c.Item) × (c.build_uint64 n ≡ some i) × (read_cbor_uint c i ≡ some n)
  unfolding read_cbor_uint uint_of
  read_uint64 n h = let b = laws.build_uint64-shows n h in (b.0, b.1, ap (uint_of c) b.2)

  -- A value that is serialized and read back.
  abbrev pub RoundTrips : {A : Type 0} → (A → Option c.Item) → (c.Item → Option A) → A → Type 0
  RoundTrips f g x = (i : c.Item) × (f x ≡ some i) × (g i ≡ some x)

  -- The array that the items of a list are pushed onto
  abbrev pub Pushed :
      {A : Type 0}
      → (A → Option c.Item)
      → (c.Item → Option A)
      → c.Array
      → List c.Item
      → List A
      → Type 0
  Pushed f g a items xs =
      (b : c.Array) × (more : List c.Item) × (push_each c f a xs ≡ some b)
      × (c.view (c.array_item b) ≡ array (items ++ more))
      × (read_all c g more ≡ some xs)

  pub push_each-IsFilled :
      {A : Type 0} (f : A → Option c.Item) (g : c.Item → Option A) (a : c.Array)
      (items : List c.Item) (xs : List A)
      → All (RoundTrips f g) xs
      → IsFilled a items (length xs)
      → Pushed f g a items xs
  unfolding push_each read_all
  push_each-IsFilled f g a items [] rs fill =
      (a, [], refl, fill.0 ∙ ap array (sym (append-nil items)), refl)
  push_each-IsFilled f g a items (x ∷ xs) rs fill =
      let (i, e, r) = rs.0 in
      let (b, p, shown, room) = laws.array_push-shows a i items (length xs) fill.0 fill.1 in
      let (d, more, q, t, u) = push_each-IsFilled f g b (items ++ (i ∷ [])) xs rs.1 (shown, room) in
      (
        d,
        i ∷ more,
        rw e (rw p q),
        t ∙ ap array (append_assoc items (i ∷ []) more),
        rw r (rw u refl),
      )

  -- `serializeVector` and `deserializeVector`, of values that are serialized and read back.
  pub serialize_vector-RoundTrips :
      {A : Type 0} (f : A → Option c.Item) (g : c.Item → Option A) (xs : List A)
      → All (RoundTrips f g) xs
      → RoundTrips (serialize_vector c f) (deserialize_vector c g) xs
  unfolding serialize_vector deserialize_vector array_elements elements_of
  serialize_vector-RoundTrips f g xs rs =
      let (a, e, shown, room) = laws.new_array-shows (length xs) in
      let (b, more, p, t, u) = push_each-IsFilled f g a [] xs rs (shown, room) in
      (c.array_item b, rw e (rw p refl), rw t u)

  -- What is serialized to a buffer is loaded from it.
  pub cbor_to_message-loads :
      (i : c.Item) → (b : List ℕ) × (cbor_to_message c i ≡ some b) × (buffer_to_cbor c b ≡ some i)
  unfolding cbor_to_message buffer_to_cbor whole
  cbor_to_message-loads i =
      let (b, s, l) = laws.serialize-loads i in
      (b, s, ap (whole c (length b)) l ∙ rw (==_refl (length b)) refl)

  push_items-IsFilled :
      (a : c.Array) (shown items : List c.Item)
      → IsFilled a shown (length items)
      → (b : c.Array) × (push_items c a (map some items) ≡ some b)
        × (c.view (c.array_item b) ≡ array (shown ++ items))
  unfolding push_items
  push_items-IsFilled a shown [] fill = (a, refl, fill.0 ∙ ap array (sym (append-nil shown)))
  push_items-IsFilled a shown (i ∷ items) fill =
      let (b, p, s, t) = laws.array_push-shows a i shown (length items) fill.0 fill.1 in
      let (d, q, u) = push_items-IsFilled b (shown ++ (i ∷ [])) items (s, t) in
      (d, rw p q, u ∙ ap array (append_assoc shown (i ∷ []) items))

  -- `buildArray` gives an array of the items that were built.
  pub build_array-shows :
      (items : List c.Item)
      → (i : c.Item) × (build_array c (map some items) ≡ some i) × (c.view i ≡ array items)
  unfolding build_array
  build_array-shows items =
      let (a, e, shown, room) = laws.new_array-shows (length (map some items)) in
      let (b, p, t) = push_items-IsFilled a [] items (shown, room ∙ length-map some items) in
      (c.array_item b, rw e (rw p refl), t)
