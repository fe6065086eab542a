-- ===== src/Wire/Toy.antt =====
-- A CBOR library for the tests: an item is the list of numbers that it is serialized to, a tag in front.
use dungeon_crawler.Base.{
  length, take, drop, length-append, take-length_append, drop-length_append, ℕ, zero, suc, ◌≤◌, ◌≡◌,
  refl, sym, ap, ◌∙◌, true, false, Option, none, some, List, [], ◌∷◌, ◌++◌, arith,
}
use dungeon_crawler.Wire.{int_64, View, uint, array, cbor_map, string, other, Cbor}
use dungeon_crawler.Wire.Laws.{IsDocumented}

abbrev chunks : List (List ℕ) → List ℕ
chunks [] = []
chunks (x ∷ xs) = length x ∷ (x ++ chunks xs)

abbrev split : ℕ → List ℕ → List (List ℕ)
split zero s = []
split (suc fuel) [] = []
split (suc fuel) (n ∷ s) = take n s ∷ split fuel (drop n s)

split-chunks : (f : ℕ) (xs : List (List ℕ)) → length xs ≤ f → split f (chunks xs) ≡ xs
split-chunks zero [] h = refl
split-chunks zero (x ∷ xs) h = absurd (omega arith)
split-chunks (suc f) [] h = refl
split-chunks (suc f) (x ∷ xs) h =
    rw (take-length_append x (chunks xs))
      (rw (drop-length_append x (chunks xs)) (ap (◌∷◌ x) (split-chunks f xs (omega arith))))

length-chunks : (xs : List (List ℕ)) → length xs ≤ length (chunks xs)
length-chunks [] = omega arith
length-chunks (x ∷ xs) = omega (arith, length-chunks xs, length-append x (chunks xs))

abbrev flatten : List (List ℕ × List ℕ) → List (List ℕ)
flatten [] = []
flatten ((k, v) ∷ ps) = k ∷ v ∷ flatten ps

abbrev pairs : List (List ℕ) → List (List ℕ × List ℕ)
pairs (k ∷ v ∷ xs) = (k, v) ∷ pairs xs
pairs _ = []

pairs-flatten : (ps : List (List ℕ × List ℕ)) → pairs (flatten ps) ≡ ps
pairs-flatten [] = refl
pairs-flatten ((k, v) ∷ ps) = ap (◌∷◌ (k, v)) (pairs-flatten ps)

abbrev toy_view : List ℕ → View (List ℕ)
toy_view (zero ∷ n ∷ []) = uint int_64 n
toy_view (suc zero ∷ s) = array (split (length s) s)
toy_view (suc (suc zero) ∷ s) = cbor_map (pairs (split (length s) s))
toy_view (suc (suc (suc zero)) ∷ s) = string true s
toy_view _ = other

-- An array or a map under construction: its room, and what it holds.
abbrev push {ℓ} : {A : Type ℓ} → ℕ × List A → A → Option (ℕ × List A)
push (zero, xs) x = none
push (suc room, xs) x = some (room, xs ++ (x ∷ []))

abbrev pub toy : Cbor
toy = record {
  Item = List ℕ;
  Array = ℕ × List (List ℕ);
  Map = ℕ × List (List ℕ × List ℕ);
  view = toy_view;
  build_uint64 = λ n. some (0 ∷ n ∷ []);
  build_string = λ s. some (3 ∷ s);
  new_definite_array = λ n. some (n, []);
  array_push = push;
  array_item = λ a. 1 ∷ chunks a.1;
  array_room = λ a. a.0;
  new_definite_map = λ n. some (n, []);
  map_add = λ m k v. push m (k, v);
  map_item = λ m. 2 ∷ chunks (flatten m.1);
  map_room = λ m. m.0;
  serialize_alloc = λ i. some i;
  load = λ b. record { root = some b; failed = false; read = length b };
}

array-shows : (xs : List (List ℕ)) → toy_view (1 ∷ chunks xs) ≡ array xs
array-shows xs = ap array (split-chunks (length (chunks xs)) xs (length-chunks xs))

map-shows : (ps : List (List ℕ × List ℕ)) → toy_view (2 ∷ chunks (flatten ps)) ≡ cbor_map ps
map-shows ps =
    ap (λ xs. cbor_map (pairs xs))
      (split-chunks (length (chunks (flatten ps))) (flatten ps) (length-chunks (flatten ps)))
    ∙ ap cbor_map (pairs-flatten ps)

elements : {I : Type 0} → View I → List I
elements (array xs) = xs
elements _ = []

entries : {I : Type 0} → View I → List (I × I)
entries (cbor_map ps) = ps
entries _ = []

toy_push :
    (a : toy.Array) (i : toy.Item) (items : List toy.Item) (room : ℕ)
    → toy.view (toy.array_item a) ≡ array items
    → toy.array_room a ≡ suc room
    → (b : toy.Array) × (toy.array_push a i ≡ some b)
      × (toy.view (toy.array_item b) ≡ array (items ++ (i ∷ [])))
      × (toy.array_room b ≡ room)
unfolding elements
toy_push (zero, xs) i items room shown free = absurd (omega (arith, free))
toy_push (suc r, xs) i items room shown free =
    let same : xs ≡ items = ap elements (sym (array-shows xs) ∙ shown) in
    (
      (r, xs ++ (i ∷ [])),
      refl,
      array-shows (xs ++ (i ∷ [])) ∙ ap (λ k. array (k ++ (i ∷ []))) same,
      omega (arith, free),
    )

toy_map_add :
    (m : toy.Map) (k v : toy.Item) (ps : List (toy.Item × toy.Item)) (room : ℕ)
    → toy.view (toy.map_item m) ≡ cbor_map ps
    → toy.map_room m ≡ suc room
    → (w : toy.Map) × (toy.map_add m k v ≡ some w)
      × (toy.view (toy.map_item w) ≡ cbor_map (ps ++ ((k, v) ∷ [])))
      × (toy.map_room w ≡ room)
unfolding entries
toy_map_add (zero, xs) k v ps room shown free = absurd (omega (arith, free))
toy_map_add (suc r, xs) k v ps room shown free =
    let same : xs ≡ ps = ap entries (sym (map-shows xs) ∙ shown) in
    (
      (r, xs ++ ((k, v) ∷ [])),
      refl,
      map-shows (xs ++ ((k, v) ∷ [])) ∙ ap (λ u. cbor_map (u ++ ((k, v) ∷ []))) same,
      omega (arith, free),
    )

pub toy-IsDocumented : IsDocumented toy
toy-IsDocumented = record {
  build_uint64-shows = λ n h. (0 ∷ n ∷ [], refl, refl);
  build_string-shows = λ s. (3 ∷ s, refl, refl);
  new_array-shows = λ n. ((n, []), refl, refl, refl);
  array_push-shows = toy_push;
  new_map-shows = λ n. ((n, []), refl, refl, refl);
  map_add-shows = toy_map_add;
  serialize-loads = λ i. (i, refl, refl);
}
