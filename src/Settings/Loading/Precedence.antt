-- ===== src/Settings/Loading/Precedence.antt =====
-- Which source a setting comes from.
use dungeon_crawler.Base.{
  if◌then◌else◌, Bool-cases, bytes_eq, keys, ℕ, ◌+◌, ◌≡◌, refl, sym, ap, ◌∙◌, inl, inr, Bool, true,
  Option, none, some, List, [], ◌∷◌, ◌++◌, arith,
}
use dungeon_crawler.Settings.Loading.{
  Text, Json, json_object, json_array, json_leaf, Members, no_members, member, Elements,
  no_elements, element, Table, get_value, set_value, LoadedSettings, handler_keys, is_listed,
  member_key, element_key, override_setting, flatten_and_store, store_members, store_elements,
  get_env, override_with, override_all, keys_of, load_json, load,
}

bytes_eq_refl : (a : Text) → bytes_eq a a ≡ true
bytes_eq_refl [] = refl
bytes_eq_refl (c ∷ a) = ground (arith, bytes_eq_refl a)

bytes_eq_sound : (a b : Text) → bytes_eq a b ≡ true → a ≡ b
bytes_eq_sound [] [] h = refl
bytes_eq_sound [] (d ∷ b) h = absurd (cc h)
bytes_eq_sound (c ∷ a) [] h = absurd (cc h)
bytes_eq_sound (c ∷ a) (d ∷ b) h = ground (arith, h, bytes_eq_sound a b)

get-set :
    (k j v : Text) (t : Table)
    → get_value j (set_value k v t) ≡ (if bytes_eq k j then some v else get_value j t)
unfolding get_value set_value
get-set k j v [] = refl
get-set k j v ((i, w) ∷ t) = elim (Bool-cases (bytes_eq i k)) [
  | inl e ↦
      let same : bytes_eq i j ≡ bytes_eq k j = ap (λ x. bytes_eq x j) (bytes_eq_sound i k e) in
      ground (arith, e, same)
  | inr e ↦ elim (Bool-cases (bytes_eq k j)) [
    | inl f ↦
        let same : bytes_eq i j ≡ bytes_eq i k = ap (bytes_eq i) (sym (bytes_eq_sound k j f)) in
        ground (arith, e, f, same, get-set k j v t)
    | inr f ↦ ground (arith, e, f, get-set k j v t)
  ]
]

-- The leaves of a JSON value, in the order of the file, under their keys
mutual
  pub leaves : Text → Json → Table
  leaves prefix (json_object members) = leaves_of prefix members
  leaves prefix (json_array elements) = leaves_from prefix 0 elements
  leaves prefix (json_leaf value) = (prefix, value) ∷ []

  leaves_of : Text → Members → Table
  leaves_of prefix no_members = []
  leaves_of prefix (member key jv members) =
      leaves (member_key prefix key) jv ++ leaves_of prefix members

  leaves_from : Text → ℕ → Elements → Table
  leaves_from prefix i no_elements = []
  leaves_from prefix i (element jv elements) =
      leaves (element_key prefix i) jv ++ leaves_from prefix (i + 1) elements

module _ (converts : Text → Text → Bool) where
  -- A value that can be converted replaces the one before.
  pub replace : Text → Option Text → Option Text → Option Text
  replace k none old = old
  replace k (some v) old = if converts k v then some v else old

  -- The last value for a key that can be converted
  pub latest : Text → Table → Option Text → Option Text
  latest k [] old = old
  latest k ((j, v) ∷ t) old = latest k t (if bytes_eq j k then replace k (some v) old else old)

  store_leaves : Table → LoadedSettings → LoadedSettings
  store_leaves [] s = s
  store_leaves ((k, v) ∷ t) s = store_leaves t (override_setting converts k v s)

  store_leaves-append :
      (a b : Table) (s : LoadedSettings)
      → store_leaves (a ++ b) s ≡ store_leaves b (store_leaves a s)
  unfolding store_leaves
  store_leaves-append [] b s = refl
  store_leaves-append ((k, v) ∷ a) b s = store_leaves-append a b (override_setting converts k v s)

  mutual
    unfolding flatten_and_store store_members store_elements leaves leaves_of leaves_from
        store_leaves

    flatten-leaves :
        (prefix : Text) (jv : Json) (s : LoadedSettings)
        → flatten_and_store converts prefix jv s ≡ store_leaves (leaves prefix jv) s
    flatten-leaves prefix (json_object members) s = members-leaves prefix members s
    flatten-leaves prefix (json_array elements) s = elements-leaves prefix 0 elements s
    flatten-leaves prefix (json_leaf value) s = refl

    members-leaves :
        (prefix : Text) (members : Members) (s : LoadedSettings)
        → store_members converts prefix members s ≡ store_leaves (leaves_of prefix members) s
    members-leaves prefix no_members s = refl
    members-leaves prefix (member key jv members) s =
        ap (store_members converts prefix members) (flatten-leaves (member_key prefix key) jv s)
        ∙ members-leaves prefix members (store_leaves (leaves (member_key prefix key) jv) s)
        ∙ sym (store_leaves-append (leaves (member_key prefix key) jv) (leaves_of prefix members) s)

    elements-leaves :
        (prefix : Text) (i : ℕ) (elements : Elements) (s : LoadedSettings)
        → store_elements converts prefix i elements s
          ≡ store_leaves (leaves_from prefix i elements) s
    elements-leaves prefix i no_elements s = refl
    elements-leaves prefix i (element jv elements) s =
        ap (store_elements converts prefix (i + 1) elements)
          (flatten-leaves (element_key prefix i) jv s)
        ∙ elements-leaves prefix (i + 1) elements
            (store_leaves (leaves (element_key prefix i) jv) s)
        ∙ sym (
            store_leaves-append (leaves (element_key prefix i) jv)
              (leaves_from prefix (i + 1) elements) s)

  -- The field of a key that is known
  field_of : Text → LoadedSettings → Option Text
  field_of k s = get_value k s.fields

  override_setting-field :
      (k j v : Text) (s : LoadedSettings)
      → is_listed k handler_keys ≡ true
      → get_value k (override_setting converts j v s).fields
        ≡ (if bytes_eq j k then replace k (some v) (get_value k s.fields) else get_value k s.fields)
  unfolding override_setting replace
  override_setting-field k j v s h = elim (Bool-cases (bytes_eq j k)) [
    | inl e ↦
        let same = bytes_eq_sound j k e in
        let listed : is_listed j handler_keys ≡ true =
          ap (λ x. is_listed x handler_keys) same ∙ h in
        let conv : converts j v ≡ converts k v = ap (λ x. converts x v) same in
        ground (arith, e, listed, conv, get-set j k v s.fields)
    | inr e ↦ ground (arith, e, get-set j k v s.fields)
  ]

  store_leaves-field :
      (k : Text) (t : Table) (s : LoadedSettings)
      → is_listed k handler_keys ≡ true
      → get_value k (store_leaves t s).fields ≡ latest k t (get_value k s.fields)
  unfolding store_leaves latest
  store_leaves-field k [] s h = refl
  store_leaves-field k ((j, v) ∷ t) s h =
      store_leaves-field k t (override_setting converts j v s) h
      ∙ ap (latest k t) (override_setting-field k j v s h)

  replace_idem : (k : Text) (e old : Option Text) → replace k e (replace k e old) ≡ replace k e old
  unfolding replace
  replace_idem k none old = refl
  replace_idem k (some v) old = ground arith

is_listed-append : (k : Text) (a b : List Text) → is_listed k a ≡ true → is_listed k (a ++ b) ≡ true
unfolding is_listed
is_listed-append k [] b h = absurd (cc h)
is_listed-append k (j ∷ a) b h = elim (Bool-cases (bytes_eq j k)) [
  | inl e ↦ ground (arith, e)
  | inr e ↦ ground (arith, e, h, is_listed-append k a b)
]

-- The settings before anything is loaded
abbrev pub defaults : LoadedSettings
defaults = record { fields = []; dynamic = [] }

pub json_leaves : Option Json → Table
json_leaves none = []
json_leaves (some jv) = leaves [] jv

module _ (converts : Text → Text → Bool) where
  module _ (getenv : Text → Option Text) where
    override_with-field :
        (k j : Text) (e : Option Text) (s : LoadedSettings)
        → is_listed k handler_keys ≡ true
        → get_value k (override_with converts getenv j e s).fields ≡ (
            if bytes_eq j k
            then replace converts k e (get_value k s.fields)
            else get_value k s.fields)
    unfolding override_with replace
    override_with-field k j none s h = ground arith
    override_with-field k j (some v) s h = override_setting-field converts k j v s h

    override_all-field :
        (k : Text) (keys : List Text) (s : LoadedSettings)
        → is_listed k handler_keys ≡ true
        → get_value k (override_all converts getenv keys s).fields ≡ (
            if is_listed k keys
            then replace converts k (get_env converts getenv k) (get_value k s.fields)
            else get_value k s.fields)
    unfolding override_all is_listed
    override_all-field k [] s h = refl
    override_all-field k (j ∷ keys) s h =
        let e = get_env converts getenv j in
        let next = override_with converts getenv j e s in
        let one = override_with-field k j e s h in
        let rest = override_all-field k keys next h in
        elim (Bool-cases (bytes_eq j k)) [
          | inl f ↦
              let same : e ≡ get_env converts getenv k =
                ap (get_env converts getenv) (bytes_eq_sound j k f) in
              ground (
                arith,
                one,
                rest,
                f,
                same,
                replace_idem converts k (get_env converts getenv k) (get_value k s.fields),
              )
          | inr f ↦ ground (arith, one, rest, f)
        ]

    load_json-field :
        (k : Text) (json : Option Json)
        → is_listed k handler_keys ≡ true
        → get_value k (load_json converts getenv json defaults).fields
          ≡ latest converts k (json_leaves json) none
    unfolding load_json json_leaves latest get_value
    load_json-field k none h = refl
    load_json-field k (some jv) h =
        ap (λ s. get_value k s.fields) (flatten-leaves converts [] jv defaults)
        ∙ store_leaves-field converts k (leaves [] jv) defaults h

    -- After loading, a known setting has the value of the environment variable of its key, if there is one that can be
    -- converted to its type; else the last value that the JSON file has for the key and that can be converted; else
    -- its default. So an environment variable that cannot be converted leaves the value of the JSON file, not the
    -- default.
    pub load_lem :
        (k : Text) (json : Option Json)
        → is_listed k handler_keys ≡ true
        → get_value k (load converts getenv json defaults).fields
          ≡ replace converts k
              (get_env converts getenv k)
              (latest converts k (json_leaves json) none)
    unfolding load
    load_lem k json h =
        let stored = load_json converts getenv json defaults in
        let keys = handler_keys ++ keys_of converts getenv stored.dynamic in
        let known = is_listed-append k handler_keys (keys_of converts getenv stored.dynamic) h in
        let all = override_all-field k keys stored h in
        all
        ∙ ap
            (λ b.
              if b
              then replace converts k (get_env converts getenv k) (get_value k stored.fields)
              else get_value k stored.fields)
            known
        ∙ ap (replace converts k (get_env converts getenv k)) (load_json-field k json h)
