-- ===== src/Settings/Loading.antt =====
-- src/common/utility/config.cpp: what the settings are after loading. A text is the list of its codes. A field
-- of `Settings` is the text that was converted to it last, or none for its default. Three things are
-- parameters: `converts`, whether boost::lexical_cast takes a text for the type of a key's field; `getenv`; and the JSON
-- value, which boost::json has parsed.
pub mod Precedence
use dungeon_crawler.Base.{
  ltb, leb, ◌==◌, if◌then◌else◌, bytes_eq, is_nil, keys, ℕ, zero, suc, ◌+◌, ◌-◌, ◌/◌, ◌%◌, Bool,
  false, not, ◌&&◌, ◌||◌, Option, none, some, List, [], ◌∷◌, ◌++◌, map,
}
use dungeon_crawler.Ids.{codes}

abbrev pub Text : Type 0
Text = List ℕ

-- A `boost::json::value`: a leaf is the text that the code makes of it.
mutual
  pub data Json : Type 0 where
    json_object : Members → Json
    json_array : Elements → Json
    json_leaf : Text → Json

  pub data Members : Type 0 where
    no_members : Members
    member : Text → Json → Members → Members

  pub data Elements : Type 0 where
    no_elements : Elements
    element : Json → Elements → Elements

abbrev pub Table : Type 0
Table = List (Text × Text)

unfoldable pub get_value : Text → Table → Option Text
get_value k [] = none
get_value k ((j, v) ∷ t) = let rest = get_value k t in if bytes_eq j k then some v else rest

unfoldable pub set_value : Text → Text → Table → Table
set_value k v [] = (k, v) ∷ []
set_value k v ((j, w) ∷ t) =
    let rest = set_value k v t in if bytes_eq j k then (k, v) ∷ t else (j, w) ∷ rest

-- The fields and `dynamic_`
pub record LoadedSettings : Type 0 where
  pub fields : Table
  pub dynamic : Table

-- The keys of `kHandlers`
abbrev pub handler_keys : List Text
handler_keys =
    codes "server.host"
    ∷ codes "server.port"
    ∷ codes "server.max_players"
    ∷ codes "server.tick_rate_ms"
    ∷ codes "server.client_disconnect_timeout_sec"
    ∷ codes "database.connection_string"
    ∷ codes "database.pool_size"
    ∷ codes "gameplay.lobby_max_players"
    ∷ codes "gameplay.map_name"
    ∷ codes "gameplay.match_duration_sec"
    ∷ codes "gameplay.player_default_hp"
    ∷ codes "gameplay.monster_default_hp"
    ∷ codes "gameplay.monsters_per_player"
    ∷ codes "gameplay.default_radius_attack"
    ∷ codes "gameplay.default_radius_view"
    ∷ codes "gameplay.player_default_attack"
    ∷ codes "gameplay.monster_default_attack"
    ∷ codes "gameplay.default_map_blc_x"
    ∷ codes "gameplay.default_map_blc_y"
    ∷ codes "gameplay.default_map_trc_x"
    ∷ codes "gameplay.default_map_trc_y"
    ∷ codes "logger.level"
    ∷ codes "logger.output_dir"
    ∷ codes "logger.format"
    ∷ []

unfoldable pub is_listed : Text → List Text → Bool
is_listed k [] = false
is_listed k (j ∷ keys) = bytes_eq j k || is_listed k keys

-- `std::to_string` of an index
unfoldable pub decimal : ℕ → ℕ → Text
decimal zero n = []
decimal (suc fuel) n =
    let more = decimal fuel (n / 10) in
    if ltb n 10 then (b'0' + n) ∷ [] else more ++ ((b'0' + n % 10) ∷ [])

-- The key of a member and of an element
unfoldable pub member_key : Text → Text → Text
member_key prefix key = if is_nil prefix then key else prefix ++ (b'.' ∷ key)

unfoldable pub element_key : Text → ℕ → Text
element_key prefix i = prefix ++ (b'.' ∷ decimal (suc i) i)

-- The name of a key in the environment
unfoldable pub env_char : ℕ → ℕ
env_char c = if c == b'.' then b'_' else if leb b'a' c && leb c b'z' then c - 32 else c

module _ (converts : Text → Text → Bool) where
  -- `overrideSetting`, and the leaves of `flattenAndStore`
  unfoldable pub override_setting : Text → Text → LoadedSettings → LoadedSettings
  override_setting key value s =
      if not (is_listed key handler_keys)
      then record s { dynamic = set_value key value s.dynamic }
      else if converts key value
      then record s { fields = set_value key value s.fields }
      else s

  unfoldable mutual
    pub flatten_and_store : Text → Json → LoadedSettings → LoadedSettings
    flatten_and_store prefix (json_object members) s = store_members prefix members s
    flatten_and_store prefix (json_array elements) s = store_elements prefix 0 elements s
    flatten_and_store prefix (json_leaf value) s = override_setting prefix value s

    pub store_members : Text → Members → LoadedSettings → LoadedSettings
    store_members prefix no_members s = s
    store_members prefix (member key jv members) s =
        store_members prefix members (flatten_and_store (member_key prefix key) jv s)

    pub store_elements : Text → ℕ → Elements → LoadedSettings → LoadedSettings
    store_elements prefix i no_elements s = s
    store_elements prefix i (element jv elements) s =
        store_elements prefix (i + 1) elements (flatten_and_store (element_key prefix i) jv s)

  module _ (getenv : Text → Option Text) where
    unfoldable pub get_env : Text → Option Text
    get_env key = getenv (map env_char key)

    unfoldable pub override_with : Text → Option Text → LoadedSettings → LoadedSettings
    override_with key none s = s
    override_with key (some value) s = override_setting key value s

    unfoldable pub override_all : List Text → LoadedSettings → LoadedSettings
    override_all [] s = s
    override_all (key ∷ keys) s = override_all keys (override_with key (get_env key) s)

    unfoldable pub keys_of : Table → List Text
    keys_of [] = []
    keys_of ((k, v) ∷ t) = k ∷ keys_of t

    -- `load`, the first time: with the JSON value of the file, if there is one
    unfoldable pub load_json : Option Json → LoadedSettings → LoadedSettings
    load_json none s = s
    load_json (some jv) s = flatten_and_store [] jv (record s { dynamic = [] })

    unfoldable pub load : Option Json → LoadedSettings → LoadedSettings
    load json s =
        let stored = load_json json s in
        override_all (handler_keys ++ keys_of stored.dynamic) stored
