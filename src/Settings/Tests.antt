-- ===== src/Settings/Tests.antt =====
-- The theorem about loading, at a file and an environment that disagree.
use dungeon_crawler.Base.{
  if◌then◌else◌, bytes_eq, is_nil, ◌≡◌, refl, Bool, true, not, Option, none, some,
}
use dungeon_crawler.Ids.{codes}
use dungeon_crawler.Settings.Loading.{
  Text, Json, json_object, json_leaf, no_members, member, get_value, set_value, handler_keys,
  is_listed, member_key, env_char, override_setting, flatten_and_store, get_env, override_with,
  override_all, keys_of, load_json, load,
}
use dungeon_crawler.Settings.Loading.Precedence.{replace, latest, defaults, json_leaves, load_lem}

abbrev port : Text
port = codes "server.port"

-- Numbers that are not empty
abbrev takes : Text → Text → Bool
takes key value = not (is_nil value)

abbrev environment : Text → Option Text
environment name = if bytes_eq name (codes "SERVER_PORT") then some (codes "9000") else none

abbrev file : Json
file = json_object (
    member (codes "server")
      (json_object (member (codes "port") (json_leaf (codes "8080")) no_members)) no_members)

port_listed : is_listed port handler_keys ≡ true
unfolding is_listed
port_listed = refl

load_lem_example :
    get_value port (load takes environment (some file) defaults).fields
    ≡ replace takes port
        (get_env takes environment port)
        (latest takes port (json_leaves (some file)) none)
load_lem_example = load_lem takes environment port (some file) port_listed

port_from_environment :
    get_value port (load takes environment (some file) defaults).fields ≡ some (codes "9000")
unfolding load load_json flatten_and_store override_setting set_value get_value override_all
    override_with get_env keys_of is_listed env_char member_key
port_from_environment = refl
