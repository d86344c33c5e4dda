-- ===== src/Graph/Builder/Keys.antt =====
-- The texts that builder.go makes: identifiers of nodes and edges, the API group, and the key by
-- which `BuildGraph` looks for the target of a reference.
use Prim.Native.Char.{code}
use Prim.Native.String.{◌++◌}
use function_kubecore_schema.Base.{String, List, [], ◌∷◌, nat_beq, string_eq, ◌==◌, if◌then◌else◌}
use function_kubecore_schema.Graph.Types.{NodeId, EdgeId, Resource}

-- strings.Split(s, "/"): what stands before the first slash, and the parts behind it.
unfoldable pub split_slash : String → String → List String
split_slash part String.[] = part ∷ []
split_slash part (String.◌∷◌ c s) =
    if nat_beq (code c) b'/'
    then part ∷ split_slash "" s
    else split_slash (part ++ String.◌∷◌ c "") s

-- parts[0] if there are two parts
first_of_two : List String → String
first_of_two (a ∷ b ∷ []) = a
first_of_two _ = ""

unfoldable pub generate_node_id : Resource → NodeId
generate_node_id r = r.api_version ++ "/" ++ r.kind ++ "/" ++ r.namespace ++ "/" ++ r.name

unfoldable pub generate_edge_id : NodeId → NodeId → String → EdgeId
generate_edge_id source target field_path = source ++ "->" ++ target ++ ":" ++ field_path

unfoldable pub extract_api_group : String → String
unfolding split_slash first_of_two
extract_api_group api_version = first_of_two (split_slash "" api_version)

unfoldable pub build_target_resource_key : String → String → String → String
build_target_resource_key kind group namespace =
    (if group == "" then "v1" else group) ++ "/" ++ kind ++ "/" ++ namespace
