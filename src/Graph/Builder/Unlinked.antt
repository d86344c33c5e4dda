-- ===== src/Graph/Builder/Unlinked.antt =====
-- The key by which `BuildGraph` looks for a target has three parts, and an identifier of a node has
-- four (builder.go, `buildTargetResourceKey` and `generateNodeID`).
use Prim.Native.Char.{code}
use Prim.Native.String.{◌++◌ as ◌+++◌}
use text.Mathlib.TextLemmas.{nil-append, cons-append}
use function_kubecore_schema.Base.{
  ℕ, ◌+◌, ◌≤◌, ◌≡◌, refl, sym, ◌∙◌, subst, String, Bool, Option, none, some, List, [], ◌∷◌, arith,
  inl, inr, Bool-cases, nat_beq, if◌then◌else◌, string_eq, ◌==◌, Option-cases, ℤ, pos, All, Entries,
  Dict, lookup, Entries-lookup, Entries-insert,
}
use function_kubecore_schema.Graph.Types.{
  NodeId, Resource, NodeMetadata, ResourceNode, ResourceGraph,
}
use function_kubecore_schema.Graph.Builder.Keys.{generate_node_id, build_target_resource_key}
use function_kubecore_schema.Graph.Builder.Defs.{
  ReferenceField, new_graph, shorten, fresh_node, enter_node, add_node, update_metadata,
}
use function_kubecore_schema.Graph.Builder.Build.{
  add_root, add_roots, add_reference, add_references, add_entry, add_entries, build_graph,
  record_skipped, ◌>>=◌,
}
use function_kubecore_schema.Graph.Builder.Built.{build_graph-valid}

abbrev pub slashes : String → ℕ
slashes String.[] = 0
slashes (String.◌∷◌ c s) = (if nat_beq (code c) b'/' then 1 else 0) + slashes s

slashes-append : (s t : String) → slashes (s +++ t) ≡ slashes s + slashes t
slashes-append String.[] t = rw nil-append (omega arith)
slashes-append (String.◌∷◌ c s) t = rw cons-append (omega (arith, slashes-append s t))

slashes-node_id : (r : Resource) → 3 ≤ slashes (generate_node_id r)
unfolding generate_node_id
slashes-node_id r = simp slashes-append (omega arith)

-- The hypothesis of Kubernetes names: kinds, groups and namespaces have no slash.
abbrev pub PlainField : ReferenceField → Type 0
PlainField f = (slashes f.target_kind ≡ 0) × (slashes f.target_group ≡ 0)

abbrev pub PlainFields : String → List ReferenceField → Type 0
PlainFields key fs = All PlainField fs

slashes-key :
    (kind group namespace : String)
    → slashes kind ≡ 0
    → slashes group ≡ 0
    → slashes namespace ≡ 0
    → slashes (build_target_resource_key kind group namespace) ≡ 2
unfolding build_target_resource_key
slashes-key kind group namespace k g n =
    let v : slashes (if group == "" then "v1" else group) ≡ 0 = elim (Bool-cases (group == "")) [
      | inl e ↦ rw e
      | inr e ↦ rw e g
    ] in
    simp slashes-append (omega (arith, v))

-- Identifiers have three slashes or more, and the namespace of a node has none.
abbrev NodeApart : NodeId → ResourceNode → Type 0
NodeApart id n =
    (3 ≤ slashes id) × ((m : NodeMetadata) → n.metadata ≡ some m → slashes m.namespace ≡ 0)

record Apart (g : ResourceGraph) : Type 0 where
  nodes_apart : Entries NodeApart g.nodes
  no_edges : g.edges ≡ []

shorten-metadata :
    (n : ResourceNode) (d : ℤ) (path : List NodeId) → (shorten n d path).metadata ≡ n.metadata
unfolding shorten
shorten-metadata n d path = ground arith

add_root-Apart :
    (is_platform : Resource → Bool) (g : ResourceGraph) (r : Resource)
    → slashes r.namespace ≡ 0
    → Apart g
    → Apart (add_root is_platform g r)
unfolding add_root add_node enter_node
add_root-Apart is_platform g r plain a =
    let id = generate_node_id r in
    elim (Option-cases (lookup id g.nodes)) [
      | inl absent ↦
          rw (absent, add_node)
            (record {
              nodes_apart =
                  unfold fresh_node in
                  Entries-insert NodeApart id _ g.nodes (slashes-node_id r, λ m e. ground arith)
                    a.nodes_apart;
              no_edges = a.no_edges;
            })
      | inr (old, found) ↦
          rw (found, add_node)
            (record {
              nodes_apart =
                  let before = Entries-lookup NodeApart id g.nodes old a.nodes_apart found in
                  Entries-insert NodeApart id _ g.nodes
                    (before.0, λ m e. before.1 m (sym (shorten-metadata old (pos 0) []) ∙ e))
                    a.nodes_apart;
              no_edges = a.no_edges;
            })
    ]

add_roots-Apart :
    (is_platform : Resource → Bool) (g : ResourceGraph) (rs : List Resource)
    → All (λ r. slashes r.namespace ≡ 0) rs
    → Apart g
    → Apart (add_roots is_platform g rs)
unfolding add_roots
add_roots-Apart is_platform g [] h a = a
add_roots-Apart is_platform g (r ∷ rs) h a =
    add_roots-Apart is_platform (add_root is_platform g r) rs h.1
      (add_root-Apart is_platform g r h.0 a)

-- The property of the graph that a call returns, if it returns one.
abbrev Holds : (ResourceGraph → Type 0) → Option ResourceGraph → Type 0
Holds P none = Unit
Holds P (some g) = P g

Holds-bind :
    (P Q : ResourceGraph → Type 0) (m : Option ResourceGraph)
    (f : ResourceGraph → Option ResourceGraph)
    → Holds P m
    → ((g : ResourceGraph) → P g → Holds Q (f g))
    → Holds Q (m >>= f)
Holds-bind P Q none f h k = tt
Holds-bind P Q (some g) f h k = k g h

update_metadata-Apart :
    (source : NodeId) (f : ReferenceField) (nodes : Dict NodeId ResourceNode)
    → Entries NodeApart nodes
    → Entries NodeApart (update_metadata source (record_skipped f) nodes)
unfolding update_metadata
update_metadata-Apart source f nodes h = elim (Option-cases (lookup source nodes)) [
  | inl absent ↦ rw (absent, update_metadata) h
  | inr (node, found) ↦ elim (Option-cases node.metadata) [
    | inl bare ↦ rw (found, update_metadata) (rw (bare, update_metadata) h)
    | inr (m, e) ↦
        let before = Entries-lookup NodeApart source nodes node h found in
        rw (found, update_metadata)
          (rw (e, update_metadata)
            (Entries-insert NodeApart source _ nodes
              (before.0, λ m' q. ground (arith, before.1 m e)) h))
  ]
]

add_reference-Apart :
    (g : ResourceGraph) (source : NodeId) (namespace : String) (f : ReferenceField)
    → slashes namespace ≡ 0
    → PlainField f
    → Apart g
    → Holds Apart (add_reference g source namespace f)
unfolding add_reference
add_reference-Apart g source namespace f n p a =
    let target = build_target_resource_key f.target_kind f.target_group namespace in
    elim (Option-cases (lookup target g.nodes)) [
      | inl absent ↦
          rw (absent, add_reference)
            (record {
              nodes_apart = update_metadata-Apart source f g.nodes a.nodes_apart;
              no_edges = a.no_edges;
            })
      | inr (node, found) ↦ absurd (
          omega (
            arith,
            (Entries-lookup NodeApart target g.nodes node a.nodes_apart found).0,
            slashes-key f.target_kind f.target_group namespace p.0 p.1 n,
          ))
    ]

add_references-Apart :
    (g : ResourceGraph) (source : NodeId) (namespace : String) (fs : List ReferenceField)
    → slashes namespace ≡ 0
    → All PlainField fs
    → Apart g
    → Holds Apart (add_references g source namespace fs)
unfolding add_references
add_references-Apart g source namespace [] n p a = a
add_references-Apart g source namespace (f ∷ fs) n p a =
    Holds-bind Apart Apart (add_reference g source namespace f) _
      (add_reference-Apart g source namespace f n p.0 a)
      (λ g' a'. add_references-Apart g' source namespace fs n p.1 a')

add_entry-Apart :
    (g : ResourceGraph) (source : NodeId) (fs : List ReferenceField)
    → All PlainField fs
    → Apart g
    → Holds Apart (add_entry g source fs)
unfolding add_entry
add_entry-Apart g source [] p a = elim (Option-cases (lookup source g.nodes)) [
  | inl absent ↦ rw (absent, add_entry) a
  | inr (node, found) ↦ rw (found, add_entry) a
]
add_entry-Apart g source (f ∷ fs) p a = elim (Option-cases (lookup source g.nodes)) [
  | inl absent ↦ rw (absent, add_entry) a
  | inr (node, found) ↦ elim (Option-cases node.metadata) [
    | inl bare ↦ rw (found, add_entry) (rw (bare, ◌>>=◌) tt)
    | inr (m, e) ↦
        let plain = (Entries-lookup NodeApart source g.nodes node a.nodes_apart found).1 m e in
        rw (found, add_entry)
          (rw (e, ◌>>=◌) (add_references-Apart g source m.namespace (f ∷ fs) plain p a))
  ]
]

add_entries-Apart :
    (g : ResourceGraph) (references : Dict String (List ReferenceField))
    → Entries PlainFields references
    → Apart g
    → Holds Apart (add_entries g references)
unfolding add_entries
add_entries-Apart g [] p a = a
add_entries-Apart g ((key, fields) ∷ rest) p a =
    Holds-bind Apart Apart (add_entry g key fields) _ (add_entry-Apart g key fields p.0 a)
      (λ g' a'. add_entries-Apart g' rest p.1 a')

Holds-some :
    (P : ResourceGraph → Type 0) (m : Option ResourceGraph) (g : ResourceGraph)
    → m ≡ some g
    → Holds P m
    → P g
Holds-some P none g e h = cc
Holds-some P (some x) g e h = let q : x ≡ g = ground arith in subst P q h

-- Where no namespace, target kind or target group has a slash in it, `BuildGraph` links nothing:
-- it returns a graph with no edge, whatever the reference fields are.
pub build_graph-edges_empty :
    (is_platform : Resource → Bool) (roots : List Resource)
    (references : Dict String (List ReferenceField))
    → All (λ r. slashes r.namespace ≡ 0) roots
    → Entries PlainFields references
    → (g : ResourceGraph) × (build_graph is_platform roots references ≡ some g) × (g.edges ≡ [])
unfolding build_graph new_graph
build_graph-edges_empty is_platform roots references r f =
    let (g, e, _) = build_graph-valid is_platform roots references in
    let a = Holds-some Apart _ g e (
      add_entries-Apart _ references f (
        add_roots-Apart is_platform new_graph roots r
          (record { nodes_apart = tt; no_edges = refl }))) in
    (g, e, a.no_edges)
