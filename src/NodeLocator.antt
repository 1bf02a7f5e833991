-- ===== src/NodeLocator.antt =====
-- dancex11/domain_deployment_handler/dancex11_node_locator.{h,cpp}: `Node_Locator`. The reading of the
-- domain file, the resolving and narrowing of object references, and the naming service are
-- parameters; the calls of the ORB return.
pub mod Domain
pub mod Tests
use text.Mathlib.Text.{starts_with}
use dancex.Prelude.{
  ℕ, zero, suc, ◌/◌, ◌%◌, List, [], ◌∷◌, Option, none, some, Bool, true, false, String, ltb, ◌>>=◌,
  if◌then◌else◌, get_elem?, str_append, is_empty,
}
use dancex.StringMap.{SMap, find, assign, insert}
use dancex.Utility.{Properties, get_property_value, has_type}

-- `Deployment::Resource` and `Deployment::Node`, as far as they are read.
pub record NodeResource (Any : Type 0) : Type 0 where
  pub resource_type : List String
  pub property : Properties Any

pub record Node (Any : Type 0) : Type 0 where
  pub name : String
  pub resource : List (NodeResource Any)

-- The naming context resolves a name to a reference, or throws.
pub record NodeLocator (Obj : Type 0) : Type 0 where
  pub nodes : SMap String
  pub nc : Option (String → Option (Option Obj))

-- dancex11/core/dancex11_properties.idl
abbrev pub node_resource_type : String
node_resource_type = "nl.remedy.it.DnCX11.NodeAddress"

abbrev pub node_ior : String
node_ior = "nl.remedy.it.DnCX11.StringIOR"

abbrev pub node_port : String
node_port = "nl.remedy.it.DnCX11.Node.Port"

abbrev pub node_host : String
node_host = "nl.remedy.it.DnCX11.Node.Host"

abbrev digits : List String
digits = "0" ∷ "1" ∷ "2" ∷ "3" ∷ "4" ∷ "5" ∷ "6" ∷ "7" ∷ "8" ∷ "9" ∷ []

abbrev digit : ℕ → String
digit d = elim (get_elem? digits d) [ none ↦ "" | some t ↦ t ]

-- `os << port`, with as many digits as the fuel at most.
unfoldable decimal : ℕ → ℕ → String
decimal zero n = ""
decimal (suc fuel) n =
    let front = decimal fuel (n / 10) in
    if ltb n 10 then digit n else str_append front (digit (n % 10))

unfoldable find_resource :
    {Any : Type 0} → String → List (NodeResource Any) → Option (NodeResource Any)
unfolding has_type
find_resource type [] = none
find_resource type (resource ∷ resources) =
    if has_type type resource.resource_type then some resource else find_resource type resources

-- A reference that begins with `corbaloc:` is finished with the name of the node.
unfoldable finish_ior : String → String → String
finish_ior name ior =
    if starts_with ior "corbaloc:"
    then str_append (str_append (str_append ior "/") name) ".NodeManager"
    else ior

-- A port is a 16-bit number, of five digits at most.
unfoldable port_ior : String → String → ℕ → String
unfolding decimal
port_ior name host port =
    str_append
      (str_append
        (str_append
          (str_append (str_append (str_append "corbaloc:iiop:" host) ":") (decimal 5 port)) "/")
        name)
      ".NodeManager"

module _ {Any : Type 0} (extract_text : Any → Option String) (extract_port : Any → Option ℕ) where
  -- The reference of a node by the properties of its resource; `none` where they give none.
  unfoldable resource_ior : String → Properties Any → Option String
  unfolding get_property_value finish_ior port_ior
  resource_ior name property =
      let (has_ior, ior) = get_property_value extract_text node_ior property "" in
      let (has_port, port) = get_property_value extract_port node_port property 0 in
      let (has_host, host) = get_property_value extract_text node_host property name in
      if has_ior
      then some (finish_ior name ior)
      else if has_port
      then some (port_ior name host port)
      else none

  unfoldable pub ior_of : Node Any → Option String
  unfolding find_resource resource_ior
  ior_of node = do
    resource ← find_resource node_resource_type node.resource
    resource_ior node.name resource.property

  -- The loop over the nodes of the domain, up to the first without a reference.
  unfoldable pub install_nodes : List (Node Any) → SMap String → Bool × SMap String
  unfolding ior_of assign
  install_nodes [] nodes = (true, nodes)
  install_nodes (node ∷ domain) nodes = elim (ior_of node) [
    | none ↦ (false, nodes)
    | some ior ↦ install_nodes domain (assign node.name ior nodes)
  ]

  -- `read_domain` gives the nodes of the domain of a file in a format.
  unfoldable pub process_cdd :
      {Obj : Type 0}
      → (String → String → Option (List (Node Any)))
      → String
      → String
      → NodeLocator Obj
      → Bool × NodeLocator Obj
  unfolding install_nodes
  process_cdd read_domain filename fmt s =
      if is_empty filename then (false, s) else elim (read_domain filename fmt) [
        | none ↦ (false, s)
        | some domain ↦
            let (ok, nodes) = install_nodes domain s.nodes in (ok, record s { nodes = nodes })
      ]

-- An entry that is there stays.
unfoldable pub store_ior : {Obj : Type 0} → String → String → NodeLocator Obj → NodeLocator Obj
unfolding insert
store_ior name ior s = record s { nodes = insert name ior s.nodes }

module _ {Obj Manager : Type 0} (string_to_object : String → Option Obj)
    (narrow : Option Obj → Option Manager) where
  -- A nil reference is `none`.
  unfoldable pub resolve_ior : String → Option Manager
  resolve_ior ior = narrow (string_to_object ior)

  unfoldable pub ns_lookup : String → NodeLocator Obj → Option Manager
  ns_lookup nodename s = elim s.nc [
    | none ↦ none
    | some resolve ↦ elim (resolve nodename) [ none ↦ none | some obj ↦ narrow obj ]
  ]

  unfoldable pub locate_node : String → NodeLocator Obj → Option Manager
  unfolding find resolve_ior ns_lookup
  locate_node name s = elim (find name s.nodes) [
    | none ↦ ns_lookup name s
    | some ior ↦ resolve_ior ior
  ]

-- The constructor; `narrow_context` gives nothing where it throws.
unfoldable new_node_locator :
    {Obj Context : Type 0}
    → (String → Option Context)
    → (Context → Option (String → Option (Option Obj)))
    → String
    → NodeLocator Obj
new_node_locator string_to_object narrow_context nc = record {
  nodes = [];
  nc = if is_empty nc then none else string_to_object nc >>= narrow_context;
}
