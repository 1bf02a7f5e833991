-- ===== src/NodeLocator/Tests.antt =====
-- An instance of the theorem about the node locator.
use dancex.Prelude.{ℕ, List, [], ◌∷◌, ◌++◌, Option, none, some, String, ◌≡◌, refl, All, Defined}
use dancex.StringMap.{find}
use dancex.NodeLocator.{
  Node, NodeLocator, ior_of, locate_node, node_port, node_resource_type, process_cdd,
}
use dancex.NodeLocator.Domain.{Stops, latest, located, process_cdd-located}

-- A value of a property is a port.
abbrev no_text : ℕ → Option String
no_text n = none

abbrev port_of : ℕ → Option ℕ
port_of n = some n

abbrev with_port : Node ℕ
with_port = record {
  name = "NodeOne";
  resource =
      record {
        resource_type = node_resource_type ∷ [];
        property = record { name = node_port; value = 60001 } ∷ [];
      }
      ∷ [];
}

abbrev without_port : Node ℕ
without_port = record { name = "NodeTwo"; resource = [] }

abbrev domain : List (Node ℕ)
domain = with_port ∷ without_port ∷ []

abbrev locator : NodeLocator String
locator = record { nodes = []; nc = none }

abbrev reference : String → Option String
reference ior = some ior

abbrev manager : Option String → Option String
manager obj = obj

abbrev read_domain : String → String → Option (List (Node ℕ))
read_domain filename fmt = some domain

-- The reference of a node with a port.
ior_of_port :
    ior_of no_text port_of with_port ≡ some "corbaloc:iiop:NodeOne:60001/NodeOne.NodeManager"
unfolding ior_of
ior_of_port = refl

process_cdd-located_example :
    let (ok, t) = process_cdd no_text port_of read_domain "domain.cdd" "cdd" locator in
    (before : List (Node ℕ)) × (rest : List (Node ℕ)) × (domain ≡ before ++ rest)
    × All (λ node. Defined (ior_of no_text port_of node)) before
    × Stops no_text port_of ok rest
    × ((name : String)
        → locate_node reference manager name t
          ≡ located reference manager name locator
              (latest no_text port_of name before (find name locator.nodes)))
process_cdd-located_example =
    process_cdd-located no_text port_of reference manager read_domain "domain.cdd" "cdd" locator
      domain refl refl
