-- ===== src/NodeLocator/Domain.antt =====
-- What the reading of a domain leaves in the map of the node locator.
use dancex.Prelude.{
  ℕ, List, [], ◌∷◌, ◌++◌, Option, none, some, Bool, true, false, String, ◌≡◌, refl, ap, sym, ◌∙◌,
  str_eq, is_empty, if◌then◌else◌, All, Defined, Option-cases, inl, inr,
}
use dancex.StringMap.{SMap, find, assign}
use dancex.StringMap.Laws.{find-assign}
use dancex.NodeLocator.{
  Node, NodeLocator, ior_of, install_nodes, locate_node, ns_lookup, process_cdd, resolve_ior,
}

module _ {Obj Manager : Type 0} (string_to_object : String → Option Obj)
    (narrow : Option Obj → Option Manager) where
  -- The manager of a node by what is stored for it: from its reference, or else by its name.
  abbrev pub located : String → NodeLocator Obj → Option String → Option Manager
  located name s none = ns_lookup string_to_object narrow name s
  located name s (some ior) = resolve_ior string_to_object narrow ior

  locate_node-located :
      (name : String) (s : NodeLocator Obj) (nodes : SMap String)
      → locate_node string_to_object narrow name (record s { nodes = nodes })
        ≡ located name s (find name nodes)
  unfolding locate_node ns_lookup
  locate_node-located name s nodes = elim (Option-cases (find name nodes)) [
    | inl e ↦ rw (e, locate_node) refl
    | inr (ior, e) ↦ rw (e, locate_node) refl
  ]

module _ {Any : Type 0} (extract_text : Any → Option String) (extract_port : Any → Option ℕ) where
  -- The reference of the last of the nodes with a name, or else what was there.
  abbrev pub latest : String → List (Node Any) → Option String → Option String
  latest name [] old = old
  latest name (node ∷ domain) old =
      latest name domain
        (if str_eq node.name name then ior_of extract_text extract_port node else old)

  -- Where the loop ends: behind the last node, or at one without a reference.
  abbrev pub Stops : Bool → List (Node Any) → Type 0
  Stops true rest = rest ≡ []
  Stops false rest =
      (node : Node Any) × (after : List (Node Any)) × (rest ≡ node ∷ after)
      × (ior_of extract_text extract_port node ≡ none)

  abbrev Installs : List (Node Any) → SMap String → Bool × SMap String → Type 0
  Installs domain nodes (ok, left) =
      (before : List (Node Any)) × (rest : List (Node Any)) × (domain ≡ before ++ rest)
      × All (λ node. Defined (ior_of extract_text extract_port node)) before
      × Stops ok rest
      × ((name : String) → find name left ≡ latest name before (find name nodes))

  install_nodes-Installs :
      (domain : List (Node Any)) (nodes : SMap String)
      → Installs domain nodes (install_nodes extract_text extract_port domain nodes)
  unfolding install_nodes
  install_nodes-Installs [] nodes = ([], [], refl, tt, refl, λ name. refl)
  install_nodes-Installs (node ∷ domain) nodes =
      elim (Option-cases (ior_of extract_text extract_port node)) [
        | inl e ↦
            rw (e, install_nodes)
              ([], node ∷ domain, refl, tt, (node, domain, refl, e), λ name. refl)
        | inr (ior, e) ↦
            let (before, rest, split, all, stops, found) =
              install_nodes-Installs domain (assign node.name ior nodes) in
            rw (e, install_nodes)
              (
                node ∷ before,
                rest,
                ap (λ l. node ∷ l) split,
                ((ior, e), all),
                stops,
                λ name.
                    found name
                    ∙ ap (latest name before) (
                        find-assign node.name name ior nodes
                        ∙ ap (λ o. if str_eq node.name name then o else find name nodes) (sym e)),
              )
      ]

  -- For a file name that is not empty and a domain that is read, process_cdd goes through the
  -- nodes up to the first without a reference, all of them exactly where it answers true, and
  -- locate_node afterwards resolves, for each name, the reference of the last of these nodes with
  -- that name, or else the one from before, or else the name in the naming service.
  pub process_cdd-located :
      {Obj Manager : Type 0} (string_to_object : String → Option Obj)
      (narrow : Option Obj → Option Manager)
      (read_domain : String → String → Option (List (Node Any))) (filename fmt : String)
      (s : NodeLocator Obj) (domain : List (Node Any))
      → is_empty filename ≡ false
      → read_domain filename fmt ≡ some domain
      → let (ok, t) = process_cdd extract_text extract_port read_domain filename fmt s in
        (before : List (Node Any)) × (rest : List (Node Any)) × (domain ≡ before ++ rest)
        × All (λ node. Defined (ior_of extract_text extract_port node)) before
        × Stops ok rest
        × ((name : String)
            → locate_node string_to_object narrow name t
              ≡ located string_to_object narrow name s (latest name before (find name s.nodes)))
  unfolding process_cdd
  process_cdd-located string_to_object narrow read_domain filename fmt s domain e r =
      let (before, rest, split, all, stops, found) = install_nodes-Installs domain s.nodes in
      rw (e, r, process_cdd)
        (
          before,
          rest,
          split,
          all,
          stops,
          λ name.
              locate_node-located string_to_object narrow name s
                (install_nodes extract_text extract_port domain s.nodes).1
              ∙ ap (located string_to_object narrow name s) (found name),
        )
