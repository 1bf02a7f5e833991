-- ===== src/Domain/Sent.antt =====
-- What the domain sends to the managers of the nodes.
use dancex.Prelude.{ℕ, [], ◌∷◌, Option, some, String, ◌≡◌, refl, All, Option-cases, inl, inr}
use dancex.StringMap.Laws.{Values}
use dancex.Split.Plan.{DeploymentPlan}
use dancex.Split.Interface.{SubPlans}
use dancex.Split.Node.{node_splitter}
use dancex.Split.Copying.{split_plan}
use dancex.Split.Ranges.{InRange}
use dancex.Split.Contents.{HasNode, split_plan-HasNode}
use dancex.Domain.Requests.{Call, Request, Orb}
use dancex.Domain.Requests
use dancex.Domain.Nodes.{plan_requests}

module _ {Any Ref Conn W : Type 0} (orb : Orb (Call Any Ref Conn) Ref Conn W) (embed : String → Any)
    (generate_uuid : String → ℕ → String) (locate_node : String → Option Ref)
    (plan : DeploymentPlan Any) where
  -- The request goes to the manager of its node, with a sub plan that has the node's instances.
  abbrev pub IsForNode : Request (Call Any Ref Conn) Ref → Type 0
  IsForNode request =
      (sub_plan : DeploymentPlan Any) × (request.message ≡ Requests.prepare_plan sub_plan)
      × (locate_node request.node ≡ some request.target)
      × HasNode embed generate_uuid plan (request.node, sub_plan)

  Values-IsForNode :
      (plans : SubPlans (node_splitter {Any = Any}))
      → Values (HasNode embed generate_uuid plan) plans
      → All IsForNode (plan_requests orb locate_node plans).1
  unfolding plan_requests
  Values-IsForNode [] a = tt
  Values-IsForNode ((text, (key, sub_plan)) ∷ plans) a = elim (Option-cases (locate_node key)) [
    | inl e ↦ rw (e, plan_requests) tt
    | inr (nm, e) ↦ rw (e, plan_requests) ((sub_plan, refl, e, a.0), Values-IsForNode plans a.1)
  ]

  -- A plan whose references are in range is split into sub plans, and each request that
  -- preparePlan of a domain application manager makes for them goes to the manager that is found
  -- for its node, with a sub plan that has exactly the plan's instances of that node, in their
  -- order, with their names, nodes and properties, and each with its implementation, of which
  -- only the indices of the artifacts are not compared.
  pub plan_requests-IsForNode :
      InRange plan
      → (plans : SubPlans (node_splitter {Any = Any})) × (split_plan node_splitter embed
            generate_uuid plan ""
          ≡ some plans)
        × All IsForNode (plan_requests orb locate_node plans).1
  plan_requests-IsForNode ok =
      let (plans, e, a) = split_plan-HasNode embed generate_uuid plan "" ok in
      (plans, e, Values-IsForNode plans a)
