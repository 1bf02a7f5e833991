-- ===== src/Domain/Samples.antt =====
-- An ORB whose references are numbers, applications and managers, for the tests.
use mathlib.Core.List.{Perm}
use mathlib.Core.List.Perm
use dancex.Prelude.{
  ℕ, ◌+◌, ◌==◌, ==_iff, [], ◌∷◌, Option, none, some, true, false, String, ◌≡◌, refl, sym, subst,
  map, map-map, map-id, if◌then◌else◌, arith, str_eq,
}
use dancex.NodeLocator.{NodeLocator}
use dancex.Utility.Exceptions.{stop_error}
use dancex.Split.Plan.{DeploymentPlan, empty_plan}
use dancex.Domain.Requests.{Fault, user, system, Call, Request, Answer, answered, raised, Orb}
use dancex.Domain.Completes.{Replies}
use dancex.Domain.Replies.{DomainApplication}
use dancex.Domain.Application.{new_domain_application}
use dancex.Domain.Nodes.{DomainApplicationManager, new_domain_application_manager}
use dancex.Domain.Execution.{Managed, ExecutionManager}

abbrev pub Message : Type 0
Message = Call ℕ ℕ ℕ

abbrev pub printed : Fault → String
printed ex = "ex"

-- The target 7 answers with an exception, the others with a reference.
abbrev pub answer : Request Message ℕ → Answer ℕ ℕ
answer request =
    if request.target == 7
    then raised (user stop_error (record { name = "node"; reason = "busy" }))
    else answered (request.target + 100) (request.target ∷ [])

-- A request to 9 is refused.
abbrev pub orb : Orb Message ℕ ℕ ℕ
orb = record {
  send = λ message target w. (if target == 9 then some (system "down") else none, w + 1);
  perform_work = λ pending w. (map (λ request. (request, answer request)) pending, w);
  print = printed;
  is_equivalent = λ a b. a == b;
  nil = 0;
  is_nil = λ a. a == 0;
}

pub orb-Replies : Replies orb
orb-Replies pending w =
    subst (λ l. Perm l pending)
      (sym (map-map (λ request. (request, answer request)) (λ a. a.0) pending))
      (subst (λ l. Perm l pending) (sym (map-id pending)) (Perm.refl pending))

pub is_equivalent_refl : (a : ℕ) → orb.is_equivalent a a ≡ true
is_equivalent_refl a = (==_iff a a).1 refl

-- New references are 1000 and above.
abbrev pub activate : ℕ → ℕ × ℕ
activate w = (1000 + w, w + 1)

pub activate-new : (w : ℕ) → orb.is_equivalent (activate w).0 50 ≡ false
activate-new w = ground arith

pub new-activate : (w : ℕ) → orb.is_equivalent 60 (activate w).0 ≡ false
new-activate w = ground arith

-- Two applications, of which the second has a manager that fails.
abbrev pub application : DomainApplication ℕ
application = record {
  plan_uuid = "u";
  node_applications = (9, 4) ∷ (6, 7) ∷ (3, 5) ∷ [];
  app_node_ids = (9, "c") ∷ (6, "a") ∷ (3, "b") ∷ [];
  nams = (4, 1) ∷ (7, 2) ∷ [];
  node_ids = (1, "a") ∷ (2, "b") ∷ [];
}

abbrev pub plan : DeploymentPlan ℕ
plan = record empty_plan {
  uuid = "u";
  implementation = record { name = "impl"; artifact_ref = []; exec_parameter = [] } ∷ [];
  instances =
      record { name = "sender"; node = "a"; implementation_ref = 0; config_property = [] }
      ∷ record { name = "receiver"; node = "b"; implementation_ref = 0; config_property = [] }
      ∷ [];
}

abbrev pub embed : String → ℕ
embed s = 0

abbrev pub numbered : String → ℕ → String
numbered uuid n = "next"

abbrev pub locate : String → Option ℕ
locate node = if str_eq node "a" then some 1 else some 7

-- The manager 7 of its only application fails.
abbrev pub failing : DomainApplication ℕ
failing = record (new_domain_application "u" [] []) { node_applications = (6, 7) ∷ [] }

abbrev pub idle_application : DomainApplication ℕ
idle_application = new_domain_application "u" [] []

abbrev pub launched_manager : DomainApplicationManager ℕ ℕ
launched_manager = record {
  plan = plan;
  sub_app_mgr = (61, 7) ∷ (62, 1) ∷ [];
  node_ids = (7, "b") ∷ (1, "a") ∷ [];
  running_app = (some 40, idle_application) ∷ (some 50, failing) ∷ (some 51, application) ∷ [];
}

abbrev pub locator : NodeLocator ℕ
locator = record { nodes = []; nc = none }

abbrev pub resolved : Option ℕ → Option ℕ
resolved o = o

abbrev pub object_of : String → Option ℕ
object_of text = some 1

abbrev pub other : String × Managed ℕ ℕ
other = ("t", (some 59, new_domain_application_manager plan))

abbrev pub unused : DomainApplicationManager ℕ ℕ
unused = new_domain_application_manager plan

abbrev pub prepared_manager : DomainApplicationManager ℕ ℕ
prepared_manager = record launched_manager { running_app = [] }

abbrev pub located : String → Option ℕ
located node = if str_eq node "a" then some 1 else some 2

abbrev pub preparing : DomainApplicationManager ℕ ℕ
preparing = record (new_domain_application_manager plan) {
  sub_app_mgr = (101, 1) ∷ (102, 2) ∷ [];
  node_ids = (1, "a") ∷ (2, "b") ∷ [];
}

-- Both nodes have a reference.
abbrev pub execution_manager : ExecutionManager ℕ ℕ ℕ
execution_manager = record {
  managers = [];
  locator = record { nodes = ("a", "first") ∷ ("b", "second") ∷ []; nc = none };
}
