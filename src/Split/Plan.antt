-- ===== src/Split/Plan.antt =====
-- `Deployment::DeploymentPlan` and its parts. A member that the splitting only copies along with its
-- element (locations, sources, requirements) is left out.
use dancex.Prelude.{ℕ, List, [], String, Bool}
use dancex.Utility.{Properties}

pub record Instance (Any : Type 0) : Type 0 where
  pub name : String
  pub node : String
  pub implementation_ref : ℕ
  pub config_property : Properties Any

pub record Implementation (Any : Type 0) : Type 0 where
  pub name : String
  pub artifact_ref : List ℕ
  pub exec_parameter : Properties Any

pub record Artifact : Type 0 where
  pub name : String
  pub node : String

pub data PortKind : Type 0 where
  facet simplex_receptacle multiplex_receptacle event_emitter event_publisher event_consumer
        extended_port mirror_port :
      PortKind

pub record Endpoint : Type 0 where
  pub port_name : String
  pub kind : PortKind
  pub provider : Bool
  pub instance_ref : ℕ

pub record Connection : Type 0 where
  pub name : String
  pub internal_endpoint : List Endpoint
  pub external_endpoint : List String
  pub external_reference : List String

pub data LocalityKind : Type 0 where
  no_constraint same_process different_process : LocalityKind

pub record PlanLocality : Type 0 where
  pub constraint : LocalityKind
  pub constrained_instance_ref : List ℕ

pub record DeploymentPlan (Any : Type 0) : Type 0 where
  pub label : String
  pub uuid : String
  pub implementation : List (Implementation Any)
  pub instances : List (Instance Any)
  pub connection : List Connection
  pub artifact : List Artifact
  pub info_property : Properties Any
  pub locality_constraint : List PlanLocality

-- A plan as its default constructor leaves it.
abbrev pub empty_plan : {Any : Type 0} → DeploymentPlan Any
empty_plan = record {
  label = "";
  uuid = "";
  implementation = [];
  instances = [];
  connection = [];
  artifact = [];
  info_property = [];
  locality_constraint = [];
}
