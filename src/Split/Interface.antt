-- ===== src/Split/Interface.antt =====
-- What `Split_Plan` asks of its splitter: the key of a sub plan, the filter, and the four operations.
-- A key stands in the map by the text that its `operator <` compares.
use dancex.Prelude.{ℕ, String, Bool, none, some}
use dancex.StringMap.{SMap, find, assign}
use dancex.Split.Plan.{DeploymentPlan}

pub record Splitter (Any : Type 0) : Type 1 where
  pub Key : Type 0
  pub Filter : Type 0
  pub empty_key : Key
  pub key_text : Key → String
  pub match_instance : DeploymentPlan Any → ℕ → Filter → Bool
  pub match_sub_plan : DeploymentPlan Any → ℕ → Key → Bool
  pub prepare_sub_plan :
      DeploymentPlan Any → ℕ → DeploymentPlan Any → Key → DeploymentPlan Any × Key
  pub finalize_sub_plan : DeploymentPlan Any → Key → DeploymentPlan Any × Key

module _ {Any : Type 0} (s : Splitter Any) where
  open s use {Key, key_text}

  -- `std::map<KEY, DeploymentPlan>`
  abbrev pub SubPlans : Type 0
  SubPlans = SMap (Key × DeploymentPlan Any)

  -- `sub_plans_[key] = sub_plan`: an equivalent key that is there stays the key.
  unfoldable pub register : Key → DeploymentPlan Any → SubPlans → SubPlans
  register key sub_plan plans = elim (find (key_text key) plans) [
    | none ↦ assign (key_text key) (key, sub_plan) plans
    | some (old, _) ↦ assign (key_text key) (old, sub_plan) plans
  ]
