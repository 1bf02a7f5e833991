-- ===== src/Split/Node.antt =====
-- tools/split_plan/node_splitter.cpp: a sub plan for each node, the key being the node's name.
use dancex.Prelude.{
  ℕ, String, Bool, true, if◌then◌else◌, str_eq, str_append, is_empty, none, some, get_elem?,
}
use dancex.Split.Plan.{DeploymentPlan}
use dancex.Split.Interface.{Splitter}

-- `plan_.instance ()[i].node ()`, which is undefined where the index is out of range. Here that gives
-- "", and `Split.Guarded` shows that a splitter's answers for such an index are read nowhere.
unfoldable pub node_of : {Any : Type 0} → DeploymentPlan Any → ℕ → String
node_of plan i = elim (get_elem? plan.instances i) [ none ↦ "" | some inst ↦ inst.node ]

-- The label of a sub plan, where it has none yet; `place` is " for Node " or the locality's words.
unfoldable pub derived_label :
    {Any : Type 0} → DeploymentPlan Any → String → String → String → String
derived_label plan label place node =
    if is_empty label
    then str_append "Split plan from "
        (str_append (if is_empty plan.label then plan.uuid else plan.label) (str_append place node))
    else label

module _ {Any : Type 0} (plan : DeploymentPlan Any) (i : ℕ) where
  unfoldable pub match_instance : String → Bool
  unfolding node_of
  match_instance filter = if is_empty filter then true else str_eq filter (node_of plan i)

  unfoldable pub match_sub_plan : String → Bool
  unfolding node_of
  match_sub_plan key = str_eq key (node_of plan i)

  unfoldable pub prepare_sub_plan : DeploymentPlan Any → String → DeploymentPlan Any × String
  unfolding node_of derived_label
  prepare_sub_plan sub_plan key =
      let key' = if str_eq key (node_of plan i) then key else node_of plan i in
      (record sub_plan { label = derived_label plan sub_plan.label " for Node " key' }, key')

unfoldable pub finalize_sub_plan :
    {Any : Type 0} → DeploymentPlan Any → String → DeploymentPlan Any × String
finalize_sub_plan sub_plan key = (sub_plan, key)

abbrev pub node_splitter : {Any : Type 0} → Splitter Any
node_splitter = record {
  Key = String;
  Filter = String;
  empty_key = "";
  key_text = λ key. key;
  match_instance = match_instance;
  match_sub_plan = match_sub_plan;
  prepare_sub_plan = prepare_sub_plan;
  finalize_sub_plan = finalize_sub_plan;
}
