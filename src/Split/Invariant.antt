-- ===== src/Split/Invariant.antt =====
-- A rule for the selection phase, over any splitter: what holds of the key that `prepare_sub_plan`
-- makes of a new key, and is kept on a key that the instance matches, holds of every key; and so
-- for the sub plans.
use mathlib.Core.Option.{some-injective}
use dancex.Prelude.{
  subst, ℕ, zero, suc, ◌+◌, [], ◌∷◌, some, true, String, ◌≡◌, length, Bool-cases, Option-cases, inl,
  inr,
}
use dancex.StringMap.{find, erase}
use dancex.StringMap.Laws.{Values, assign-Values, erase-Values, find-Values}
use dancex.Split.Plan.{DeploymentPlan}
use dancex.Split.Interface.{Splitter, SubPlans, register}
use dancex.Split.Selection.{
  find_matching, additional_sub_plan, select_instance, select_from, select_phase,
}

module _ {Any : Type 0} (s : Splitter Any) (embed : String → Any)
    (generate_uuid : String → ℕ → String) (plan : DeploymentPlan Any) (P : s.Key → Type 0)
    (Q : DeploymentPlan Any → Type 0)
    (starts : (i index : ℕ)
      → let (sub_plan, key) =
          s.prepare_sub_plan plan i
            (additional_sub_plan s embed generate_uuid plan index)
            s.empty_key in
        P key × Q sub_plan)
    (keeps : (i : ℕ) (sub_plan : DeploymentPlan Any) (key : s.Key)
      → s.match_sub_plan plan i key ≡ true
      → P key
      → Q sub_plan
      → let (sub_plan', key') = s.prepare_sub_plan plan i sub_plan key in
        P key' × Q sub_plan') where
  abbrev pub Entries : SubPlans s → Type 0
  Entries = Values (λ e. P e.0 × Q e.1)

  register-Entries :
      (key : s.Key) (sub_plan : DeploymentPlan Any) (plans : SubPlans s)
      → P key
      → Q sub_plan
      → Entries plans
      → Entries (register s key sub_plan plans)
  unfolding register
  register-Entries key sub_plan plans h q a = elim (Option-cases (find (s.key_text key) plans)) [
    | inl e ↦ rw (e, register) (assign-Values _ (s.key_text key) (key, sub_plan) plans (h, q) a)
    | inr ((old, _), e) ↦
        rw (e, register)
          (assign-Values _ (s.key_text key) (old, sub_plan) plans
            ((find-Values (λ x. P x.0 × Q x.1) (s.key_text key) plans a e).0, q) a)
  ]

  find_matching-Entries :
      (i : ℕ) (plans : SubPlans s) {key : s.Key} {sub_plan : DeploymentPlan Any}
      → Entries plans
      → find_matching s embed generate_uuid plan i plans ≡ some (key, sub_plan)
      → P key × Q sub_plan × (s.match_sub_plan plan i key ≡ true)
  unfolding find_matching
  find_matching-Entries i [] a h = cc
  find_matching-Entries i ((t, (k, p)) ∷ plans) {key} {sub_plan} a h =
      elim (Bool-cases (s.match_sub_plan plan i k)) [
        | inl e ↦
            let same = some-injective (k, p) (key, sub_plan) (rw (e, find_matching) at h) in
            subst (λ x. P x.0 × Q x.1 × (s.match_sub_plan plan i x.0 ≡ true)) same (a.0.0, a.0.1, e)
        | inr e ↦ find_matching-Entries i plans a.1 (rw (e, find_matching) at h)
      ]

  select_instance-Entries :
      (filter : s.Filter) (i : ℕ) (plans : SubPlans s)
      → Entries plans
      → Entries (select_instance s embed generate_uuid plan filter i plans)
  unfolding select_instance
  select_instance-Entries filter i plans a = elim (Bool-cases (s.match_instance plan i filter)) [
    | inr e ↦ rw (e, select_instance) a
    | inl e ↦ elim (Option-cases (find_matching s embed generate_uuid plan i plans)) [
      | inl f ↦
          rw (e, f, select_instance)
            (register-Entries _ _ plans (starts i (length plans)).0 (starts i (length plans)).1 a)
      | inr ((key, sub_plan), f) ↦
          let (h, q, m) = find_matching-Entries i plans a f in
          let (h', q') = keeps i sub_plan key m h q in
          rw (e, f, select_instance)
            (register-Entries _ _ (erase (s.key_text key) plans) h' q'
              (erase-Values _ (s.key_text key) plans a))
    ]
  ]

  select_from-Entries :
      (filter : s.Filter) (i n : ℕ) (plans : SubPlans s)
      → Entries plans
      → Entries (select_from s embed generate_uuid plan filter i n plans)
  unfolding select_from
  select_from-Entries filter i zero plans a = a
  select_from-Entries filter i (suc n) plans a =
      select_from-Entries filter (i + 1) n _ (select_instance-Entries filter i plans a)

  pub select_phase-Entries :
      (filter : s.Filter) → Entries (select_phase s embed generate_uuid plan filter)
  unfolding select_phase
  select_phase-Entries filter = select_from-Entries filter 0 (length plan.instances) [] tt
