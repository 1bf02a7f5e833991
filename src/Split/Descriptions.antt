-- ===== src/Split/Descriptions.antt =====
-- What `copy_instance` of `Split_Plan::split_plan` (tools/split_plan/split_plan.cpp) adds to a sub plan:
-- the description of one instance of the plan.
use mathlib.Core.Option.{some-injective}
use mathlib.Core.List.{append_assoc, append-nil}
use dancex.Prelude.{
  ◌>>=◌, ℕ, List, [], ◌∷◌, ◌++◌, Option, none, some, String, ◌≡◌, refl, arith, length,
  length-append, get_elem?, get_elem?-append_end, map, str_eq, if◌then◌else◌, Option-cases, inl,
  inr, ap, sym, ◌∙◌, All, All-imp, All-append, map-append, zero, suc, ◌<◌, subst,
}
use dancex.Split.Plan.{DeploymentPlan, Instance, Implementation, Artifact, PlanLocality}
use dancex.Split.Copying.{added, copy_artifacts, copy_localities, copy_instance, copy_instances}

pub get_elem?-behind :
    {A : Type 0} (before after : List A) (x : A)
    → get_elem? (before ++ x ∷ after) (length before) ≡ some x
get_elem?-behind [] after x = refl
get_elem?-behind (y ∷ before) after x = get_elem?-behind before after x

get_elem?-before :
    {A : Type 0} (before after : List A) (i : ℕ)
    → i < length before
    → get_elem? (before ++ after) i ≡ get_elem? before i
get_elem?-before [] after i lt = absurd (omega arith)
get_elem?-before (y ∷ before) after zero lt = refl
get_elem?-before (y ∷ before) after (suc i) lt = get_elem?-before before after i (omega arith)

module _ {Any : Type 0} where
  -- An instance of a plan without the index of its implementation, and that implementation without
  -- the indices of its artifacts: the indices are others in a sub plan.
  abbrev pub described :
      DeploymentPlan Any → Instance Any → Instance Any × Option (Implementation Any)
  described plan i = (
    record i { implementation_ref = 0 },
    elim (get_elem? plan.implementation i.implementation_ref) [
      | none ↦ none
      | some impl ↦ some (record impl { artifact_ref = [] })
    ],
  )

  -- The instances on a node, in the order of the list, as the plan describes them.
  abbrev pub instances_on :
      DeploymentPlan Any
      → String
      → List (Instance Any)
      → List (Instance Any × Option (Implementation Any))
  instances_on plan node [] = []
  instances_on plan node (i ∷ is) =
      if str_eq node i.node
      then described plan i ∷ instances_on plan node is
      else instances_on plan node is

  abbrev pub described_as :
      DeploymentPlan Any → Option (Instance Any) → Instance Any × Option (Implementation Any)
  described_as plan none =
      (record { name = ""; node = ""; implementation_ref = 0; config_property = [] }, none)
  described_as plan (some i) = described plan i

  -- Every instance of the list has an implementation in the plan.
  abbrev pub Implemented : DeploymentPlan Any → List (Instance Any) → Type 0
  Implemented plan is = All (λ i. i.implementation_ref < length plan.implementation) is

  -- Implementations that are appended change no description.
  described-append :
      (sub_plan p : DeploymentPlan Any) (more : List (Implementation Any))
      (is : List (Instance Any))
      → p.implementation ≡ sub_plan.implementation ++ more
      → Implemented sub_plan is
      → map (described p) is ≡ map (described sub_plan) is
  described-append sub_plan p more [] h a = refl
  described-append sub_plan p more (i ∷ is) h a =
      let same =
        ap (λ l. get_elem? l i.implementation_ref) h
        ∙ get_elem?-before sub_plan.implementation more i.implementation_ref a.0 in
      rw (same, described-append sub_plan p more is h a.1) refl

module _ {Any : Type 0} (plan : DeploymentPlan Any) where
  abbrev pub instance_at : ℕ → Instance Any × Option (Implementation Any)
  instance_at i = described_as plan (get_elem? plan.instances i)

  -- The sub plan describes one instance more than before.
  abbrev Grows : DeploymentPlan Any → DeploymentPlan Any → ℕ → Type 0
  Grows sub_plan p pos =
      (map (described p) p.instances
        ≡ map (described sub_plan) sub_plan.instances ++ instance_at pos ∷ [])
      × Implemented p p.instances

  added-Grows :
      (sub_plan : DeploymentPlan Any) (pos : ℕ) (inst : Instance Any) (impl : Implementation Any)
      (copies : List Artifact) (seq : List ℕ) (localities : List PlanLocality)
      → get_elem? plan.instances pos ≡ some inst
      → get_elem? plan.implementation inst.implementation_ref ≡ some impl
      → Implemented sub_plan sub_plan.instances
      → Grows sub_plan (added plan pos inst impl copies seq localities sub_plan) pos
  unfolding added
  added-Grows sub_plan pos inst impl copies seq localities e f a =
      let impl' : Implementation Any = record impl { artifact_ref = seq } in
      let inst' : Instance Any = record inst {
        implementation_ref = length sub_plan.implementation;
      } in
      let impls = length-append sub_plan.implementation (impl' ∷ []) in
      let p = added plan pos inst impl copies seq localities sub_plan in
      (
        map-append (described p) sub_plan.instances (inst' ∷ [])
            ∙ ap (λ l. l ++ described p inst' ∷ [])
                (described-append sub_plan p (impl' ∷ []) sub_plan.instances refl a)
            ∙ ap (λ d. map (described sub_plan) sub_plan.instances ++ d ∷ [])
                (rw (get_elem?-append_end sub_plan.implementation impl', e, f) refl),
        All-append _ sub_plan.instances (inst' ∷ [])
            (All-imp sub_plan.instances (λ i lt. omega (arith, impls)) a)
            (omega (arith, impls), tt),
      )

  copy_instance-Grows :
      (sub_plan p : DeploymentPlan Any) (pos : ℕ)
      → copy_instance plan sub_plan pos ≡ some p
      → Implemented sub_plan sub_plan.instances
      → Grows sub_plan p pos
  unfolding copy_instance
  copy_instance-Grows sub_plan p pos h a = elim (Option-cases (get_elem? plan.instances pos)) [
    | inl e ↦ ground arith
    | inr (inst, e) ↦ elim (Option-cases (get_elem? plan.implementation inst.implementation_ref)) [
      | inl f ↦ ground arith
      | inr (impl, f) ↦
          elim (Option-cases
            (copy_artifacts plan.artifact inst.node impl.artifact_ref (length sub_plan.artifact))) [
              | inl g ↦ ground arith
              | inr ((copies, seq), g) ↦
                  elim (Option-cases (
                    copy_localities pos (length sub_plan.instances) plan.locality_constraint
                      sub_plan.locality_constraint)) [
                        | inl k ↦ ground arith
                        | inr (localities, k) ↦
                            subst (λ q. Grows sub_plan q pos)
                              (some-injective
                                (added plan pos inst impl copies seq localities sub_plan) p
                                (sym (rw (e, ◌>>=◌) (rw (f, ◌>>=◌) (rw (g, ◌>>=◌) (rw (k, ◌>>=◌)))))
                                  ∙ h))
                              (added-Grows sub_plan pos inst impl copies seq localities e f a)
                      ]
            ]
    ]
  ]

  pub copy_instances-described :
      (poss : List ℕ) (sub_plan p : DeploymentPlan Any)
      → copy_instances plan sub_plan poss ≡ some p
      → Implemented sub_plan sub_plan.instances
      → map (described p) p.instances
        ≡ map (described sub_plan) sub_plan.instances ++ map instance_at poss
  unfolding copy_instances
  copy_instances-described [] sub_plan p h a =
      ap (λ q. map (described q) q.instances) (sym (some-injective sub_plan p h))
      ∙ sym (append-nil _)
  copy_instances-described (pos ∷ poss) sub_plan p h a =
      elim (Option-cases (copy_instance plan sub_plan pos)) [
        | inl e ↦ ground arith
        | inr (q, e) ↦
            let (same, b) = copy_instance-Grows sub_plan q pos e a in
            copy_instances-described poss q p (rw (e, copy_instances, ◌>>=◌) at h) b
            ∙ ap (λ l. l ++ map instance_at poss) same
            ∙ append_assoc (map (described sub_plan) sub_plan.instances) (instance_at pos ∷ [])
                (map instance_at poss)
      ]
