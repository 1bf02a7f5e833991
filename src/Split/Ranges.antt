-- ===== src/Split/Ranges.antt =====
-- The copying phase: the references of a sub plan are in range, and no reference of the plan that is
-- in range is read out of range.
use dancex.Prelude.{
  ◌>>=◌, ap, suc, ℕ, ◌+◌, ◌≤◌, ◌<◌, List, [], ◌∷◌, Option, none, some, Bool, true, false, String,
  ◌≡◌, refl, arith, length, get_elem?, get_elem?-lt, All, All-append, All-imp, if◌then◌else◌,
  Bool-cases, Option-cases, inl, inr, is_empty, str_eq, ◌||◌, ◌==◌,
}
use dancex.Split.Plan.{DeploymentPlan, Implementation, Artifact, Endpoint, Connection, PlanLocality}
use dancex.Split.Copying.{
  copy_artifacts, add_endpoint, copy_endpoints, copy_connections, copy_refs, copy_localities,
}

abbrev pub EndpointsBelow : ℕ → Connection → Type 0
EndpointsBelow n c = All (λ e. e.instance_ref < n) c.internal_endpoint

abbrev pub LocalityBelow : ℕ → PlanLocality → Type 0
LocalityBelow n l = All (λ i. i < n) l.constrained_instance_ref

abbrev pub ArtifactsBelow : {Any : Type 0} → ℕ → Implementation Any → Type 0
ArtifactsBelow n m = All (λ a. a < n) m.artifact_ref

-- Every reference of the plan is an index of the list that it goes to.
pub record InRange {Any : Type 0} (plan : DeploymentPlan Any) : Type 0 where
  pub implementations : All (λ i. i.implementation_ref < length plan.implementation) plan.instances
  pub artifacts : All (ArtifactsBelow (length plan.artifact)) plan.implementation
  pub endpoints : All (EndpointsBelow (length plan.instances)) plan.connection
  pub localities : All (LocalityBelow (length plan.instances)) plan.locality_constraint

-- A sub plan of `plan`: it is in range, and has a constraint for each one of the plan.
pub record IsSubPlan {Any : Type 0} (plan sub_plan : DeploymentPlan Any) : Type 0 where
  pub in_range : InRange sub_plan
  pub constraints : length plan.locality_constraint ≤ length sub_plan.locality_constraint

pub below_mono : (m n : ℕ) (xs : List ℕ) → m ≤ n → All (λ i. i < m) xs → All (λ i. i < n) xs
below_mono m n xs h = All-imp xs (λ i lt. omega arith)

-- The new references start at `next` and stay below its sum with the number of copies.
abbrev pub Below : ℕ → Option (List Artifact × List ℕ) → Type 0
Below next none = Unit
Below next (some (copies, seq)) = All (λ a. a < next + length copies) seq

extend-Below :
    (wanted : Bool) (add : Artifact) (next : ℕ) (r : Option (List Artifact × List ℕ))
    → Below (if wanted then next + 1 else next) r
    → Below next
        (do (copies, seq) ← r; some (if wanted then (add ∷ copies, next ∷ seq) else (copies, seq)))
extend-Below wanted add next none h = tt
extend-Below true add next (some (copies, seq)) h =
    (omega arith, below_mono (next + 1 + length copies) _ seq (omega arith) h)
extend-Below false add next (some (copies, seq)) h = h

pub copy_artifacts-Below :
    (artifacts : List Artifact) (node : String) (refs : List ℕ) (next : ℕ)
    → Below next (copy_artifacts artifacts node refs next)
unfolding copy_artifacts
copy_artifacts-Below artifacts node [] next = tt
copy_artifacts-Below artifacts node (ref ∷ refs) next =
    elim (Option-cases (get_elem? artifacts ref)) [
      | inl e ↦ rw (e, copy_artifacts) tt
      | inr (add, e) ↦
          let wanted = is_empty add.node || str_eq node add.node in
          rw (e, copy_artifacts)
            (extend-Below wanted add next _
              (copy_artifacts-Below artifacts node refs (if wanted then next + 1 else next)))
    ]

-- References in range are never missed.
pub copy_artifacts-total :
    (artifacts : List Artifact) (node : String) (refs : List ℕ) (next : ℕ)
    → All (λ a. a < length artifacts) refs
    → (r : List Artifact × List ℕ) × (copy_artifacts artifacts node refs next ≡ some r)
unfolding copy_artifacts
copy_artifacts-total artifacts node [] next h = (([], []), refl)
copy_artifacts-total artifacts node (ref ∷ refs) next h =
    let (add, found) = get_elem?-lt artifacts ref h.0 in
    let wanted = is_empty add.node || str_eq node add.node in
    let ((copies, seq), e) =
      copy_artifacts-total artifacts node refs (if wanted then next + 1 else next) h.1 in
    (
      if wanted then (add ∷ copies, next ∷ seq) else (copies, seq),
      rw (found, e, copy_artifacts, ◌>>=◌),
    )

add_endpoint-below :
    (n : ℕ) (c : Connection) (e : Endpoint) (copies : List Connection)
    → e.instance_ref < n
    → All (EndpointsBelow n) copies
    → All (EndpointsBelow n) (add_endpoint c e copies)
unfolding add_endpoint
add_endpoint-below n c e [] h a = ((h, tt), tt)
add_endpoint-below n c e (d ∷ copies) h a = elim (Bool-cases (str_eq c.name d.name)) [
  | inl q ↦ rw (q, add_endpoint) (All-append _ d.internal_endpoint (e ∷ []) a.0 (h, tt), a.1)
  | inr q ↦ rw (q, add_endpoint) (a.0, add_endpoint-below n c e copies h a.1)
]

copy_endpoints-below :
    (n pos i : ℕ) (c : Connection) (es : List Endpoint) (copies : List Connection)
    → i < n
    → All (EndpointsBelow n) copies
    → All (EndpointsBelow n) (copy_endpoints pos i c es copies)
unfolding copy_endpoints
copy_endpoints-below n pos i c [] copies h a = a
copy_endpoints-below n pos i c (e ∷ es) copies h a = elim (Bool-cases (pos == e.instance_ref)) [
  | inl q ↦
      rw (q, copy_endpoints)
        (copy_endpoints-below n pos i c es _ h
          (add_endpoint-below n c (record e { instance_ref = i }) copies h a))
  | inr q ↦ rw (q, copy_endpoints) (copy_endpoints-below n pos i c es copies h a)
]

pub copy_connections-below :
    (n pos i : ℕ) (cs copies : List Connection)
    → i < n
    → All (EndpointsBelow n) copies
    → All (EndpointsBelow n) (copy_connections pos i cs copies)
unfolding copy_connections
copy_connections-below n pos i [] copies h a = a
copy_connections-below n pos i (c ∷ cs) copies h a =
    copy_connections-below n pos i cs _ h
      (copy_endpoints-below n pos i c c.internal_endpoint copies h a)

copy_refs-below :
    (n pos i : ℕ) (loc : PlanLocality) (refs : List ℕ) (copied : PlanLocality)
    → i < n
    → LocalityBelow n copied
    → LocalityBelow n (copy_refs pos i loc refs copied)
unfolding copy_refs
copy_refs-below n pos i loc [] copied h a = a
copy_refs-below n pos i loc (r ∷ refs) copied h a = elim (Bool-cases (r == pos)) [
  | inl q ↦
      rw (q, copy_refs)
        (copy_refs-below n pos i loc refs _ h
          (All-append _ copied.constrained_instance_ref (i ∷ []) a (h, tt)))
  | inr q ↦ rw (q, copy_refs) (copy_refs-below n pos i loc refs copied h a)
]

-- The constraints of a sub plan that has one for each of the plan are copied, and none is lost.
pub copy_localities-below :
    (n pos i : ℕ) (locs copies : List PlanLocality)
    → i < n
    → length locs ≤ length copies
    → All (LocalityBelow n) copies
    → (r : List PlanLocality) × (copy_localities pos i locs copies ≡ some r)
      × (length r ≡ length copies)
      × All (LocalityBelow n) r
unfolding copy_localities
copy_localities-below n pos i [] copies h le a = (copies, refl, refl, a)
copy_localities-below n pos i (l ∷ locs) [] h le a = absurd (omega arith)
copy_localities-below n pos i (l ∷ locs) (c ∷ copies) h le a =
    let (r, e, same, b) = copy_localities-below n pos i locs copies h (omega arith) a.1 in
    (
      copy_refs pos i l l.constrained_instance_ref c ∷ r,
      rw (e, ◌>>=◌),
      ap suc same,
      (copy_refs-below n pos i l l.constrained_instance_ref c h a.0, b),
    )
