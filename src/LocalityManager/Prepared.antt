-- ===== src/LocalityManager/Prepared.antt =====
-- What `preparePlan` makes of `instance_handlers_`.
use dancex.Prelude.{
  ℕ, suc, ◌+◌, ◌^◌, ◌<◌, ◌≤◌, List, [], ◌∷◌, ◌++◌, Option, none, some, Bool, false, String, str_eq,
  str_eq_iff, length, if◌then◌else◌, ◌≡◌, refl, sym, arith, Option-cases, inl, inr, All, positions,
}
use mathlib.Core.List.{append_assoc, append-nil}
use dancex.StringMap.{SMap, find, assign, insert}
use dancex.StringMap.Laws.{find-assign, find-insert}
use dancex.Split.Plan.{DeploymentPlan, Instance}
use dancex.Plugins.{PluginManager, Interceptor}
use dancex.LocalityManager.{
  LocalityManager, done, subscript, implementation_type, fill_handlers, preprocess_all,
  prepare_plan,
}

-- The instances that are listed under a type.
abbrev pub listed : String → SMap (List ℕ) → List ℕ
listed type handlers = (subscript type handlers).0

listed-find :
    (type : String) (handlers : SMap (List ℕ))
    → listed type handlers ≡ elim (find type handlers) [ none ↦ [] | some list ↦ list ]
unfolding subscript
listed-find type handlers = ground arith

pub listed-assign :
    (t u : String) (list : List ℕ) (handlers : SMap (List ℕ))
    → listed t (assign u list handlers) ≡ (if str_eq u t then list else listed t handlers)
listed-assign t u list handlers = ground (
  arith,
  listed-find t (assign u list handlers),
  listed-find t handlers,
  find-assign u t list handlers,
)

listed-insert :
    (t u : String) (handlers : SMap (List ℕ)) → listed t (insert u [] handlers) ≡ listed t handlers
listed-insert t u handlers = ground (
  arith,
  listed-find t (insert u [] handlers),
  listed-find t handlers,
  find-insert u t [] handlers,
)

-- Making an empty list under a type does not change what is listed.
pub listed-subscript :
    (t u : String) (handlers : SMap (List ℕ))
    → listed t (subscript u handlers).1 ≡ listed t handlers
unfolding subscript
listed-subscript t u handlers = elim (Option-cases (find u handlers)) [
  | inr (list, e) ↦ rw (e, subscript) refl
  | inl e ↦ ground (arith, listed-assign t u [] handlers, listed-find t handlers, str_eq_iff u t)
]

module _ {Any : Type 0} (extract : Any → Option String) where
  unfoldable pub is_of_type : DeploymentPlan Any → String → Instance Any → Bool
  is_of_type plan type instance_ = elim (implementation_type extract plan instance_) [
    | none ↦ false
    | some inst_type ↦ str_eq inst_type type
  ]

  -- Every instance refers to an implementation of the plan.
  abbrev pub IsTyped : DeploymentPlan Any → List (Instance Any) → Type 0
  IsTyped plan =
      All (λ instance_. (t : String) × (implementation_type extract plan instance_ ≡ some t))

module _ {Any : Type 0} (extract : Any → Option String) (truncate_cast : ℕ → ℕ)
    (truncate_cast-small : (n : ℕ) → n < 2 ^ 32 → truncate_cast n ≡ n) where
  pub fill_handlers-listed :
      (plan : DeploymentPlan Any) (i : ℕ) (instances : List (Instance Any))
      (handlers : SMap (List ℕ))
      → IsTyped extract plan instances
      → i + length instances ≤ 2 ^ 32
      → (final : SMap (List ℕ)) × (fill_handlers extract truncate_cast plan i instances handlers
          ≡ some final)
        × ((t : String)
            → listed t final
              ≡ listed t handlers ++ positions (is_of_type extract plan t) i instances)
  unfolding fill_handlers is_of_type
  fill_handlers-listed plan i [] handlers h small =
      (handlers, refl, λ t. sym (append-nil (listed t handlers)))
  fill_handlers-listed plan i (instance_ ∷ instances) handlers ((u, e), h) small =
      let before = insert u [] handlers in
      let next = assign u (listed u before ++ truncate_cast i ∷ []) (subscript u before).1 in
      let (final, f, same) = fill_handlers-listed plan (suc i) instances next h (omega arith) in
      (
        final,
        rw (e, fill_handlers) f,
        λ t. ground (
          arith,
          same t,
          truncate_cast-small i (omega arith),
          listed-assign t u (listed u before ++ truncate_cast i ∷ []) (subscript u before).1,
          listed-subscript t u before,
          listed-insert t u handlers,
          str_eq_iff u t,
          append_assoc (listed t handlers) (i ∷ [])
              (positions (is_of_type extract plan t) (suc i) instances),
        ),
      )

  -- For a plan of at most 2 ^ 32 instances, each with an implementation of the plan after the
  -- interceptors have changed it, preparePlan returns, keeps that plan, and appends under each
  -- type the indices of the instances of that type, in the order of the plan, to those from
  -- before.
  pub prepare_plan-listed :
      (preprocess : Interceptor Any → DeploymentPlan Any → DeploymentPlan Any)
      (plugins : PluginManager Any) (plan : DeploymentPlan Any) (m : LocalityManager Any)
      → let prepared = preprocess_all preprocess plugins.interceptors plan in
        IsTyped extract prepared prepared.instances
        → length prepared.instances ≤ 2 ^ 32
        → let (result, n) = prepare_plan extract truncate_cast preprocess plugins plan m in
          (result ≡ done tt)
          × (n.plan ≡ prepared)
          × ((t : String)
              → listed t n.instance_handlers
                ≡ listed t m.instance_handlers
                  ++ positions (is_of_type extract prepared t) 0 prepared.instances)
  unfolding prepare_plan
  prepare_plan-listed preprocess plugins plan m h small =
      let prepared = preprocess_all preprocess plugins.interceptors plan in
      let (final, e, same) =
        fill_handlers-listed prepared 0 prepared.instances m.instance_handlers h (omega arith) in
      (rw (e, prepare_plan) refl, rw (e, prepare_plan) refl, λ t. rw (e, prepare_plan) (same t))
