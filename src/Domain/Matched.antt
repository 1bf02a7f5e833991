-- ===== src/Domain/Matched.antt =====
-- A domain application that has launched on all nodes destroys what it launched.
use mathlib.Core.Bool.{true≢false}
use mathlib.Core.List.{Perm, cons≢nil}
use mathlib.Core.List.Perm
use dancex.Prelude.{
  List, [], ◌∷◌, ◌++◌, Bool, true, false, String, ◌≡◌, refl, ap, ◌∙◌, sym, subst, ◌<◌, map,
  if◌then◌else◌, length, concat_map, map-map, Bool-cases, inl, inr,
}
use dancex.Utility.{Properties}
use dancex.Utility.Exceptions.{start_error}
use dancex.Events.Counter.{u32_mod}
use dancex.Domain.Requests.{Fault, Call, answered, raised, Orb}
use dancex.Domain.Completes.{Replies}
use dancex.Domain.Errors.{unless_errors}
use dancex.Domain.Replies.{Outcome, done, DomainApplication}
use dancex.Domain.Application.{
  new_domain_application, launch_requests, start_launch, destroy_requests,
}
use dancex.Domain.Reports.{handled}
use dancex.Domain.Launched.{
  Reply, application_of, error_of, refused_launch, launch_refusals, launch_replies,
  with_applications, start_launch-Launches,
}

unfoldable pub ended_well : Outcome Unit → Bool
ended_well (done u) = true
ended_well _ = false

pub done-no_errors :
    (exception : String → Fault) (errors : List String)
    → unless_errors exception errors ≡ done tt
    → errors ≡ []
unfolding ended_well
done-no_errors exception [] e = refl
done-no_errors exception (err ∷ errors) e = absurd (true≢false (ap ended_well (sym e)))

pub append-nothing : {A : Type 0} (xs ys : List A) → xs ++ ys ≡ [] → (xs ≡ []) × (ys ≡ [])
append-nothing [] ys e = (refl, e)
append-nothing (x ∷ xs) ys e = absurd (cons≢nil e)

pub map-nothing : {A B : Type 0} (f : A → B) (xs : List A) → map f xs ≡ [] → xs ≡ []
map-nothing f [] e = refl
map-nothing f (x ∷ xs) e = absurd (cons≢nil e)

module _ {Any Ref Conn W : Type 0} (orb : Orb (Call Any Ref Conn) Ref Conn W) where
  -- Where no reply is an error, there is an application of each manager.
  application_of-handled :
      (replies : List (Reply orb))
      → concat_map (error_of orb) replies ≡ []
      → map (λ a. a.1) (concat_map (application_of orb) replies) ≡ map (λ a. a.0.handled) replies
  application_of-handled [] e = refl
  application_of-handled ((request, raised ex) ∷ replies) e = absurd (cons≢nil e)
  application_of-handled ((request, answered app provided) ∷ replies) e =
      elim (Bool-cases (orb.is_nil app)) [
        | inl n ↦ absurd (
            cons≢nil (
              subst (λ b. (if b then "" ∷ [] else []) ++ concat_map (error_of orb) replies ≡ []) n
                e))
        | inr n ↦ rw n (
            ap (λ l. request.handled ∷ l)
              (application_of-handled replies (
                subst (λ b. (if b then "" ∷ [] else []) ++ concat_map (error_of orb) replies ≡ []) n
                  e)))
      ]

  handled-launch_requests :
      (config_property : Properties Any) (s : DomainApplication Ref)
      → map (λ r. r.handled) (launch_requests orb config_property s) ≡ map (λ m. m.0) s.nams
  unfolding launch_requests
  handled-launch_requests config_property s = map-map _ (λ r. r.handled) s.nams

  target-destroy_requests :
      (s : DomainApplication Ref)
      → map (λ r. r.target) (destroy_requests orb s) ≡ map (λ a. a.1) s.node_applications
  unfolding destroy_requests
  target-destroy_requests s = map-map _ (λ r. r.target) s.node_applications

  -- Where each pending request is replied to once, nil is nil, and there are fewer than 2 ^ 32
  -- managers: when startLaunch of a new domain application ends without an exception,
  -- destroyApplication after it has one request for each of its managers, and no other.
  pub start_launch-destroy_requests :
      (config_property : Properties Any) (provided : List Conn) (plan_uuid : String)
      (nams : List (Ref × Ref)) (node_ids : List (Ref × String)) (w : W)
      → Replies orb
      → orb.is_nil orb.nil ≡ true
      → length nams < u32_mod
      → (let (outcome, t, all, w') =
            start_launch orb config_property provided
              (new_domain_application plan_uuid nams node_ids)
              w in
          outcome ≡ done tt
          → Perm (map (λ r. r.target) (destroy_requests orb t)) (map (λ m. m.0) nams))
  start_launch-destroy_requests config_property provided plan_uuid nams node_ids w r n b d =
      let s = new_domain_application plan_uuid nams node_ids in
      let l = start_launch-Launches orb config_property provided s w r n b in
      let refusals = launch_refusals orb config_property s w in
      let replies = launch_replies orb config_property s w in
      let none_left =
        done-no_errors
          (handled orb.print start_error plan_uuid "startLaunch" "captured startLaunch errors:\n")
          (map (refused_launch orb) refusals ++ concat_map (error_of orb) replies)
          (sym l.outcome_eq ∙ d) in
      let (no_text, no_error) = append-nothing _ _ none_left in
      let no_refusal = map-nothing (refused_launch orb) refusals no_text in
      let all_replied =
        subst
          (λ x.
            Perm (map (λ a. a.0) x ++ map (λ a. a.0) replies)
              (launch_requests orb config_property s))
          no_refusal l.once in
      let targets =
        ap (λ t. map (λ q. q.target) (destroy_requests orb t)) l.state_eq
        ∙ target-destroy_requests (with_applications orb replies s)
        ∙ application_of-handled replies no_error in
      subst (λ x. Perm x (map (λ m. m.0) nams)) (sym targets)
        (subst (λ x. Perm (map (λ a. a.0.handled) replies) x)
          (handled-launch_requests config_property s)
          (subst (λ x. Perm x (map (λ q. q.handled) (launch_requests orb config_property s)))
            (map-map (λ a. a.0) (λ q. q.handled) replies) (Perm.map (λ q. q.handled) all_replied)))
