-- ===== src/Domain/Destroyed.antt =====
-- How `destroyApplication` of a domain application ends.
use mathlib.Core.List.Perm
use dancex.Prelude.{
  List, [], ◌∷◌, true, false, ◌≡◌, refl, ap, ◌∙◌, sym, subst, ◌<◌, ltb, length, length-map, arith,
}
use dancex.Utility.Exceptions.{stop_error}
use dancex.Events.Counter.{u32_mod}
use dancex.Domain.Requests.{Call, Orb}
use dancex.Domain.Completes.{Replies}
use dancex.Domain.Errors.{
  HasTexts, Reports, unless_errors, starting-IsText, destroy_application_excep-IsText,
}
use dancex.Domain.Replies.{Outcome, done, DomainApplication, destroy_handler, launch_catch, report}
use dancex.Domain.Texts.{starting, destroy_application_excep}
use dancex.Domain.Application.{destroy_requests, destroy_all, destroy_application}
use dancex.Domain.Reports.{handled, report-handled, requests-Reports}

module _ {Any Ref Conn W : Type 0} (orb : Orb (Call Any Ref Conn) Ref Conn W)
    (replies : Replies orb) where
  destroy_handler-HasTexts :
      HasTexts
        (destroy_handler orb)
        (λ result. result.error)
        (λ node.
          starting orb.print node "CORBA exception starting preparePlan"
            "unknown exception starting preparePlan")
        (destroy_application_excep orb.print)
  unfolding destroy_handler
  destroy_handler-HasTexts = record {
    refused_eq = λ request ex. refl;
    raised_eq = λ request ex. refl;
    answered_eq = λ request app provided. refl;
    refused-IsText = λ node ex.
        starting-IsText orb.print node "CORBA exception starting preparePlan"
          "unknown exception starting preparePlan" ex;
    raised-IsText = λ node ex. destroy_application_excep-IsText orb.print node ex;
  }

  length-destroy_requests :
      (s : DomainApplication Ref) → length (destroy_requests orb s) ≡ length s.node_applications
  unfolding destroy_requests
  length-destroy_requests s = length-map _ s.node_applications

  abbrev pub DestroyReports : DomainApplication Ref → W → Outcome Unit → Type 0
  DestroyReports s w outcome =
      Reports orb
        (λ node.
          starting orb.print node "CORBA exception starting preparePlan"
            "unknown exception starting preparePlan")
        (destroy_application_excep orb.print) (destroy_requests orb s) w outcome
        (unless_errors (
          handled orb.print stop_error s.plan_uuid "destroyApplication"
            "captured destroyApplication errors:\n"))

  destroy_all-Reports :
      (s : DomainApplication Ref) (w : W)
      → length s.node_applications < u32_mod
      → DestroyReports s w (destroy_all orb s w).0
  unfolding destroy_all
  destroy_all-Reports s w b =
      let (once, e) =
        requests-Reports orb replies (destroy_handler orb) (λ result. result.error)
          (λ node.
            starting orb.print node "CORBA exception starting preparePlan"
              "unknown exception starting preparePlan")
          (destroy_application_excep orb.print) (destroy_requests orb s)
          (report orb (launch_catch orb stop_error s.plan_uuid "destroyApplication") stop_error
            s.plan_uuid "captured destroyApplication errors:\n")
          w destroy_handler-HasTexts (omega (arith, length-destroy_requests s)) in
      (
        once,
        e
            ∙ report-handled orb replies stop_error s.plan_uuid "destroyApplication"
                "captured destroyApplication errors:\n" _,
      )

  pub destroy_application-Reports :
      (s : DomainApplication Ref) (w : W)
      → length s.node_applications < u32_mod
      → DestroyReports s w (destroy_application orb s w).0
  unfolding destroy_application destroy_requests
  destroy_application-Reports s w b = by_applications s.node_applications refl
    where
      by_applications :
          (l : List (Ref × Ref))
          → s.node_applications ≡ l
          → DestroyReports s w (destroy_application orb s w).0
      by_applications [] e =
          let size : ltb 0 (length s.node_applications) ≡ false = rw e refl in
          let same : destroy_application orb s w ≡ (done tt, w) =
            rw (size, destroy_application) refl in
          let none_left : destroy_requests orb s ≡ [] = rw (e, destroy_requests) refl in
          subst
            (λ l.
              Reports orb
                (λ node.
                  starting orb.print node "CORBA exception starting preparePlan"
                    "unknown exception starting preparePlan")
                (destroy_application_excep orb.print) l w (destroy_application orb s w).0
                (unless_errors (
                  handled orb.print stop_error s.plan_uuid "destroyApplication"
                    "captured destroyApplication errors:\n")))
            (sym none_left) (Perm.nil, ap (λ o. o.0) same)
      by_applications (x ∷ l) e =
          let size : ltb 0 (length s.node_applications) ≡ true = rw e (ground arith) in
          let same : destroy_application orb s w ≡ destroy_all orb s w =
            rw (size, destroy_application) refl in
          subst (λ o. DestroyReports s w o.0) (sym same) (destroy_all-Reports s w b)
