-- ===== src/Domain/Retry.antt =====
-- `destroyApplication` of a domain application manager, on the application that it is called for.
use dancex.Prelude.{
  List, [], ◌∷◌, ◌++◌, none, some, true, false, String, ◌≡◌, refl, ap, ◌∙◌, sym, subst, All, ◌⊎◌,
  inl, inr,
}
use dancex.Utility.Exceptions.{ExceptionInfo, stop_error}
use dancex.Domain.Requests.{user, Call, Orb}
use dancex.Domain.Completes.{Replies}
use dancex.Domain.Replies.{done, throws, DomainApplication}
use dancex.Domain.Application
use dancex.Domain.Nodes.{Running}
use dancex.Domain.Manager.{
  reference_of, kept, caught, destroy_in, destroy_catch, destroy_application,
}
use dancex.Domain.Ending.{IsCounted, destroy_application-cases}

module _ {Any Ref Conn W : Type 0} (orb : Orb (Call Any Ref Conn) Ref Conn W)
    (activate : W → Ref × W) (app : Ref) where
  -- An active application other than `app`.
  abbrev pub IsOther : Running Ref → Type 0
  IsOther (active, da) = (ref : Ref) × (active ≡ some ref) × (orb.is_equivalent ref app ≡ false)

  destroy_in-others :
      (before rest : List (Running Ref)) (w : W)
      → All IsOther before
      → destroy_in orb activate app (before ++ rest) w ≡ (
          let (found, left, w') = destroy_in orb activate app rest w in (found, before ++ left, w'))
  unfolding destroy_in reference_of
  destroy_in-others [] rest w others = refl
  destroy_in-others ((active, da) ∷ before) rest w ((ref, e, n), others) =
      rw (e, n, destroy_in-others before rest w others, destroy_in, reference_of) refl

  destroy_in-none :
      (running : List (Running Ref)) (w : W)
      → All IsOther running
      → destroy_in orb activate app running w ≡ (none, running, w)
  unfolding destroy_in reference_of
  destroy_in-none [] w others = refl
  destroy_in-none ((active, da) ∷ running) w ((ref, e, n), others) =
      rw (e, n, destroy_in-none running w others, destroy_in, reference_of) refl

  destroy_in-inactive :
      (da : DomainApplication Ref) (rest : List (Running Ref)) (w : W)
      → All IsOther rest
      → orb.is_equivalent (activate w).0 app ≡ false
      → destroy_in orb activate app ((none, da) ∷ rest) w
        ≡ (none, (some (activate w).0, da) ∷ rest, (activate w).1)
  unfolding destroy_in reference_of
  destroy_in-inactive da rest w others n =
      rw (n, destroy_in-none rest (activate w).1 others, destroy_in) refl

  module _ (before after : List (Running Ref)) (ref : Ref) (da : DomainApplication Ref) (w : W)
      (same : orb.is_equivalent ref app ≡ true) (others : All IsOther before) where
    destroy_in-here :
        (rest : List (Running Ref)) (v : W)
        → destroy_in orb activate app ((some ref, da) ∷ rest) v ≡ (
            let (outcome, w') = Application.destroy_application orb da v in
            (some outcome, kept outcome (none, da) ++ rest, w'))
    unfolding destroy_in reference_of
    destroy_in-here rest v = rw (same, destroy_in) refl

    destroy_application-found :
        destroy_application orb activate app (before ++ (some ref, da) ∷ after) w ≡ (
          let (outcome, w') = Application.destroy_application orb da w in
          (caught orb activate (some outcome), before ++ (kept outcome (none, da) ++ after), w'))
    unfolding destroy_application destroy_in reference_of
    destroy_application-found =
        ap (λ x. (caught orb activate x.0, x.1, x.2))
          (destroy_in-others before ((some ref, da) ∷ after) w others
            ∙ ap (λ x. (x.0, before ++ x.1, x.2)) (destroy_in-here after w))

    pub destroy_application-first :
        Replies orb
        → IsCounted (none, da)
        → (let (outcome, left, w') =
              destroy_application orb activate app (before ++ (some ref, da) ∷ after) w in
            ((outcome ≡ done tt) × (left ≡ before ++ after))
            ⊎ ((reason : String) × (outcome
                  ≡ throws (user stop_error (record { name = da.plan_uuid; reason = reason })))
                × (left ≡ before ++ (none, da) ∷ after)))
    unfolding caught destroy_catch
    destroy_application-first r b = elim (destroy_application-cases orb activate da w r b) [
      | inl well ↦ inl (
        ap (λ x. x.0) destroy_application-found ∙ ap (λ o. caught orb activate (some o)) well,
        ap (λ x. x.1) destroy_application-found
            ∙ ap (λ o. before ++ (kept o (none, da) ++ after)) well,
      )
      | inr (reason, ill) ↦ inr (
        reason,
        ap (λ x. x.0) destroy_application-found ∙ ap (λ o. caught orb activate (some o)) ill,
        ap (λ x. x.1) destroy_application-found
            ∙ ap (λ o. before ++ (kept o (none, da) ++ after)) ill,
      )
    ]

    -- For an active application of a domain application manager, the others being active and not
    -- equivalent to it, where its destroyApplication throws a StopError and new references are
    -- not equivalent to it: destroyApplication of the manager throws the same, and a second call
    -- for the same reference ends without an exception and only activates the application again.
    pub destroy_application-retry :
        (info : ExceptionInfo)
        → All IsOther after
        → ((v : W) → orb.is_equivalent (activate v).0 app ≡ false)
        → (Application.destroy_application orb da w).0 ≡ throws (user stop_error info)
        → (let (outcome, left, w') =
              destroy_application orb activate app (before ++ (some ref, da) ∷ after) w in
            (outcome ≡ throws (user stop_error info))
            × (destroy_application orb activate app left w'
                ≡ (done tt, before ++ (some (activate w').0, da) ∷ after, (activate w').1)))
    unfolding caught destroy_catch destroy_application
    destroy_application-retry info later fresh ill =
        let found =
          destroy_application-found
          ∙ ap
              (λ o. (
                caught orb activate (some o),
                before ++ (kept o (none, da) ++ after),
                (Application.destroy_application orb da w).1,
              ))
              ill in
        (
          ap (λ x. x.0) found,
          subst
              (λ x.
                destroy_application orb activate app x.1 x.2
                ≡ (done tt, before ++ (some (activate x.2).0, da) ∷ after, (activate x.2).1))
              (sym found) (again (Application.destroy_application orb da w).1),
        )
      where
        again :
            (v : W)
            → destroy_application orb activate app (before ++ (none, da) ∷ after) v
              ≡ (done tt, before ++ (some (activate v).0, da) ∷ after, (activate v).1)
        again v =
            ap (λ x. (caught orb activate x.0, x.1, x.2))
              (destroy_in-others before ((none, da) ∷ after) v others
                ∙ ap (λ x. (x.0, before ++ x.1, x.2))
                    (destroy_in-inactive da after v later (fresh v)))
