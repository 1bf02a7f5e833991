-- ===== src/Events/Completion.antt =====
-- dancex11/scheduler/completion_base.h: `Completion_T`, which counts futures and collects those that
-- are completed. Attaching to a future that is ready calls `update` at once.
use dancex.Prelude.{
  ap, ◌∙◌, ◌+◌, ◌-◌, ◌%◌, ◌<◌, List, [], ◌∷◌, ◌++◌, Bool, true, false, if◌then◌else◌, ◌≡◌, refl,
  arith, length, length-append, ◌==◌,
}
use dancex.Events.Counter.{
  Counter, new_counter, u32_mod, increment_exec_count, decrement_exec_count, all_completed,
}

pub record Completion (F : Type 0) : Type 0 where
  pub counter : Counter
  pub completed : List F

pub decrement-exec_count :
    (c : Counter) → (decrement_exec_count c).exec_count ≡ (c.exec_count + u32_mod - 1) % u32_mod
unfolding decrement_exec_count
decrement-exec_count c = ground arith

decrement-fail_count : (c : Counter) → (decrement_exec_count c).fail_count ≡ c.fail_count
unfolding decrement_exec_count
decrement-fail_count c = ground arith

module _ {F : Type 0} where
  abbrev pub new_completion : Completion F
  new_completion = record { counter = new_counter 0 0; completed = [] }

  unfoldable pub update : F → Completion F → Completion F
  unfolding decrement_exec_count
  update future c = record {
    counter = decrement_exec_count c.counter;
    completed = c.completed ++ future ∷ [];
  }

  -- `accept`: `attach`, with whether the future is ready, and then the increment.
  unfoldable pub accept : Bool → F → Completion F → Completion F
  unfolding update increment_exec_count
  accept ready future c =
      let attached = if ready then update future c else c in
      record attached { counter = increment_exec_count attached.counter }

  -- `completed_events`: swaps the list out.
  unfoldable pub completed_events : Completion F → List F × Completion F
  completed_events c = (c.completed, record c { completed = [] })

  -- The protocol of a client: futures are accepted, ready or not, and each one that was not ready is
  -- completed once. The index lists the futures that are pending, and those that were completed.
  pub data Run : List F → List F → Completion F → Type 0 where
    start : Run [] [] new_completion
    accept_pending :
        {pending done : List F} {c : Completion F} (f : F)
        → Run pending done c
        → Run (f ∷ pending) done (accept false f c)
    accept_ready :
        {pending done : List F} {c : Completion F} (f : F)
        → Run pending done c
        → Run pending (done ++ f ∷ []) (accept true f c)
    complete :
        {pending done : List F} {c : Completion F} (before after : List F) (f : F)
        → Run pending done c
        → pending ≡ before ++ f ∷ after
        → Run (before ++ after) (done ++ f ∷ []) (update f c)

  -- The counts that a client's run leads to.
  unfoldable pub Counts : List F → List F → Completion F → Type 0
  Counts pending done c =
      (c.counter.exec_count ≡ length pending % u32_mod)
      × (c.completed ≡ done)
      × (c.counter.fail_count ≡ 0)

  accept_pending-Counts :
      (f : F) (pending done : List F) (c : Completion F)
      → Counts pending done c
      → Counts (f ∷ pending) done (accept false f c)
  unfolding accept increment_exec_count Counts
  accept_pending-Counts f pending done c h = ((let e = h.0 in omega arith), h.1, h.2)

  accept_ready-Counts :
      (f : F) (pending done : List F) (c : Completion F)
      → Counts pending done c
      → Counts pending (done ++ f ∷ []) (accept true f c)
  unfolding accept update increment_exec_count Counts
  accept_ready-Counts f pending done c h = (
    (let e = h.0 in let d = decrement-exec_count c.counter in omega arith),
    ap (λ l. l ++ f ∷ []) h.1,
    decrement-fail_count c.counter ∙ h.2,
  )

  complete-Counts :
      (pending before after done : List F) (f : F) (c : Completion F)
      → pending ≡ before ++ f ∷ after
      → Counts pending done c
      → Counts (before ++ after) (done ++ f ∷ []) (update f c)
  unfolding update Counts
  complete-Counts pending before after done f c split h = (
    (let e = h.0 in
        let d = decrement-exec_count c.counter in
        let l = ap length split ∙ length-append before (f ∷ after) in
        let r = length-append before after in omega arith),
    ap (λ l. l ++ f ∷ []) h.1,
    decrement-fail_count c.counter ∙ h.2,
  )

  pub Run-Counts :
      {pending done : List F} {c : Completion F} → Run pending done c → Counts pending done c
  unfolding Counts
  Run-Counts start = (refl, refl, refl)
  Run-Counts (accept_pending f r) = accept_pending-Counts f _ _ _ (Run-Counts r)
  Run-Counts (accept_ready f r) = accept_ready-Counts f _ _ _ (Run-Counts r)
  Run-Counts (complete before after f r split) =
      complete-Counts _ before after _ f _ split (Run-Counts r)

  -- While fewer than 2 ^ 32 futures are pending, all_completed answers whether none is pending,
  -- and completed_events gives the completed futures, ready ones included, in their order.
  pub all_completed-Run :
      {pending done : List F} {c : Completion F}
      → Run pending done c
      → length pending < u32_mod
      → (all_completed c.counter ≡ (length pending == 0)) × ((completed_events c).0 ≡ done)
  unfolding all_completed completed_events Counts
  all_completed-Run r small =
      (ap (λ n. n == 0) (let e = (Run-Counts r).0 in omega arith), (Run-Counts r).1)

  -- While at least one and fewer than 2 ^ 32 futures are pending, the completion of a future
  -- notifies that all are completed exactly when it was the only one pending.
  pub update-notified :
      {pending done : List F} {c : Completion F} (f : F)
      → Run pending done c
      → length pending < u32_mod
      → 0 < length pending
      → (update f c).counter.notified
        ≡ (if length pending == 1 then c.counter.notified ++ true ∷ [] else c.counter.notified)
  unfolding update decrement_exec_count Counts
  update-notified {pending} f r small some =
      let h = Run-Counts r in let e = h.0 in let z = h.2 in ground arith

  -- Accepting a future that is ready, while exactly one is pending, notifies that all are
  -- completed although one is still pending.
  accept-early :
      {pending done : List F} {c : Completion F} (f : F)
      → Run pending done c
      → length pending ≡ 1
      → ((accept true f c).counter.notified ≡ c.counter.notified ++ true ∷ [])
        × (all_completed (accept true f c).counter ≡ false)
  unfolding accept update decrement_exec_count increment_exec_count all_completed Counts
  accept-early f r one =
      let h = Run-Counts r in let e = h.0 in let z = h.2 in (ground arith, ground arith)
