-- ===== src/Events/Scheduler.antt =====
-- dancex11/scheduler/deployment_scheduler.cpp: the queue of `Deployment_Scheduler` in one thread, and
-- `single_threaded_wait_on_completion` of deployment_default_wait_strategy.cpp.
-- `perform` is the call of an event, which changes `S` and schedules no other; `elapsed` is the time
-- that it takes, which `ACE_Countdown_Time` takes off the timer. The queue refuses an event once it is
-- closed. The threads of `svc` are left out.
use dancex.Prelude.{
  ℕ, zero, suc, ◌+◌, ◌-◌, ◌<◌, List, [], ◌∷◌, ◌++◌, Option, none, some, Bool, true, false,
  if◌then◌else◌, not, length, leb, ◌≡◌, refl, arith, ap, ◌||◌, sym, ◌∙◌, subst, Bool-cases, inl,
  inr,
}

pub record Scheduler (E : Type 0) : Type 0 where
  pub event_queue : List E
  pub closed : Bool
  pub multithread : Bool

abbrev pub is_nil : {A : Type 0} → List A → Bool
is_nil [] = true
is_nil (x ∷ xs) = false

module _ {E : Type 0} where
  -- True where `enqueue` does not answer -1.
  unfoldable pub schedule_event : E → Scheduler E → Bool × Scheduler E
  schedule_event event s =
      if s.closed
      then (false, s)
      else (true, record s { event_queue = s.event_queue ++ event ∷ [] })

  unfoldable pub terminate_scheduler : Scheduler E → Scheduler E
  terminate_scheduler s = record s { event_queue = []; closed = true }

  unfoldable pub activate_scheduler : ℕ → Scheduler E → Scheduler E
  activate_scheduler threads s = record s { multithread = not (leb threads 0) }

  unfoldable pub work_pending : Scheduler E → Bool
  work_pending s = not (is_nil s.event_queue)

module _ {E S : Type 0} (perform : E → S → S) (elapsed : E → S → ℕ) where
  -- What is left of the timer, where there is one.
  abbrev pub count_down : ℕ → Option ℕ → Option ℕ
  count_down time none = none
  count_down time (some timer) = some (timer - time)

  abbrev pub is_up : Option ℕ → Bool
  is_up none = false
  is_up (some timer) = leb timer 0

  -- The loop, on fuel; `none` means that the fuel ran out. Its body is `perform_work` on the first
  -- event of the queue.
  unfoldable pub wait_loop : ℕ → Option ℕ → List E → S → Option (Bool × List E × S)
  wait_loop zero timer queue s = none
  wait_loop (suc fuel) timer [] s = some (true, [], s)
  wait_loop (suc fuel) timer (event ∷ queue) s =
      let rest = wait_loop fuel (count_down (elapsed event s) timer) queue (perform event s) in
      if is_up timer then some (false, event ∷ queue, s) else rest

  unfoldable pub single_threaded_wait_on_completion :
      Option ℕ → Scheduler E → S → Option (Bool × Scheduler E × S)
  unfolding wait_loop
  single_threaded_wait_on_completion tv scheduler s =
      elim (wait_loop (suc (length scheduler.event_queue)) tv scheduler.event_queue s) [
        | none ↦ none
        | some (result, queue, t) ↦ some (result, record scheduler { event_queue = queue }, t)
      ]

  -- The events performed one after the other, and the time that they take.
  abbrev pub perform_all : List E → S → S
  perform_all [] s = s
  perform_all (event ∷ events) s = perform_all events (perform event s)

  abbrev pub time_of : List E → S → ℕ
  time_of [] s = 0
  time_of (event ∷ events) s = elapsed event s + time_of events (perform event s)

  abbrev pub is_spent : Option ℕ → ℕ → Bool
  is_spent none time = false
  is_spent (some timer) time = leb timer time

  is_up-spent : (timer : Option ℕ) → is_up timer ≡ true → is_spent timer 0 ≡ true
  is_up-spent none e = e
  is_up-spent (some timer) e = e

  is_spent-count_down :
      (timer : Option ℕ) (a b : ℕ) → is_spent (count_down a timer) b ≡ is_spent timer (a + b)
  is_spent-count_down none a b = refl
  is_spent-count_down (some timer) a b = ground arith

  is_up-unspent : (timer : Option ℕ) → is_up timer ≡ false → is_spent timer 0 ≡ false
  is_up-unspent none e = e
  is_up-unspent (some timer) e = e

  -- Each event is begun before the time is spent, of which some is spent already.
  abbrev pub Begun : Option ℕ → ℕ → List E → S → Type 0
  Begun timer spent [] s = Unit
  Begun timer spent (event ∷ events) s =
      (is_spent timer spent ≡ false)
      × Begun timer (spent + elapsed event s) events (perform event s)

  Begun-count_down :
      (timer : Option ℕ) (a spent : ℕ) (events : List E) (s : S)
      → Begun (count_down a timer) spent events s
      → Begun timer (a + spent) events s
  Begun-count_down timer a spent [] s b = tt
  Begun-count_down timer a spent (event ∷ events) s (b, bs) =
      let later = Begun-count_down timer a (spent + elapsed event s) events (perform event s) bs in
      let sum : a + (spent + elapsed event s) ≡ a + spent + elapsed event s = omega arith in
      (
        sym (is_spent-count_down timer a spent) ∙ b,
        subst (λ n. Begun timer n events (perform event s)) sum later,
      )

  wait_loop-performs :
      (fuel : ℕ) (timer : Option ℕ) (queue : List E) (s : S)
      → length queue < fuel
      → (performed : List E) × (left : List E) × (wait_loop fuel timer queue s
          ≡ some (is_nil left, left, perform_all performed s))
        × (performed ++ left ≡ queue)
        × ((is_nil left || is_spent timer (time_of performed s)) ≡ true)
        × Begun timer 0 performed s
  unfolding wait_loop
  wait_loop-performs zero timer queue s lt = absurd (omega arith)
  wait_loop-performs (suc fuel) timer [] s lt = ([], [], refl, refl, refl, tt)
  wait_loop-performs (suc fuel) timer (event ∷ queue) s lt = elim (Bool-cases (is_up timer)) [
    | inl e ↦ ([], event ∷ queue, rw e refl, refl, is_up-spent timer e, tt)
    | inr e ↦
        let (performed, left, same, split, up, begun) =
          wait_loop-performs fuel (count_down (elapsed event s) timer) queue (perform event s)
            (omega arith) in
        (
          event ∷ performed,
          left,
          rw e same,
          ap (◌∷◌ event) split,
          ap (λ b. is_nil left || b) (sym (is_spent-count_down timer (elapsed event s) _)) ∙ up,
          (
            is_up-unspent timer e,
            subst (λ n. Begun timer n performed (perform event s)) (omega arith)
                (Begun-count_down timer (elapsed event s) 0 performed (perform event s) begun),
          ),
        )
  ]

  -- Where the events schedule no others, the waiting in one thread ends: the first events of the
  -- queue have been performed, in their order, the others are left, and it answers true exactly
  -- where none is left. Each event performed was begun before the time that was given was used
  -- up, and, where some are left, the events performed have used it up.
  pub single_threaded_wait_on_completion-performs :
      (tv : Option ℕ) (scheduler : Scheduler E) (s : S)
      → (performed : List E) × (left : List E) × (single_threaded_wait_on_completion tv scheduler s
          ≡ some (is_nil left, record scheduler { event_queue = left }, perform_all performed s))
        × (performed ++ left ≡ scheduler.event_queue)
        × ((is_nil left || is_spent tv (time_of performed s)) ≡ true)
        × Begun tv 0 performed s
  unfolding single_threaded_wait_on_completion
  single_threaded_wait_on_completion-performs tv scheduler s =
      let (performed, left, e, split, up, begun) =
        wait_loop-performs (suc (length scheduler.event_queue)) tv scheduler.event_queue s
          (omega arith) in
      (performed, left, rw (e, single_threaded_wait_on_completion) refl, split, up, begun)
