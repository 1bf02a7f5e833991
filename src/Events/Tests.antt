-- ===== src/Events/Tests.antt =====
-- The theorems of `Events` at small runs.
use dancex.Prelude.{
  ◌||◌, List, ℕ, [], ◌∷◌, ◌++◌, Option, none, some, true, false, String, ◌≡◌, refl, arith, ◌+◌,
  str_append, is_empty, if◌then◌else◌,
}
use dancex.Events.Counter.{all_completed}
use dancex.Events.Completion.{
  Completion, new_completion, Run, start, accept_pending, accept_ready, accept, completed_events,
  all_completed-Run,
}
use dancex.Events.Action.{user, Event, call}
use dancex.Events.Scheduler.{
  Scheduler, single_threaded_wait_on_completion, wait_loop, is_nil, perform_all, is_spent, time_of,
  Begun, single_threaded_wait_on_completion-performs,
}
use dancex.Events.Action.Results.{IsAnswered, call-set}

-- Of two futures the second is ready when it is accepted, and the first is completed later.
abbrev accepted : Completion String
accepted = accept true "b" (accept false "a" new_completion)

accepted-Run : Run ("a" ∷ []) ("b" ∷ []) accepted
accepted-Run = accept_ready "b" (accept_pending "a" start)

all_completed-Run_example :
    (all_completed accepted.counter ≡ false) × ((completed_events accepted).0 ≡ "b" ∷ [])
all_completed-Run_example = all_completed-Run accepted-Run (omega arith)

-- An event whose handler throws the text that it is, unless that is empty. The any of an exception is
-- its text, and the empty text is the null any.
abbrev failing : Event ℕ String String String String
failing = record {
  name = "inst";
  instance_type = "type";
  invoke_pre_interceptor = λ di s. (none, s);
  invoke = λ handler s. ((if is_empty handler then none else some (user handler)), s + 1);
  invoke_post_interceptor = λ di excep s. (none, s);
  create_unexpected_exception = λ name reason. str_append name reason;
  create_valid_result = λ s result. result;
}

abbrev text_any : String → Option String
text_any ex = some ex

abbrev handlers : String → Option String
handlers type = some "failure"

call-set_example :
    IsAnswered "" is_empty text_any failing
      (call "" is_empty text_any failing ("i" ∷ []) handlers 0)
call-set_example =
    call-set "" is_empty text_any failing ("i" ∷ []) handlers 0 ((λ s. refl), tt)
      ((λ excep s. refl), tt) (λ ex. refl)

-- Two events, that add their number, and a timer that one of them uses up.
abbrev queued : Scheduler ℕ
queued = record { event_queue = 3 ∷ 4 ∷ []; closed = false; multithread = false }

abbrev takes_one : ℕ → ℕ → ℕ
takes_one event s = 1

abbrev add : ℕ → ℕ → ℕ
add event s = s + event

wait-one :
    single_threaded_wait_on_completion add takes_one (some 1) queued 0
    ≡ some (false, record queued { event_queue = 4 ∷ [] }, 3)
unfolding single_threaded_wait_on_completion wait_loop
wait-one = refl

single_threaded_wait_on_completion-performs_example :
    (performed : List ℕ) × (left : List ℕ) × (single_threaded_wait_on_completion add takes_one
        (some 1)
        queued
        0
      ≡ some (
        is_nil left,
        record queued { event_queue = left },
        perform_all add takes_one performed 0,
      ))
    × (performed ++ left ≡ 3 ∷ 4 ∷ [])
    × ((is_nil left || is_spent add takes_one (some 1) (time_of add takes_one performed 0)) ≡ true)
    × Begun add takes_one (some 1) 0 performed 0
single_threaded_wait_on_completion-performs_example =
    single_threaded_wait_on_completion-performs add takes_one (some 1) queued 0
