-- ===== src/Domain/Requests.antt =====
-- The asynchronous requests of dancex11_ddh_application_impl.cpp and
-- dancex11_ddh_application_manager_impl.cpp: each operation sends a request to every node, waits with
-- `ORB_Completion_Wait_Strategy` (dancex11/scheduler/deployment_orb_wait_strategy.cpp, without a
-- timeout) and takes the results. The ORB is a parameter; the calls of the POA and of `narrow` return,
-- and replies are handled while waiting.
use dancex.Prelude.{
  List, [], ◌∷◌, ◌++◌, Option, none, some, Bool, false, String, if◌then◌else◌, str_append,
}
use dancex.Utility.{Properties}
use dancex.Utility.Exceptions.{UserKind, ExceptionInfo}
use dancex.Split.Plan.{DeploymentPlan}
use dancex.Events.Counter.{all_completed}
use dancex.Events.Completion.{Completion, new_completion, accept, update, completed_events}

-- What a remote call throws: an exception of the deployment (`InvalidReference`, without members,
-- among them), a system exception with its text, or no CORBA exception.
pub data Fault : Type 0 where
  user : UserKind → ExceptionInfo → Fault
  system : String → Fault
  invalid_reference : Fault
  foreign : Fault

-- The operations that are called asynchronously, with their parameters.
pub data Call (Any Ref Conn : Type 0) : Type 0 where
  prepare_plan : DeploymentPlan Any → Call Any Ref Conn
  start_launch : Properties Any → Call Any Ref Conn
  finish_launch : List Conn → Bool → Call Any Ref Conn
  start stop : Call Any Ref Conn
  destroy_application destroy_manager : Ref → Call Any Ref Conn

-- A request with what its reply handler is made with.
pub record Request (M Ref : Type 0) : Type 0 where
  pub node : String
  pub handled : Ref
  pub target : Ref
  pub message : M

-- What a reply handler is called with: a reference and connections, where the operation gives
-- them (and nil and none, where not), or an exception holder.
pub data Answer (Ref Conn : Type 0) : Type 0 where
  answered : Ref → List Conn → Answer Ref Conn
  raised : Fault → Answer Ref Conn

-- The ORB: what a `sendc` call throws, and the replies for the pending requests that the calls of
-- `perform_work` handle, in their order; how an exception is printed;
-- `_is_equivalent`; and the reference that is nil.
pub record Orb (M Ref Conn W : Type 0) : Type 0 where
  pub send : M → Ref → W → Option Fault × W
  pub perform_work : List (Request M Ref) → W → List (Request M Ref × Answer Ref Conn) × W
  pub print : Fault → String
  pub is_equivalent : Ref → Ref → Bool
  pub nil : Ref
  pub is_nil : Ref → Bool

-- The requests that were sent and the results that were set so far.
pub record Sending (F M Ref W : Type 0) : Type 0 where
  pub completion : Completion F
  pub pending : List (Request M Ref)
  pub world : W

-- A result type with the value of a future that is not set, what is set where the sending fails,
-- and what the reply handler sets.
pub record Handler (F M Ref Conn : Type 0) : Type 0 where
  pub unset : F
  pub refused : Request M Ref → Fault → F
  pub reply : Request M Ref → Answer Ref Conn → F

module _ {M Ref Conn W F : Type 0} (orb : Orb M Ref Conn W) (handler : Handler F M Ref Conn) where
  unfoldable pub send_one : Request M Ref → Sending F M Ref W → Sending F M Ref W
  unfolding accept update
  send_one request s =
      let (thrown, w) = orb.send request.message request.target s.world in
      let accepted = accept false handler.unset s.completion in
      elim thrown [
        | none ↦ record { completion = accepted; pending = s.pending ++ request ∷ []; world = w }
        | some ex ↦ record {
          completion = update (handler.refused request ex) accepted;
          pending = s.pending;
          world = w;
        }
      ]

  unfoldable pub send_all : List (Request M Ref) → Sending F M Ref W → Sending F M Ref W
  unfolding send_one
  send_all [] s = s
  send_all (request ∷ requests) s = send_all requests (send_one request s)

  -- `single_threaded_wait_on_completion`: a round for each reply. It gives nothing where the
  -- replies end before all requests are completed, and so waits for ever.
  unfoldable pub wait_on_completion :
      List (Request M Ref × Answer Ref Conn) → Completion F → Option (Completion F)
  unfolding all_completed update
  wait_on_completion [] c = if all_completed c.counter then some c else none
  wait_on_completion ((request, answer) ∷ replies) c =
      let rest = wait_on_completion replies (update (handler.reply request answer) c) in
      if all_completed c.counter then some c else rest

  abbrev pub idle : W → Sending F M Ref W
  idle w = record { completion = new_completion; pending = []; world = w }

  -- From the last request on: the results in the order in which they were set. The ORB is asked for
  -- work only where requests are pending.
  unfoldable pub collect : Sending F M Ref W → Option (List F) × W
  unfolding wait_on_completion completed_events all_completed
  collect s =
      let waited = orb.perform_work s.pending s.world in
      let (replies, w) = if all_completed s.completion.counter then ([], s.world) else waited in
      (
        elim (wait_on_completion replies s.completion) [
          | none ↦ none
          | some c ↦ some (completed_events c).0
        ],
        w,
      )

-- `os << err << "\n"` for each error.
unfoldable pub lines : List String → String
lines [] = ""
lines (err ∷ errors) = str_append (str_append err "\n") (lines errors)
