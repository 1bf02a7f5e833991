-- ===== src/Domain/Errors.antt =====
-- The errors of the requests of a domain application: the result of a request has one exactly where
-- the request was refused or replied to with an exception.
use Prim.Native.String.compare
use mathlib.Core.Bool.{true≢false}
use text.Mathlib.Text.{is_eq}
use text.Mathlib.TextLemmas.{cons-append, nil-append}
use mathlib.Core.List.{Perm}
use dancex.Prelude.{
  List, [], ◌∷◌, ◌++◌, Bool, true, false, String, ◌≡◌, refl, ap, ◌∙◌, map, is_empty, str_append,
  concat_map,
}
use dancex.Domain.Requests.{
  Fault, user, system, invalid_reference, foreign, Request, Answer, answered, raised, Handler,
  lines,
}
use dancex.Domain.Completes.{refusal, result, refusals_of, replies_of}
use dancex.Domain.Requests.{Orb}
use dancex.Domain.Replies.{Outcome, done, throws, errors_of}
use dancex.Domain.Texts.{
  executing, unknown_executing, start_label, stop_label, finish_label, start_excep, stop_excep,
  finish_launch_excep, destroy_application_excep, starting,
}

abbrev pub IsText : String → Type 0
IsText t = is_empty t ≡ false

append_left-IsText : (s t : String) → IsText s → IsText (str_append s t)
append_left-IsText String.[] t h = absurd (true≢false h)
append_left-IsText (String.◌∷◌ c s) t h =
    ap is_empty (cons-append c s t) ∙ ap is_eq (compare.cons-nil c (str_append s t))

append_right-IsText : (s t : String) → IsText t → IsText (str_append s t)
append_right-IsText String.[] t h = ap is_empty (nil-append t) ∙ h
append_right-IsText (String.◌∷◌ c s) t h =
    ap is_empty (cons-append c s t) ∙ ap is_eq (compare.cons-nil c (str_append s t))

pub starting-IsText :
    (print : Fault → String) (node corba unknown : String) (ex : Fault)
    → IsText (starting print node corba unknown ex)
unfolding starting
starting-IsText print node corba unknown foreign =
    append_right-IsText node _ (append_left-IsText " - " unknown refl)
starting-IsText print node corba unknown (user kind ex) =
    append_right-IsText node _ (append_left-IsText " - " _ refl)
starting-IsText print node corba unknown invalid_reference =
    append_right-IsText node _ (append_left-IsText " - " _ refl)
starting-IsText print node corba unknown (system ex) =
    append_right-IsText node _ (append_left-IsText " - " _ refl)

module _ (print : Fault → String) (node : String) where
  executing-IsText : (kind operation text : String) → IsText (executing kind operation node text)
  unfolding executing
  executing-IsText kind operation text =
      append_left-IsText (str_append kind " exception executing ") _
        (append_right-IsText kind " exception executing " refl)

  unknown_executing-IsText : (operation : String) → IsText (unknown_executing operation node)
  unfolding unknown_executing
  unknown_executing-IsText operation = append_left-IsText "unknown exception executing " _ refl

  pub start_excep-IsText : (ex : Fault) → IsText (start_excep print node ex)
  unfolding start_excep
  start_excep-IsText foreign = unknown_executing-IsText "start"
  start_excep-IsText invalid_reference = executing-IsText "CORBA" "start" (print invalid_reference)
  start_excep-IsText (system text) = executing-IsText "CORBA" "start" (print (system text))
  start_excep-IsText (user kind ex) =
      executing-IsText (start_label (user kind ex)) "start" (print (user kind ex))

  pub stop_excep-IsText : (ex : Fault) → IsText (stop_excep print node ex)
  unfolding stop_excep
  stop_excep-IsText foreign = unknown_executing-IsText "stop"
  stop_excep-IsText invalid_reference = executing-IsText "CORBA" "stop" (print invalid_reference)
  stop_excep-IsText (system text) = executing-IsText "CORBA" "stop" (print (system text))
  stop_excep-IsText (user kind ex) =
      executing-IsText (stop_label (user kind ex)) "stop" (print (user kind ex))

  pub finish_launch_excep-IsText : (ex : Fault) → IsText (finish_launch_excep print node ex)
  unfolding finish_launch_excep
  finish_launch_excep-IsText foreign = unknown_executing-IsText "finishLaunch"
  finish_launch_excep-IsText invalid_reference =
      executing-IsText "CORBA" "finishLaunch" (print invalid_reference)
  finish_launch_excep-IsText (system text) =
      executing-IsText "CORBA" "finishLaunch" (print (system text))
  finish_launch_excep-IsText (user kind ex) =
      executing-IsText (finish_label (user kind ex)) "finishLaunch" (print (user kind ex))

  pub destroy_application_excep-IsText :
      (ex : Fault) → IsText (destroy_application_excep print node ex)
  unfolding destroy_application_excep
  destroy_application_excep-IsText foreign = unknown_executing-IsText "destroyApplication"
  destroy_application_excep-IsText invalid_reference =
      executing-IsText "CORBA" "destroyApplication" (print invalid_reference)
  destroy_application_excep-IsText (system text) =
      executing-IsText "CORBA" "destroyApplication" (print (system text))
  destroy_application_excep-IsText (user kind ex) =
      executing-IsText (stop_label (user kind ex)) "destroyApplication" (print (user kind ex))

-- The text for a reply with an exception.
abbrev pub raised_text :
    {M Ref Conn : Type 0}
    → (String → Fault → String)
    → Request M Ref × Answer Ref Conn
    → List String
raised_text excep (request, answered app provided) = []
raised_text excep (request, raised ex) = excep request.node ex ∷ []

-- The text for a request that was refused.
abbrev pub refused_text :
    {M Ref : Type 0} → (String → Fault → String) → Request M Ref × Fault → String
refused_text refused (request, ex) = refused request.node ex

-- Whether a request was replied to without an exception.
abbrev pub is_answered : {M Ref Conn : Type 0} → Request M Ref × Answer Ref Conn → Bool
is_answered (request, answered app provided) = true
is_answered (request, raised ex) = false

-- How an operation ends on its requests, by the errors: a text for each request that the ORB refuses,
-- and one for each that is replied to with an exception, each request being one or the other, or
-- answered.
abbrev pub Reports :
    {M Ref Conn W : Type 0}
    → Orb M Ref Conn W
    → (String → Fault → String)
    → (String → Fault → String)
    → List (Request M Ref)
    → W
    → Outcome Unit
    → (List String → Outcome Unit)
    → Type 0
Reports orb refused excep requests w outcome ended =
    Perm (map (λ a. a.0) (refusals_of orb requests w) ++ map (λ a. a.0) (replies_of orb requests w))
      requests
    × (outcome
        ≡ ended (
            map (refused_text refused) (refusals_of orb requests w)
            ++ concat_map (raised_text excep) (replies_of orb requests w)))

-- No error, or an exception made of the texts.
abbrev pub unless_errors : (String → Fault) → List String → Outcome Unit
unless_errors exception [] = done tt
unless_errors exception (err ∷ errors) = throws (exception (lines (err ∷ errors)))

-- A result type whose errors are the given texts.
module _ {M Ref Conn F : Type 0} (handler : Handler F M Ref Conn) (error : F → String)
    (refused excep : String → Fault → String) where
  pub record HasTexts : Type 0 where
    pub refused_eq :
        (request : Request M Ref) (ex : Fault)
        → error (handler.refused request ex) ≡ refused request.node ex
    pub raised_eq :
        (request : Request M Ref) (ex : Fault)
        → error (handler.reply request (raised ex)) ≡ excep request.node ex
    pub answered_eq :
        (request : Request M Ref) (app : Ref) (provided : List Conn)
        → error (handler.reply request (answered app provided)) ≡ ""
    pub refused-IsText : (node : String) (ex : Fault) → IsText (refused node ex)
    pub raised-IsText : (node : String) (ex : Fault) → IsText (excep node ex)

  module _ (texts : HasTexts) where
    errors_of-replies :
        (replies : List (Request M Ref × Answer Ref Conn))
        → errors_of error (map (result handler) replies) ≡ concat_map (raised_text excep) replies
    unfolding errors_of
    errors_of-replies [] = refl
    errors_of-replies ((request, answered app provided) ∷ replies) =
        rw (texts.answered_eq request app provided, errors_of) (errors_of-replies replies)
    errors_of-replies ((request, raised ex) ∷ replies) =
        rw (texts.raised_eq request ex, texts.raised-IsText request.node ex, errors_of)
          (ap (λ l. excep request.node ex ∷ l) (errors_of-replies replies))

    errors_of-refusals :
        (refusals : List (Request M Ref × Fault)) (more : List F)
        → errors_of error (map (refusal handler) refusals ++ more)
          ≡ map (refused_text refused) refusals ++ errors_of error more
    unfolding errors_of
    errors_of-refusals [] more = refl
    errors_of-refusals ((request, ex) ∷ refusals) more =
        rw (texts.refused_eq request ex, texts.refused-IsText request.node ex, errors_of)
          (ap (λ l. refused request.node ex ∷ l) (errors_of-refusals refusals more))

    pub errors_of-Ended :
        (refusals : List (Request M Ref × Fault)) (replies : List (Request M Ref × Answer Ref Conn))
        → errors_of error (map (refusal handler) refusals ++ map (result handler) replies)
          ≡ map (refused_text refused) refusals ++ concat_map (raised_text excep) replies
    errors_of-Ended refusals replies =
        errors_of-refusals refusals (map (result handler) replies)
        ∙ ap (λ l. map (refused_text refused) refusals ++ l) (errors_of-replies replies)
