-- ===== src/Domain/Texts.antt =====
-- dancex11/domain_deployment_handler/dancex11_ddh_application_impl.cpp: the texts for exceptions.
use dancex.Prelude.{String, str_append}
use dancex.Utility.Exceptions.{plan_error, start_error, stop_error, invalid_connection}
use dancex.Domain.Requests.{Fault, user, foreign}

-- `err << ... << " exception executing " ...` of the reply handlers.
unfoldable pub executing : String → String → String → String → String
executing kind operation node text =
    str_append (str_append kind " exception executing ")
      (str_append (str_append operation " on node ") (str_append node (str_append " : " text)))

unfoldable pub unknown_executing : String → String → String
unknown_executing operation node =
    str_append "unknown exception executing " (str_append operation (str_append " on node " node))

-- `err << node_id << ... << " : " << ex` where the sending fails.
unfoldable pub starting : (Fault → String) → String → String → String → Fault → String
starting print node corba unknown foreign = str_append node (str_append " - " unknown)
starting print node corba unknown ex =
    str_append node (str_append " - " (str_append corba (str_append " : " (print ex))))

-- The exceptions that have a handler of their own in the operations for exceptions; the handler for
-- `CORBA::Exception` takes the others.
abbrev pub launch_label : Fault → String
launch_label (user plan_error ex) = "PlanError"
launch_label (user start_error ex) = "StartError"
launch_label _ = "CORBA"

abbrev pub finish_label : Fault → String
finish_label (user start_error ex) = "StartError"
finish_label (user invalid_connection ex) = "InvalidConnection"
finish_label _ = "CORBA"

abbrev pub start_label : Fault → String
start_label (user start_error ex) = "StartError"
start_label _ = "CORBA"

abbrev pub stop_label : Fault → String
stop_label (user stop_error ex) = "StopError"
stop_label _ = "CORBA"

module _ (print : Fault → String) where
  -- The error of the result that an exception leads to.
  unfoldable pub start_launch_excep : String → Fault → String
  unfolding executing
  start_launch_excep node foreign =
      str_append "caught a unknown C++ exception executing startLaunch on node " node
  start_launch_excep node ex = executing (launch_label ex) "startLaunch" node (print ex)

  unfoldable pub destroy_application_excep : String → Fault → String
  unfolding executing unknown_executing
  destroy_application_excep node foreign = unknown_executing "destroyApplication" node
  destroy_application_excep node ex = executing (stop_label ex) "destroyApplication" node (print ex)

  unfoldable pub finish_launch_excep : String → Fault → String
  unfolding executing unknown_executing
  finish_launch_excep node foreign = unknown_executing "finishLaunch" node
  finish_launch_excep node ex = executing (finish_label ex) "finishLaunch" node (print ex)

  unfoldable pub start_excep : String → Fault → String
  unfolding executing unknown_executing
  start_excep node foreign = unknown_executing "start" node
  start_excep node ex = executing (start_label ex) "start" node (print ex)

  unfoldable pub stop_excep : String → Fault → String
  unfolding executing unknown_executing
  stop_excep node foreign = unknown_executing "stop" node
  stop_excep node ex = executing (stop_label ex) "stop" node (print ex)
