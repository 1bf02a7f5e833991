-- ===== src/Utility/Exceptions.antt =====
-- Exceptions inside a `CORBA::Any`: `throw_exception_from_any`, `stringify_exception_from_any`,
-- `create_any_from_exception` and the templates that they use, of dancex11/core/dancex11_utility.cpp
-- and dancex11_utility_t.cpp. The type codes, `<<=` and `>>=` of the exceptions, which the IDL compiler
-- generates, and the decoding of system exceptions are parameters.
use text.Mathlib.Text.{starts_with}
use dancex.Prelude.{
  List, [], ◌∷◌, Option, none, some, Bool, true, false, String, if◌then◌else◌, str_eq, str_append,
  str_eq_refl, ◌≡◌, refl, arith,
}

pub data UserKind : Type 0 where
  plan_error start_error stop_error invalid_connection invalid_node_exec_parameter
        invalid_property :
      UserKind

pub record ExceptionInfo : Type 0 where
  pub name : String
  pub reason : String

pub data Raised : Type 0 where
  user : UserKind → ExceptionInfo → Raised
  system : String → Raised
  unknown : Raised

-- Which branch of the ladder, the same in both functions, an exception id takes.
pub data Branch : Type 0 where
  user_branch : UserKind → Branch
  system_branch other_branch : Branch

abbrev pub label : UserKind → String
label plan_error = "PlanError exception -"
label start_error = "StartError exception -"
label stop_error = "StopError exception -"
label invalid_connection = "InvalidConnection exception -"
label invalid_node_exec_parameter = "InvalidNodeExecParameter exception -"
label invalid_property = "InvalidProperty exception -"

-- ` Name: ` and ` Reason: ` as `stringify_exception` appends them.
abbrev pub described : String → ExceptionInfo → String
described result ex =
    str_append result (str_append " Name: " (str_append ex.name (str_append " Reason: " ex.reason)))

abbrev pub undecodable : String → String → String
undecodable result ex_id =
    str_append (str_append result "Unable to decode exception meta-data for ID ") ex_id

module _ {Any : Type 0} (tc_id : UserKind → String) (type_id : Any → String)
    (extract_user : UserKind → Any → Option ExceptionInfo)
    (extract_system : Any → Option String) where
  unfoldable pub branch_of : String → Branch
  branch_of ex_id =
      if str_eq ex_id (tc_id plan_error)
      then user_branch plan_error
      else if str_eq ex_id (tc_id start_error)
      then user_branch start_error
      else if str_eq ex_id (tc_id stop_error)
      then user_branch stop_error
      else if str_eq ex_id (tc_id invalid_connection)
      then user_branch invalid_connection
      else if str_eq ex_id (tc_id invalid_node_exec_parameter)
      then user_branch invalid_node_exec_parameter
      else if str_eq ex_id (tc_id invalid_property)
      then user_branch invalid_property
      else if starts_with ex_id "IDL:omg.org/CORBA/"
      then system_branch
      else other_branch

  -- Whatever is not raised on the way falls through to `CORBA::UNKNOWN`.
  unfoldable pub throw_exception_from_any : Any → Raised
  unfolding branch_of
  throw_exception_from_any excep = elim (branch_of (type_id excep)) [
    | user_branch k ↦ elim (extract_user k excep) [ none ↦ unknown | some ex ↦ user k ex ]
    | system_branch ↦ elim (extract_system excep) [ none ↦ unknown | some ex ↦ system ex ]
    | other_branch ↦ unknown
  ]

  unfoldable pub stringify_exception_from_any : Any → String
  unfolding branch_of
  stringify_exception_from_any excep = elim (branch_of (type_id excep)) [
    | user_branch k ↦ elim (extract_user k excep) [
      | none ↦ undecodable (label k) (type_id excep)
      | some ex ↦ described (label k) ex
    ]
    | system_branch ↦ elim (extract_system excep) [
      | none ↦ undecodable "" (type_id excep)
      | some ex ↦ str_append "CORBA System Exception: " ex
    ]
    | other_branch ↦ undecodable "" (type_id excep)
  ]

  -- `create_any_from_exception`: the exception inserted by `<<=`.
  unfoldable pub create_any_from_exception :
      (UserKind → ExceptionInfo → Any) → UserKind → ExceptionInfo → Any
  create_any_from_exception embed k ex = embed k ex

  module _ (embed : UserKind → ExceptionInfo → Any)
      (tc_id-injective : (j k : UserKind) → str_eq (tc_id j) (tc_id k) ≡ true → j ≡ k)
      (type_id-embed : (k : UserKind) (ex : ExceptionInfo) → type_id (embed k ex) ≡ tc_id k)
      (extract-embed : (k : UserKind) (ex : ExceptionInfo)
        → extract_user k (embed k ex) ≡ some ex) where
    branch_of-tc_id : (k : UserKind) → branch_of (tc_id k) ≡ user_branch k
    unfolding branch_of
    branch_of-tc_id plan_error = ground (arith, str_eq_refl (tc_id plan_error))
    branch_of-tc_id start_error =
        ground (arith, str_eq_refl (tc_id start_error), tc_id-injective start_error plan_error)
    branch_of-tc_id stop_error = ground (
      arith,
      str_eq_refl (tc_id stop_error),
      tc_id-injective stop_error plan_error,
      tc_id-injective stop_error start_error,
    )
    branch_of-tc_id invalid_connection = ground (
      arith,
      str_eq_refl (tc_id invalid_connection),
      tc_id-injective invalid_connection plan_error,
      tc_id-injective invalid_connection start_error,
      tc_id-injective invalid_connection stop_error,
    )
    branch_of-tc_id invalid_node_exec_parameter = ground (
      arith,
      str_eq_refl (tc_id invalid_node_exec_parameter),
      tc_id-injective invalid_node_exec_parameter plan_error,
      tc_id-injective invalid_node_exec_parameter start_error,
      tc_id-injective invalid_node_exec_parameter stop_error,
      tc_id-injective invalid_node_exec_parameter invalid_connection,
    )
    branch_of-tc_id invalid_property = ground (
      arith,
      str_eq_refl (tc_id invalid_property),
      tc_id-injective invalid_property plan_error,
      tc_id-injective invalid_property start_error,
      tc_id-injective invalid_property stop_error,
      tc_id-injective invalid_property invalid_connection,
      tc_id-injective invalid_property invalid_node_exec_parameter,
    )

    -- Where the type codes differ and an exception is read back from its Any, what
    -- create_any_from_exception puts into an Any is raised again, and is printed with its kind,
    -- name and reason.
    throw-create :
        (k : UserKind) (ex : ExceptionInfo)
        → (throw_exception_from_any (create_any_from_exception embed k ex) ≡ user k ex)
          × (stringify_exception_from_any (create_any_from_exception embed k ex)
              ≡ described (label k) ex)
    unfolding throw_exception_from_any stringify_exception_from_any create_any_from_exception
    throw-create k ex = (
      ground (arith, type_id-embed k ex, branch_of-tc_id k, extract-embed k ex),
      ground (arith, type_id-embed k ex, branch_of-tc_id k, extract-embed k ex),
    )

-- `test_and_set_exception`: the first call sets the exception, and later ones change nothing.
unfoldable pub test_and_set_exception :
    String → String → Bool × ExceptionInfo → Bool × ExceptionInfo
test_and_set_exception name reason (flag, ex) =
    if flag then (flag, ex) else (true, record { name = name; reason = reason })

unfoldable pub test_and_set_all :
    List (String × String) → Bool × ExceptionInfo → Bool × ExceptionInfo
unfolding test_and_set_exception
test_and_set_all [] s = s
test_and_set_all ((name, reason) ∷ l) s = test_and_set_all l (test_and_set_exception name reason s)

test_and_set_all-set :
    (l : List (String × String)) (ex : ExceptionInfo) → test_and_set_all l (true, ex) ≡ (true, ex)
unfolding test_and_set_all
test_and_set_all-set [] ex = refl
test_and_set_all-set ((name, reason) ∷ l) ex = test_and_set_all-set l ex

-- Of any number of failures the exception keeps the name and the reason of the first.
pub test_and_set_all-first :
    (name reason : String) (l : List (String × String)) (ex : ExceptionInfo)
    → test_and_set_all ((name, reason) ∷ l) (false, ex)
      ≡ (true, record { name = name; reason = reason })
unfolding test_and_set_all
test_and_set_all-first name reason l ex = test_and_set_all-set l _
