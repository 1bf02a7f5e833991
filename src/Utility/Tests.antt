-- ===== src/Utility/Tests.antt =====
-- The theorems of `Utility` at small sequences, the values being texts.
use dancex.Prelude.{
  ℕ, List, [], ◌∷◌, ◌++◌, Option, some, String, str_eq, ◌≡◌, refl, All, if◌then◌else◌,
}
use dancex.Utility.{Properties, Resource, get_instance_type, home_factory, ccm_home}
use dancex.Utility.Values.{get_instance_type-first}
use dancex.Utility.Tokenize.{tokenize, join, Free, tokenize-join}
use dancex.Utility.Exceptions.{
  UserKind, plan_error, start_error, stop_error, invalid_connection, invalid_node_exec_parameter,
  invalid_property, ExceptionInfo,
}

abbrev text_of : String → Option String
text_of s = some s

abbrev props : Properties String
props =
    record { name = "a"; value = "1" }
    ∷ record { name = "b"; value = "2" }
    ∷ record { name = "a"; value = "3" }
    ∷ []

abbrev cpu : Resource
cpu = record { name = "cpu"; resource_type = "core" ∷ [] }

abbrev disk : Resource
disk = record { name = "disk"; resource_type = "raid" ∷ "ssd" ∷ [] }

get_instance_type-first_example :
    get_instance_type text_of (props ++ record { name = home_factory; value = "f" } ∷ []) ≡ ccm_home
get_instance_type-first_example =
    get_instance_type-first text_of props [] (record { name = home_factory; value = "f" })
      ((refl, refl, refl, refl), ((refl, refl, refl, refl), ((refl, refl, refl, refl), tt)))

tokenize-join_example :
    (t : List ℕ) × (ts : List (List ℕ)) × (tokenize (97 ∷ 44 ∷ 98 ∷ []) 44 ≡ some (t ∷ ts))
    × (join 44 t ts ≡ 97 ∷ 44 ∷ 98 ∷ [])
    × All (Free 44) (t ∷ ts)
tokenize-join_example = tokenize-join (97 ∷ 44 ∷ 98 ∷ []) 44

-- An any that holds a user exception of a kind, or nothing that is known.
data AnyEx : Type 0 where
  holds : UserKind → ExceptionInfo → AnyEx

abbrev id_of : UserKind → String
id_of plan_error = "IDL:Deployment/PlanError:1.0"
id_of start_error = "IDL:Deployment/StartError:1.0"
id_of stop_error = "IDL:Deployment/StopError:1.0"
id_of invalid_connection = "IDL:Deployment/InvalidConnection:1.0"
id_of invalid_node_exec_parameter = "IDL:Deployment/InvalidNodeExecParameter:1.0"
id_of invalid_property = "IDL:Deployment/InvalidProperty:1.0"

-- The kind is read back from the id.
abbrev kind_of : String → UserKind
kind_of s =
    if str_eq s (id_of start_error)
    then start_error
    else if str_eq s (id_of stop_error)
    then stop_error
    else if str_eq s (id_of invalid_connection)
    then invalid_connection
    else if str_eq s (id_of invalid_node_exec_parameter)
    then invalid_node_exec_parameter
    else if str_eq s (id_of invalid_property)
    then invalid_property
    else plan_error

kind_of-id_of : (k : UserKind) → kind_of (id_of k) ≡ k
kind_of-id_of plan_error = refl
kind_of-id_of start_error = refl
kind_of-id_of stop_error = refl
kind_of-id_of invalid_connection = refl
kind_of-id_of invalid_node_exec_parameter = refl
kind_of-id_of invalid_property = refl
