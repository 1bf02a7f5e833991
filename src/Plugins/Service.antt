-- ===== src/Plugins/Service.antt =====
-- `register_service`: a directive for the ACE service configurator is processed, or kept for the ORB.
-- `upper` is `toupper` of each character, as `icasecmp` applies it; `process_directive` answers
-- whether it returned 0. The singleton `State` is defined. `processed` is the directive given to it, where one is.
use dancex.Prelude.{
  List, [], ◌∷◌, ◌++◌, Option, none, some, Bool, true, false, String, if◌then◌else◌, str_eq,
  str_append, ◌||◌, ◌&&◌, not, ◌≡◌, refl, arith, Bool-cases, inl, inr,
}
use dancex.Plugins.{PluginManager, Result, returned, plan_error, thrown}
use dancex.Utility.{is_absent}
use dancex.State.{State, has_orb, add_service_directive}

abbrev pub concat : List String → String
concat [] = ""
concat (s ∷ ss) = str_append s (concat ss)

abbrev pub returns : {A : Type 0} → Result A → Bool
returns (returned a) = true
returns (plan_error name reason) = false
returns (thrown failure) = false

unfoldable pub icasecmp : (String → String) → String → String → Bool
icasecmp upper l r = str_eq (upper l) (upper r)

-- The text of the directive; true for a static service.
unfoldable pub service_directive : Bool → String → String → String → String → String
service_directive true svoid artifact entrypoint arguments =
    concat ("static" ∷ " " ∷ artifact ∷ " \"" ∷ arguments ∷ "\"" ∷ [])
service_directive false svoid artifact entrypoint arguments = concat (
    "dynamic " ∷ svoid ∷ " Service_Object * " ∷ artifact ∷ ":" ∷ entrypoint ∷ "() \"" ∷ arguments
    ∷ "\"" ∷ [])

pub record Services (Any Orb Poa : Type 0) : Type 0 where
  pub result : Result Unit
  pub processed : Option String
  pub manager : PluginManager Any
  pub state : State Orb Poa

-- A directive was processed, with success.
abbrev pub is_processed : (String → Bool) → Option String → Bool
is_processed process_directive none = false
is_processed process_directive (some svcfg) = process_directive svcfg

-- Where no directive was processed, it is among the arguments of an ORB that does not exist yet;
-- where one was, it is the service's, and the arguments stay.
abbrev pub Effect :
    {Orb Poa : Type 0} → String → State Orb Poa → State Orb Poa → Option String → Type 0
Effect svcfg s t none =
    (has_orb s ≡ false) × (t.args ≡ s.args ++ "-ORBSvcConfDirective" ∷ svcfg ∷ [])
Effect svcfg s t (some d) = (d ≡ svcfg) × (t ≡ s)

module _ {Any Orb Poa : Type 0} (upper : String → String) (process_directive : String → Bool) where
  unfoldable pub process_service :
      String → String → String → Bool → PluginManager Any → State Orb Poa → Services Any Orb Poa
  process_service svcfg svoid artifact ignore_load_error m s =
      if process_directive svcfg
      then record {
        result = returned tt;
        processed = some svcfg;
        manager = record m { service_objects = m.service_objects ++ svoid ∷ [] };
        state = s;
      }
      else record {
        result =
            if ignore_load_error
            then returned tt
            else plan_error artifact (
                concat (
                  "Error processing Service Config directive [" ∷ svcfg
                  ∷ "] for ServiceObject plugin\n" ∷ []));
        processed = some svcfg;
        manager = m;
        state = s;
      }

  unfoldable pub register_service :
      String
      → String
      → String
      → String
      → Bool
      → PluginManager Any
      → State Orb Poa
      → Services Any Orb Poa
  unfolding icasecmp service_directive has_orb process_service add_service_directive
  register_service svoid artifact entrypoint arguments ignore_load_error m s =
      let static_svc = icasecmp upper entrypoint "static" in
      let svcfg = service_directive static_svc svoid artifact entrypoint arguments in
      if has_orb s || not static_svc && ignore_load_error
      then process_service svcfg svoid artifact ignore_load_error m s
      else record {
        result = returned tt;
        processed = none;
        manager = m;
        state = add_service_directive svcfg s;
      }

  module _ (svoid artifact entrypoint arguments : String) (ignore : Bool) (m : PluginManager Any)
      (s : State Orb Poa) where
    abbrev registered : Services Any Orb Poa
    registered = register_service svoid artifact entrypoint arguments ignore m s

    -- The directive of a service is processed at once, the state staying, or else it is added to
    -- the arguments of an ORB that does not exist yet, and never both.
    register_service-Effect :
        Effect
          (service_directive
            (icasecmp upper entrypoint "static")
            svoid
            artifact
            entrypoint
            arguments)
          s
          registered.state
          registered.processed
    unfolding register_service process_service add_service_directive
    register_service-Effect =
        elim (Bool-cases (has_orb s || not (icasecmp upper entrypoint "static") && ignore)) [
          | inl e ↦
              elim (Bool-cases (
                process_directive (
                  service_directive (icasecmp upper entrypoint "static") svoid artifact entrypoint
                    arguments))) [ inl p ↦ rw (e, p) (refl, refl) | inr p ↦ rw (e, p) (refl, refl) ]
          | inr e ↦ rw e (ground arith, refl)
        ]

    -- The service is noted for removal exactly where its directive was processed with success.
    pub register_service-noted : registered.manager.service_objects ≡ (
        if is_processed process_directive registered.processed
        then m.service_objects ++ svoid ∷ []
        else m.service_objects)
    unfolding register_service process_service
    register_service-noted = ground arith

    -- The registration of a service returns exactly where no directive was processed, or it was
    -- processed with success, or load errors are to be ignored.
    pub register_service-returns : returns registered.result ≡ (
        is_absent registered.processed
        || is_processed process_directive registered.processed
        || ignore)
    unfolding register_service process_service
    register_service-returns = ground arith
