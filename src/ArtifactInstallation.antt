-- ===== src/ArtifactInstallation.antt =====
-- tools/artifact_installation/artifact_installation_impl.{h,cpp}: `ArtifactInstallation_Impl`, with
-- `ArtifactInstallationProperties` of dance_artifact_installation_handler.{h,cpp}. The handlers of the
-- protocols and the repository manager are parameters: they act on a world `W`, and may throw a
-- PlanError where their interface says so. The calls are taken one at a time, so that no registry is
-- found locked, and the memory is enough; `Locations` has the parsing of a location.
pub mod Locations
pub mod Attempts
pub mod Counting
pub mod Tests
use dancex.Prelude.{
  ℕ, ◌+◌, ◌-◌, ◌%◌, ◌^◌, List, [], ◌∷◌, ◌++◌, Option, none, some, Bool, true, false, String,
  if◌then◌else◌, ltb, ◌==◌, not, ◌||◌, str_eq, str_append, is_empty,
}
use dancex.StringMap.{SMap, find, assign, erase}
use dancex.Utility.{Properties, Property, get_property_value}
use dancex.Utility.Exceptions.{ExceptionInfo}
use dancex.Split.Plan.{DeploymentPlan}
use dancex.ArtifactInstallation.Locations.{Location, malformed, parsed, parse_uri}

pub record Version : Type 0 where
  pub protocol : String
  pub location : String

pub record ArtifactRegistry : Type 0 where
  pub install_count : ℕ
  pub versions : List Version

-- A handler; the pointer is its address.
pub record InstallationHandler (W : Type 0) : Type 0 where
  pub pointer : ℕ
  pub protocol_prefix : String
  pub initialize : W → Option ExceptionInfo × W
  pub clear : W → Option ExceptionInfo × W
  pub install : String → String → SMap String → W → Option ExceptionInfo × String × W
  pub remove : String → String → W → W

pub record ArtifactInstallation (W : Type 0) : Type 0 where
  pub artifacts : SMap (SMap ArtifactRegistry)
  pub handlers : SMap (InstallationHandler W)

-- `Deployment::ArtifactDeploymentDescription`, as far as it is read.
pub record ArtifactDescription (Any : Type 0) : Type 0 where
  pub name : String
  pub location : List String
  pub exec_parameter : Properties Any

abbrev property_base : String
property_base = "nl.remedy.it.DnCX11.artifact."

-- `get_property` of a reader without a protocol.
unfoldable get_property : SMap String → String → String
unfolding find
get_property propmap propname = elim (find (str_append property_base propname) propmap) [
  | none ↦ ""
  | some t ↦ t
]

unfoldable pub keeps_intermediates : SMap String → Bool
unfolding get_property
keeps_intermediates properties =
    let propval = get_property properties "keep_intermediates" in
    str_eq propval "yes" || str_eq propval "true"

-- The map of a plan: `artifacts_[plan_uuid]` makes an empty one where there is none.
unfoldable pub plan_map : String → SMap (SMap ArtifactRegistry) → SMap ArtifactRegistry
unfolding find
plan_map plan_uuid artifacts = elim (find plan_uuid artifacts) [ none ↦ [] | some m ↦ m ]

unfoldable pub enter :
    String → String → ArtifactRegistry → SMap (SMap ArtifactRegistry) → SMap (SMap ArtifactRegistry)
unfolding plan_map assign
enter plan_uuid name ar artifacts =
    assign plan_uuid (assign name ar (plan_map plan_uuid artifacts)) artifacts

unfoldable pub allocate_artifact_registry :
    String → String → SMap (SMap ArtifactRegistry) → ArtifactRegistry
unfolding plan_map find
allocate_artifact_registry plan_uuid name artifacts =
    elim (find name (plan_map plan_uuid artifacts)) [
      | none ↦ record { install_count = 0; versions = [] }
      | some ar ↦ ar
    ]

-- The loop over the execution parameters; one that holds no text is ignored.
unfoldable artifact_properties :
    {Any : Type 0} → (Any → Option String) → Properties Any → SMap String → SMap String
unfolding assign
artifact_properties extract [] properties = properties
artifact_properties extract (property ∷ rest) properties =
    artifact_properties extract rest (elim (extract property.value) [
      | none ↦ properties
      | some prop_val ↦ assign property.name prop_val properties
    ])

module _ {W : Type 0} (handlers : SMap (InstallationHandler W)) (plan_uuid : String) where
  unfoldable pub install_i :
      String → String → SMap String → W → Option (Option ExceptionInfo × String × W)
  unfolding find
  install_i protocol location properties w = elim (find protocol handlers) [
    | none ↦ none
    | some handler ↦ some (handler.install plan_uuid location properties w)
  ]

  -- The loop over the protocol stack, its top first.
  unfoldable pub install_protocols :
      SMap String
      → List String
      → String
      → List Version
      → W
      → Option ExceptionInfo × List Version × W
  unfolding install_i
  install_protocols properties [] location versions w = (none, versions, w)
  install_protocols properties (protocol ∷ prot_stack) location versions w =
      elim (install_i protocol location properties w) [
        | none ↦ (
          some (record {
            name = plan_uuid;
            reason = str_append "unknown installation protocol " protocol;
          }),
          versions,
          w,
        )
        | some (some ex, installed, w') ↦ (some ex, versions, w')
        | some (none, installed, w') ↦
            install_protocols properties prot_stack installed
              (versions ++ record { protocol = protocol; location = installed } ∷ []) w'
      ]

  -- The call of the handler of a version, if there is one.
  unfoldable pub remove_version : Version → W → W
  unfolding find
  remove_version version w = elim (find version.protocol handlers) [
    | none ↦ w
    | some handler ↦ handler.remove plan_uuid version.location w
  ]

  unfoldable pub remove_intermediates : List Version → W → List Version × W
  unfolding remove_version
  remove_intermediates [] w = ([], w)
  remove_intermediates (version ∷ []) w = (version ∷ [], w)
  remove_intermediates (version ∷ next ∷ versions) w =
      remove_intermediates (next ∷ versions) (remove_version version w)

  -- The loop of `remove_i`, which leaves the versions of the registry as they are.
  unfoldable pub remove_i : List Version → W → W
  unfolding remove_version
  remove_i [] w = w
  remove_i (version ∷ versions) w =
      remove_i versions (if is_empty version.protocol then w else remove_version version w)

  -- The end of the body: the intermediate versions.
  unfoldable pub settle :
      SMap String
      → Option ExceptionInfo × List Version × W
      → Option ExceptionInfo × List Version × W
  unfolding keeps_intermediates remove_intermediates
  settle properties (some ex, versions, w) = (some ex, versions, w)
  settle properties (none, versions, w) =
      let (last, w') = remove_intermediates versions w in
      if keeps_intermediates properties then (none, versions, w) else (none, last, w')

  -- The `try` block for one location: what it throws, the versions and the world.
  unfoldable pub install_location :
      SMap String → Location → List Version → W → Option ExceptionInfo × List Version × W
  unfolding install_protocols settle
  install_location properties (malformed ex) versions w = (some ex, versions, w)
  install_location properties (parsed location []) versions w =
      (none, versions ++ record { protocol = ""; location = location } ∷ [], w)
  install_location properties (parsed location (protocol ∷ prot_stack)) versions w =
      settle properties (install_protocols properties (protocol ∷ prot_stack) location versions w)

  -- What follows the attempt at one location, with what the alternates after it would give.
  unfoldable pub concluded :
      ArtifactRegistry
      → List String
      → Option ExceptionInfo × List Version × W
      → Option ExceptionInfo × ArtifactRegistry × W
      → Option ExceptionInfo × ArtifactRegistry × W
  unfolding remove_i
  concluded ar locations (none, versions, w) alternate =
      (none, record { install_count = (ar.install_count + 1) % 2 ^ 32; versions = versions }, w)
  concluded ar [] (some ex, versions, w) alternate =
      (some ex, record ar { versions = versions }, remove_i versions w)
  concluded ar (next ∷ locations) (some ex, versions, w) alternate = alternate

  -- The loop over the alternative locations.
  unfoldable pub install_locations :
      SMap String → List String → ArtifactRegistry → W → Option ExceptionInfo × ArtifactRegistry × W
  unfolding parse_uri install_location remove_i concluded
  install_locations properties [] ar w = (none, ar, w)
  install_locations properties (location ∷ locations) ar w =
      let attempt = install_location properties (parse_uri plan_uuid location) ar.versions w in
      let (failure, versions, w') = attempt in
      let left = record ar { versions = versions } in
      concluded ar locations attempt
        (install_locations properties locations left (remove_i versions w'))

  -- The loop of `remove_all`.
  unfoldable pub remove_each : SMap ArtifactRegistry → W → W
  unfolding remove_i
  remove_each [] w = w
  remove_each ((name, ar) ∷ artifacts_map) w = remove_each artifacts_map (remove_i ar.versions w)

unfoldable pub install :
    {W Any : Type 0}
    → (Any → Option String)
    → String
    → ArtifactDescription Any
    → ArtifactInstallation W
    → W
    → Option ExceptionInfo × ArtifactInstallation W × W
unfolding allocate_artifact_registry enter artifact_properties install_locations
install extract plan_uuid artifact s w =
    let ar = allocate_artifact_registry plan_uuid artifact.name s.artifacts in
    let properties = artifact_properties extract artifact.exec_parameter [] in
    let again = record ar { install_count = (ar.install_count + 1) % 2 ^ 32 } in
    let (failure, after, w') =
      install_locations s.handlers plan_uuid properties artifact.location ar w in
    if ltb 0 ar.install_count
    then (none, record s { artifacts = enter plan_uuid artifact.name again s.artifacts }, w)
    else (failure, record s { artifacts = enter plan_uuid artifact.name after s.artifacts }, w')

-- What is there, and the registries: where the artifact is there, the map of its plan is too, and
-- `artifacts_[plan_uuid]` adds nothing.
unfoldable pub lock_artifact_registry :
    String
    → String
    → SMap (SMap ArtifactRegistry)
    → Option ArtifactRegistry × SMap (SMap ArtifactRegistry)
unfolding plan_map find assign
lock_artifact_registry plan_uuid name artifacts =
    let plan = plan_map plan_uuid artifacts in
    elim (find name plan) [
      | none ↦ (none, assign plan_uuid plan artifacts)
      | some ar ↦ (some ar, artifacts)
    ]

-- From the locked registry on: the registry where it is erased.
unfoldable pub remove_artifact_registry :
    String
    → String
    → ArtifactRegistry
    → SMap (SMap ArtifactRegistry)
    → Option ArtifactRegistry × SMap (SMap ArtifactRegistry)
unfolding plan_map assign enter erase
remove_artifact_registry plan_uuid name ar artifacts =
    let less = record ar { install_count = ar.install_count - 1 } in
    if not (ltb 0 ar.install_count)
    then (none, artifacts)
    else if less.install_count == 0
    then (some less, assign plan_uuid (erase name (plan_map plan_uuid artifacts)) artifacts)
    else (none, enter plan_uuid name less artifacts)

module _ {W : Type 0} (plan_uuid : String) (s : ArtifactInstallation W) (w : W) where
  -- The versions of a registry that is erased are removed.
  unfoldable pub remove_erased :
      Option ArtifactRegistry × SMap (SMap ArtifactRegistry)
      → Option ExceptionInfo × ArtifactInstallation W × W
  unfolding remove_i
  remove_erased (none, artifacts) = (none, record s { artifacts = artifacts }, w)
  remove_erased (some ar, artifacts) =
      (none, record s { artifacts = artifacts }, remove_i s.handlers plan_uuid ar.versions w)

  -- From what `lock_artifact_registry` gives on; it throws for an artifact that is not there.
  unfoldable pub remove_locked :
      String
      → Option ArtifactRegistry × SMap (SMap ArtifactRegistry)
      → Option ExceptionInfo × ArtifactInstallation W × W
  unfolding remove_artifact_registry remove_erased
  remove_locked name (none, artifacts) = (
    some (record { name = plan_uuid; reason = str_append "unknown artifact " name }),
    record s { artifacts = artifacts },
    w,
  )
  remove_locked name (some ar, artifacts) =
      remove_erased (remove_artifact_registry plan_uuid name ar artifacts)

unfoldable pub remove :
    {W : Type 0}
    → String
    → String
    → ArtifactInstallation W
    → W
    → Option ExceptionInfo × ArtifactInstallation W × W
unfolding lock_artifact_registry remove_locked
remove plan_uuid name s w =
    remove_locked plan_uuid s w name (lock_artifact_registry plan_uuid name s.artifacts)

unfoldable pub remove_all :
    {W : Type 0} → String → ArtifactInstallation W → W → ArtifactInstallation W × W
unfolding find erase remove_each
remove_all plan_uuid s w = elim (find plan_uuid s.artifacts) [
  | none ↦ (s, w)
  | some artifacts_map ↦ (
    record s { artifacts = erase plan_uuid s.artifacts },
    remove_each s.handlers plan_uuid artifacts_map w,
  )
]

-- The location of the last version; none where there is none to read.
unfoldable pub last_location : List Version → Option String
last_location [] = none
last_location (version ∷ []) = some version.location
last_location (version ∷ next ∷ versions) = last_location (next ∷ versions)

-- `none` where `back` is called on an empty vector.
unfoldable pub get_artifact_location :
    {W : Type 0} → String → String → ArtifactInstallation W → Option String
unfolding find last_location
get_artifact_location plan_uuid artifact_name s = elim (find plan_uuid s.artifacts) [
  | none ↦ some ""
  | some m ↦ elim (find artifact_name m) [ none ↦ some "" | some ar ↦ last_location ar.versions ]
]

-- The parameter is the pointer, null or not.
unfoldable register_handler :
    {W : Type 0} → Option (InstallationHandler W) → ArtifactInstallation W → ArtifactInstallation W
unfolding assign
register_handler none s = s
register_handler (some aih) s = record s { handlers = assign aih.protocol_prefix aih s.handlers }

-- `none` where the iterator behind the last entry is read.
unfoldable deregister_handler :
    {W : Type 0}
    → Option (InstallationHandler W)
    → ArtifactInstallation W
    → Option (ArtifactInstallation W)
unfolding find erase
deregister_handler none s = some s
deregister_handler (some aih) s = elim (find aih.protocol_prefix s.handlers) [
  | none ↦ none
  | some registered ↦
      if registered.pointer == aih.pointer
      then some (record s { handlers = erase aih.protocol_prefix s.handlers })
      else some s
]

unfoldable handlers_available : {W : Type 0} → ArtifactInstallation W → Bool
handlers_available s = elim s.handlers [ [] ↦ false | _ ∷ _ ↦ true ]

-- The loops of `initialize` and of `clear`, up to the first exception.
unfoldable initialize : {W : Type 0} → SMap (InstallationHandler W) → W → Option ExceptionInfo × W
initialize [] w = (none, w)
initialize ((prefix, handler) ∷ handlers) w =
    let (failure, w') = handler.initialize w in
    let rest = initialize handlers w' in elim failure [ none ↦ rest | some ex ↦ (some ex, w') ]

unfoldable clear : {W : Type 0} → SMap (InstallationHandler W) → W → Option ExceptionInfo × W
clear [] w = (none, w)
clear ((prefix, handler) ∷ handlers) w =
    let (failure, w') = handler.clear w in
    let rest = clear handlers w' in elim failure [ none ↦ rest | some ex ↦ (some ex, w') ]

-- `map_repository` of the repository manager, where one is installed.
unfoldable map_path :
    {W : Type 0} → Option (String → String → W → W) → String → String → W → Option ExceptionInfo × W
map_path none uuid path w = (
  some (record {
    name = "ArtifactInstallation_Impl::prepare";
    reason = "No InstallationRepositoryManager implementation installed.";
  }),
  w,
)
map_path (some map_repository) uuid path w = (none, map_repository uuid path w)

unfoldable prepare :
    {W Any : Type 0}
    → (Any → Option String)
    → Option (String → String → W → W)
    → DeploymentPlan Any
    → W
    → Option ExceptionInfo × W
unfolding get_property_value map_path
prepare extract repoman plan w =
    let (found, plan_repopath) =
      get_property_value extract "nl.remedy.it.DnCX11.ArtifactRepo.Path" plan.info_property "" in
    if found then map_path repoman plan.uuid plan_repopath w else (none, w)
