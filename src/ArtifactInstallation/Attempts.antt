-- ===== src/ArtifactInstallation/Attempts.antt =====
-- `ArtifactInstallation_Impl::install` for an artifact that is not installed: the alternative
-- locations, and what is registered.
use mathlib.Core.Option.{none-ne-some}
use dancex.Prelude.{
  List, [], ◌∷◌, ◌++◌, Option, none, some, String, ◌≡◌, refl, ap, ◌∙◌, inl, inr, Defined,
  Bool-cases, Option-cases, str_eq, str_eq_refl, str_eq_iff, ◌&&◌, if◌then◌else◌,
}
use dancex.StringMap.{SMap, find, assign}
use dancex.StringMap.Laws.{find-assign}
use dancex.Utility.Exceptions.{ExceptionInfo}
use dancex.ArtifactInstallation.{
  ArtifactInstallation, ArtifactDescription, ArtifactRegistry, InstallationHandler, Version,
  allocate_artifact_registry, enter, install, install_i, install_location, install_locations,
  install_protocols, last_location, plan_map, remove_intermediates, remove_version, settle,
  get_artifact_location, concluded, keeps_intermediates,
}
use dancex.ArtifactInstallation.Locations.{Location, malformed, parsed, parse_uri}

last_location-append :
    (versions : List Version) (version : Version)
    → last_location (versions ++ version ∷ []) ≡ some version.location
unfolding last_location
last_location-append [] version = refl
last_location-append (first ∷ []) version = refl
last_location-append (first ∷ next ∷ versions) version =
    last_location-append (next ∷ versions) version

abbrev HasLocation : List Version → Type 0
HasLocation versions = Defined (last_location versions)

append-HasLocation :
    (versions : List Version) (version : Version) → HasLocation (versions ++ version ∷ [])
append-HasLocation versions version = (version.location, last_location-append versions version)

-- An attempt that goes through has left a location.
abbrev Located : {W : Type 0} → Option ExceptionInfo × List Version × W → Type 0
Located (none, versions, w) = HasLocation versions
Located (some ex, versions, w) = Unit

module _ {W : Type 0} (handlers : SMap (InstallationHandler W)) (plan_uuid : String) where
  last_location-remove_intermediates :
      (versions : List Version) (w : W)
      → last_location (remove_intermediates handlers plan_uuid versions w).0
        ≡ last_location versions
  unfolding last_location remove_intermediates
  last_location-remove_intermediates [] w = refl
  last_location-remove_intermediates (version ∷ []) w = refl
  last_location-remove_intermediates (version ∷ next ∷ versions) w =
      last_location-remove_intermediates (next ∷ versions)
        (remove_version handlers plan_uuid version w)

  install_protocols-Located :
      (properties : SMap String) (prot_stack : List String) (location : String)
      (versions : List Version) (w : W)
      → HasLocation versions
      → Located (install_protocols handlers plan_uuid properties prot_stack location versions w)
  unfolding install_protocols
  install_protocols-Located properties [] location versions w h = h
  install_protocols-Located properties (protocol ∷ prot_stack) location versions w h =
      elim (Option-cases (install_i handlers plan_uuid protocol location properties w)) [
        | inl e ↦ rw (e, install_protocols) tt
        | inr ((some ex, installed, w'), e) ↦ rw (e, install_protocols) tt
        | inr ((none, installed, w'), e) ↦
            rw (e, install_protocols)
              (install_protocols-Located properties prot_stack installed
                (versions ++ record { protocol = protocol; location = installed } ∷ []) w'
                (append-HasLocation versions _))
      ]

  stack-Located :
      (properties : SMap String) (protocol : String) (prot_stack : List String) (location : String)
      (versions : List Version) (w : W)
      → Located (
          install_protocols handlers plan_uuid properties
            (protocol ∷ prot_stack)
            location
            versions
            w)
  unfolding install_protocols
  stack-Located properties protocol prot_stack location versions w =
      elim (Option-cases (install_i handlers plan_uuid protocol location properties w)) [
        | inl e ↦ rw (e, install_protocols) tt
        | inr ((some ex, installed, w'), e) ↦ rw (e, install_protocols) tt
        | inr ((none, installed, w'), e) ↦
            rw (e, install_protocols)
              (install_protocols-Located properties prot_stack installed
                (versions ++ record { protocol = protocol; location = installed } ∷ []) w'
                (append-HasLocation versions _))
      ]

  settle-Located :
      (properties : SMap String) (installed : Option ExceptionInfo × List Version × W)
      → Located installed
      → Located (settle handlers plan_uuid properties installed)
  unfolding settle
  settle-Located properties (some ex, versions, w) h = tt
  settle-Located properties (none, versions, w) h =
      elim (Bool-cases (keeps_intermediates properties)) [
        | inl e ↦ rw (e, settle) h
        | inr e ↦ rw (e, settle) (h.0, last_location-remove_intermediates versions w ∙ h.1)
      ]

  install_location-Located :
      (properties : SMap String) (location : Location) (versions : List Version) (w : W)
      → Located (install_location handlers plan_uuid properties location versions w)
  unfolding install_location
  install_location-Located properties (malformed ex) versions w = tt
  install_location-Located properties (parsed location []) versions w =
      append-HasLocation versions _
  install_location-Located properties (parsed location (protocol ∷ prot_stack)) versions w =
      settle-Located properties _ (stack-Located properties protocol prot_stack location versions w)

  -- How the loop over the locations ends, for an artifact that is not installed.
  abbrev Attempted : Option ExceptionInfo × ArtifactRegistry × W → Type 0
  Attempted (none, ar, w) = (ar.install_count ≡ 1) × HasLocation ar.versions
  Attempted (some ex, ar, w) = ar.install_count ≡ 0

  last-Attempted :
      (ar : ArtifactRegistry) (attempt : Option ExceptionInfo × List Version × W)
      (alternate : Option ExceptionInfo × ArtifactRegistry × W)
      → ar.install_count ≡ 0
      → Located attempt
      → Attempted (concluded handlers plan_uuid ar [] attempt alternate)
  unfolding concluded
  last-Attempted ar (none, versions, w) alternate h l = (rw h refl, l)
  last-Attempted ar (some ex, versions, w) alternate h l = h

  next-Attempted :
      (ar : ArtifactRegistry) (location : String) (locations : List String)
      (attempt : Option ExceptionInfo × List Version × W)
      (alternate : Option ExceptionInfo × ArtifactRegistry × W)
      → ar.install_count ≡ 0
      → Located attempt
      → Attempted alternate
      → Attempted (concluded handlers plan_uuid ar (location ∷ locations) attempt alternate)
  unfolding concluded
  next-Attempted ar location locations (none, versions, w) alternate h l a = (rw h refl, l)
  next-Attempted ar location locations (some ex, versions, w) alternate h l a = a

  install_locations-Attempted :
      (properties : SMap String) (location : String) (locations : List String)
      (ar : ArtifactRegistry) (w : W)
      → ar.install_count ≡ 0
      → Attempted (install_locations handlers plan_uuid properties (location ∷ locations) ar w)
  unfolding install_locations
  install_locations-Attempted properties location [] ar w h =
      last-Attempted ar _ _ h
        (install_location-Located properties (parse_uri plan_uuid location) ar.versions w)
  install_locations-Attempted properties location (next ∷ locations) ar w h =
      next-Attempted ar next locations _ _ h
        (install_location-Located properties (parse_uri plan_uuid location) ar.versions w)
        (install_locations-Attempted properties next locations _ _ h)

-- What is registered for an artifact of a plan.
abbrev pub registered :
    {W : Type 0} → String → String → ArtifactInstallation W → Option ArtifactRegistry
registered plan_uuid name s = find name (plan_map plan_uuid s.artifacts)

pub find-enter :
    (plan_uuid name u n : String) (ar : ArtifactRegistry) (artifacts : SMap (SMap ArtifactRegistry))
    → find n (plan_map u (enter plan_uuid name ar artifacts))
      ≡ (if str_eq plan_uuid u && str_eq name n then some ar else find n (plan_map u artifacts))
unfolding plan_map enter
find-enter plan_uuid name u n ar artifacts = elim (Bool-cases (str_eq plan_uuid u)) [
  | inl e ↦
      rw
        (
          find-assign plan_uuid u (assign name ar (plan_map plan_uuid artifacts)) artifacts,
          e,
          plan_map,
        )
        (find-assign name n ar (plan_map plan_uuid artifacts)
          ∙ ap (λ t. if str_eq name n then some ar else find n (plan_map t artifacts))
              ((str_eq_iff plan_uuid u).0 e))
  | inr e ↦
      rw
        (
          find-assign plan_uuid u (assign name ar (plan_map plan_uuid artifacts)) artifacts,
          e,
          plan_map,
        )
        refl
]

find-entered :
    (plan_uuid name : String) (ar : ArtifactRegistry) (artifacts : SMap (SMap ArtifactRegistry))
    → find name (plan_map plan_uuid (enter plan_uuid name ar artifacts)) ≡ some ar
find-entered plan_uuid name ar artifacts =
    find-enter plan_uuid name plan_uuid name ar artifacts
    ∙ rw (str_eq_refl plan_uuid, str_eq_refl name) refl

registered-location :
    {W : Type 0} (plan_uuid name : String) (s : ArtifactInstallation W) (ar : ArtifactRegistry)
    → registered plan_uuid name s ≡ some ar
    → get_artifact_location plan_uuid name s ≡ last_location ar.versions
unfolding plan_map get_artifact_location find
registered-location plan_uuid name s ar h = elim (Option-cases (find plan_uuid s.artifacts)) [
  | inl e ↦ absurd (none-ne-some ar (rw (e, plan_map, find) at h))
  | inr (m, e) ↦
      let found : find name m ≡ some ar = rw (e, plan_map) at h in
      rw (e, get_artifact_location, found)
]

-- What an installation leaves.
abbrev pub Installs :
    {W : Type 0} → String → String → Option ExceptionInfo → ArtifactInstallation W → Type 0
Installs plan_uuid name none s =
    (ar : ArtifactRegistry) × (registered plan_uuid name s ≡ some ar)
    × (ar.install_count ≡ 1)
    × Defined (get_artifact_location plan_uuid name s)
Installs plan_uuid name (some ex) s =
    (ar : ArtifactRegistry) × (registered plan_uuid name s ≡ some ar) × (ar.install_count ≡ 0)

entered-Installs :
    {W : Type 0} (handlers : SMap (InstallationHandler W)) (plan_uuid name : String)
    (s : ArtifactInstallation W) (result : Option ExceptionInfo × ArtifactRegistry × W)
    → Attempted handlers plan_uuid result
    → Installs plan_uuid name result.0
        (record s { artifacts = enter plan_uuid name result.1 s.artifacts })
entered-Installs handlers plan_uuid name s (none, ar, w) (c, (t, e)) =
    let found = find-entered plan_uuid name ar s.artifacts in
    (ar, found, c, (t, registered-location plan_uuid name _ ar found ∙ e))
entered-Installs handlers plan_uuid name s (some ex, ar, w) c =
    (ar, find-entered plan_uuid name ar s.artifacts, c)

-- For an artifact with a location whose registry is new or has the count 0: where install throws
-- nothing, the artifact is registered with the count 1 and its location can be read; where it
-- throws, it is registered with the count 0.
pub install-Installs :
    {W Any : Type 0} (extract : Any → Option String) (plan_uuid location : String)
    (locations : List String) (artifact : ArtifactDescription Any) (s : ArtifactInstallation W)
    (w : W)
    → artifact.location ≡ location ∷ locations
    → (allocate_artifact_registry plan_uuid artifact.name s.artifacts).install_count ≡ 0
    → let (failure, after, w') = install extract plan_uuid artifact s w in
      Installs plan_uuid artifact.name failure after
unfolding install
install-Installs extract plan_uuid location locations artifact s w l h =
    rw (h, l, install)
      (entered-Installs s.handlers plan_uuid artifact.name s _
        (install_locations-Attempted s.handlers plan_uuid _ location locations _ w h))
