-- ===== src/ArtifactInstallation/Counting.antt =====
-- The installations and removals of an artifact that is installed are counted.
use dancex.Prelude.{
  ℕ, ◌+◌, ◌-◌, ◌%◌, ◌^◌, ◌<◌, List, [], ◌∷◌, Option, none, some, true, false, String, ◌≡◌, refl, ap,
  ◌∙◌, subst, sym, arith, All, str_eq, str_eq_refl, ◌&&◌, ltb, ◌==◌,
}
use dancex.StringMap.{SMap, find, assign, erase}
use dancex.StringMap.Laws.{find-assign}
use dancex.StringMap.Order.{IsSorted, assign-IsSorted, find-erase}
use dancex.Utility.Exceptions.{ExceptionInfo}
use dancex.ArtifactInstallation.{
  ArtifactInstallation, ArtifactDescription, ArtifactRegistry, allocate_artifact_registry, enter,
  install, plan_map, remove, remove_i, remove_erased, remove_locked, lock_artifact_registry,
  remove_artifact_registry,
}
use dancex.ArtifactInstallation.Attempts.{registered, find-enter}

-- The calls for one artifact of one plan.
pub data Request : Type 0 where
  install_request remove_request : Request

-- From the count `c`, the requests lead to `d`; it stays above 0 and below 2 ^ 32.
abbrev pub Counts : ℕ → List Request → ℕ → Type 0
Counts c [] d = c ≡ d
Counts c (install_request ∷ requests) d = (c + 1 < 2 ^ 32) × Counts (c + 1) requests d
Counts c (remove_request ∷ requests) d = (1 < c) × Counts (c - 1) requests d

-- `t` differs from `s` in the count of the artifact alone.
abbrev pub OnlyCounted :
    {W : Type 0}
    → String
    → String
    → ArtifactRegistry
    → ℕ
    → ArtifactInstallation W
    → ArtifactInstallation W
    → Type 0
OnlyCounted plan_uuid name ar count s t =
    (registered plan_uuid name t ≡ some (record ar { install_count = count }))
    × ((u n : String)
        → str_eq plan_uuid u && str_eq name n ≡ false
        → registered u n t ≡ registered u n s)
    × (t.handlers ≡ s.handlers)
    × (IsSorted (plan_map plan_uuid s.artifacts) → IsSorted (plan_map plan_uuid t.artifacts))

plan_map-assign :
    (plan_uuid : String) (m : SMap ArtifactRegistry) (artifacts : SMap (SMap ArtifactRegistry))
    → plan_map plan_uuid (assign plan_uuid m artifacts) ≡ m
unfolding plan_map
plan_map-assign plan_uuid m artifacts =
    rw (find-assign plan_uuid plan_uuid m artifacts, str_eq_refl plan_uuid, plan_map) refl

plan_map-enter :
    (plan_uuid name : String) (ar : ArtifactRegistry) (artifacts : SMap (SMap ArtifactRegistry))
    → plan_map plan_uuid (enter plan_uuid name ar artifacts)
      ≡ assign name ar (plan_map plan_uuid artifacts)
unfolding enter
plan_map-enter plan_uuid name ar artifacts = plan_map-assign plan_uuid _ artifacts

module _ {W Any : Type 0} (extract : Any → Option String) (plan_uuid : String)
    (artifact : ArtifactDescription Any) where
  -- One call after the other, with what each throws.
  unfoldable pub serve :
      List Request
      → ArtifactInstallation W
      → W
      → List (Option ExceptionInfo) × ArtifactInstallation W × W
  unfolding install remove
  serve [] s w = ([], s, w)
  serve (install_request ∷ requests) s w =
      let (failure, t, v) = install extract plan_uuid artifact s w in
      let (failures, after, last) = serve requests t v in (failure ∷ failures, after, last)
  serve (remove_request ∷ requests) s w =
      let (failure, t, v) = remove plan_uuid artifact.name s w in
      let (failures, after, last) = serve requests t v in (failure ∷ failures, after, last)

  entered : ArtifactRegistry → ℕ → ArtifactInstallation W → ArtifactInstallation W
  entered ar count s = record s {
    artifacts = enter plan_uuid artifact.name (record ar { install_count = count }) s.artifacts;
  }

  entered-OnlyCounted :
      (ar : ArtifactRegistry) (count : ℕ) (s : ArtifactInstallation W)
      → OnlyCounted plan_uuid artifact.name ar count s (entered ar count s)
  unfolding entered
  entered-OnlyCounted ar count s = (
    find-enter plan_uuid artifact.name plan_uuid artifact.name _ s.artifacts
        ∙ rw (str_eq_refl plan_uuid, str_eq_refl artifact.name) refl,
    λ u n h. find-enter plan_uuid artifact.name u n _ s.artifacts ∙ rw h refl,
    refl,
    λ sorted.
        subst IsSorted (sym (plan_map-enter plan_uuid artifact.name _ s.artifacts))
          (assign-IsSorted artifact.name _ (plan_map plan_uuid s.artifacts) sorted),
  )

  then_OnlyCounted :
      (ar : ArtifactRegistry) (count next : ℕ) (s t : ArtifactInstallation W)
      → OnlyCounted plan_uuid artifact.name ar count s t
      → OnlyCounted plan_uuid artifact.name ar next s
          (entered (record ar { install_count = count }) next t)
  then_OnlyCounted ar count next s t (found, others, handlers, sorted) =
      let (found', others', handlers', sorted') =
        entered-OnlyCounted (record ar { install_count = count }) next t in
      (found', λ u n h. others' u n h ∙ others u n h, handlers' ∙ handlers, λ x. sorted' (sorted x))

  install-again :
      (ar : ArtifactRegistry) (s : ArtifactInstallation W) (w : W)
      → registered plan_uuid artifact.name s ≡ some ar
      → 0 < ar.install_count
      → ar.install_count + 1 < 2 ^ 32
      → install extract plan_uuid artifact s w ≡ (none, entered ar (ar.install_count + 1) s, w)
  unfolding install allocate_artifact_registry entered
  install-again ar s w h p b =
      let l : ltb 0 ar.install_count ≡ true = ground arith in
      let m : (ar.install_count + 1) % 2 ^ 32 ≡ ar.install_count + 1 = omega arith in
      rw (h, allocate_artifact_registry, install, l, m) refl

  lock-registered :
      (ar : ArtifactRegistry) (s : ArtifactInstallation W)
      → registered plan_uuid artifact.name s ≡ some ar
      → lock_artifact_registry plan_uuid artifact.name s.artifacts ≡ (some ar, s.artifacts)
  unfolding lock_artifact_registry
  lock-registered ar s h = rw (h, lock_artifact_registry) refl

  -- A removal of an artifact that is there, by what becomes of its registry.
  remove-registered :
      (ar : ArtifactRegistry) (s : ArtifactInstallation W) (w : W)
      (erased : Option ArtifactRegistry × SMap (SMap ArtifactRegistry))
      → registered plan_uuid artifact.name s ≡ some ar
      → remove_artifact_registry plan_uuid artifact.name ar s.artifacts ≡ erased
      → remove plan_uuid artifact.name s w ≡ remove_erased plan_uuid s w erased
  unfolding remove remove_locked
  remove-registered ar s w erased h e =
      ap (remove_locked plan_uuid s w artifact.name) (lock-registered ar s h)
      ∙ ap (remove_erased plan_uuid s w) e

  remove-less :
      (ar : ArtifactRegistry) (s : ArtifactInstallation W) (w : W)
      → registered plan_uuid artifact.name s ≡ some ar
      → 1 < ar.install_count
      → remove plan_uuid artifact.name s w ≡ (none, entered ar (ar.install_count - 1) s, w)
  unfolding remove_artifact_registry remove_erased entered
  remove-less ar s w h p =
      let l : ltb 0 ar.install_count ≡ true = ground arith in
      let m : (ar.install_count - 1 == 0) ≡ false = ground arith in
      remove-registered ar s w
        (
          none,
          enter plan_uuid artifact.name (record ar { install_count = ar.install_count - 1 })
              s.artifacts,
        )
        h (rw (l, m, remove_artifact_registry) refl)

  abbrev Served :
      ArtifactRegistry
      → ℕ
      → ArtifactInstallation W
      → W
      → List (Option ExceptionInfo) × ArtifactInstallation W × W
      → Type 0
  Served ar count s w (failures, t, v) =
      All (λ failure. failure ≡ none) failures
      × OnlyCounted plan_uuid artifact.name ar count s t
      × (v ≡ w)

  abbrev one_more :
      Option ExceptionInfo
      → List (Option ExceptionInfo) × ArtifactInstallation W × W
      → List (Option ExceptionInfo) × ArtifactInstallation W × W
  one_more failure (failures, t, v) = (failure ∷ failures, t, v)

  serve-Served :
      (ar : ArtifactRegistry) (s : ArtifactInstallation W) (w : W) (c d : ℕ)
      (requests : List Request) (t : ArtifactInstallation W)
      → 0 < c
      → Counts c requests d
      → OnlyCounted plan_uuid artifact.name ar c s t
      → Served ar d s w (serve requests t w)
  unfolding serve
  serve-Served ar s w c d [] t p counts h =
      (tt, subst (λ k. OnlyCounted plan_uuid artifact.name ar k s t) counts h, refl)
  serve-Served ar s w c d (install_request ∷ requests) t p (b, counts) h =
      let counted = record ar { install_count = c } in
      let (failures, after, v) =
        serve-Served ar s w (c + 1) d requests (entered counted (c + 1) t) (omega arith) counts
          (then_OnlyCounted ar c (c + 1) s t h) in
      rw (install-again counted t w h.0 p b, serve) ((refl, failures), after, v)
  serve-Served ar s w c d (remove_request ∷ requests) t p (b, counts) h =
      let counted = record ar { install_count = c } in
      let (failures, after, v) =
        serve-Served ar s w (c - 1) d requests (entered counted (c - 1) t) (omega arith) counts
          (then_OnlyCounted ar c (c - 1) s t h) in
      rw (remove-less counted t w h.0 b, serve) ((refl, failures), after, v)

  -- For an artifact that is registered with a count above 0, requests to install and to remove it
  -- that keep the count above 0 and below 2 ^ 32 throw nothing, leave the world as it is, and
  -- change nothing of what is registered, for any plan and any artifact, but the count of this
  -- one, which becomes what the requests lead it to.
  serve-counted :
      (ar : ArtifactRegistry) (s : ArtifactInstallation W) (w : W) (d : ℕ) (requests : List Request)
      → registered plan_uuid artifact.name s ≡ some ar
      → 0 < ar.install_count
      → Counts ar.install_count requests d
      → let (failures, t, v) = serve requests s w in
        All (λ failure. failure ≡ none) failures
        × OnlyCounted plan_uuid artifact.name ar d s t
        × (v ≡ w)
  serve-counted ar s w d requests h p counts =
      serve-Served ar s w ar.install_count d requests s p counts (h, λ u n e. refl, refl, λ x. x)

  remove-last :
      (ar : ArtifactRegistry) (s : ArtifactInstallation W) (w : W)
      → registered plan_uuid artifact.name s ≡ some ar
      → ar.install_count ≡ 1
      → IsSorted (plan_map plan_uuid s.artifacts)
      → let (failure, t, v) = remove plan_uuid artifact.name s w in
        (failure ≡ none)
        × (registered plan_uuid artifact.name t ≡ none)
        × (v ≡ remove_i s.handlers plan_uuid ar.versions w)
  unfolding remove_artifact_registry remove_erased
  remove-last ar s w h c sorted =
      let erased = erase artifact.name (plan_map plan_uuid s.artifacts) in
      let gone : find artifact.name erased ≡ none =
        find-erase artifact.name artifact.name (plan_map plan_uuid s.artifacts) sorted
        ∙ rw (str_eq_refl artifact.name) refl in
      let answer =
        remove-registered ar s w
          (some (record ar { install_count = 0 }), assign plan_uuid erased s.artifacts) h
          (rw (c, remove_artifact_registry) refl) in
      rw answer
        (refl, ap (find artifact.name) (plan_map-assign plan_uuid erased s.artifacts) ∙ gone, refl)

  -- For an artifact that is registered with a count above 0, in a plan whose map is in key order:
  -- requests to install and to remove it that keep the count above 0 and below 2 ^ 32 and lead it
  -- to 1 throw nothing and call no handler, and the removal after them throws nothing, erases the
  -- registry and removes its versions.
  pub serve-removed :
      (ar : ArtifactRegistry) (s : ArtifactInstallation W) (w : W) (requests : List Request)
      → registered plan_uuid artifact.name s ≡ some ar
      → 0 < ar.install_count
      → Counts ar.install_count requests 1
      → IsSorted (plan_map plan_uuid s.artifacts)
      → let (failures, t, v) = serve requests s w in
        let (failure, u, x) = remove plan_uuid artifact.name t v in
        All (λ failure. failure ≡ none) failures
        × (v ≡ w)
        × (registered plan_uuid artifact.name t ≡ some (record ar { install_count = 1 }))
        × (failure ≡ none)
        × (registered plan_uuid artifact.name u ≡ none)
        × (x ≡ remove_i s.handlers plan_uuid ar.versions w)
  serve-removed ar s w requests h p counts sorted =
      let (failures, (found, others, handlers, kept), same) =
        serve-counted ar s w 1 requests h p counts in
      let (_, t, v) = serve requests s w in
      let (quiet, gone, removed) =
        remove-last (record ar { install_count = 1 }) t v found refl (kept sorted) in
      (
        failures,
        same,
        found,
        quiet,
        gone,
        removed ∙ (λ i. remove_i (handlers i) plan_uuid ar.versions (same i)),
      )
