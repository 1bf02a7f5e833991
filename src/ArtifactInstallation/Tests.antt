-- ===== src/ArtifactInstallation/Tests.antt =====
-- Instances of the theorems about the installation of artifacts.
use dancex.Prelude.{ℕ, ◌+◌, List, [], ◌∷◌, none, some, String, ◌≡◌, refl, arith, All, str_append}
use dancex.StringMap.{find}
use dancex.ArtifactInstallation.{
  ArtifactInstallation, ArtifactDescription, ArtifactRegistry, InstallationHandler, install, remove,
  remove_i, allocate_artifact_registry, plan_map,
}
use dancex.ArtifactInstallation.Locations.{HasNoColon, parsed, parse_uri, parse_uri-uri}
use dancex.ArtifactInstallation.Attempts.{Installs, registered, install-Installs}
use dancex.ArtifactInstallation.Counting.{
  Request, install_request, remove_request, Counts, serve, serve-removed,
}

-- A handler that counts its calls: an installation as 1, a removal as 100.
abbrev copying : InstallationHandler ℕ
copying = record {
  pointer = 1;
  protocol_prefix = "file";
  initialize = λ w. (none, w);
  clear = λ w. (none, w);
  install = λ plan_uuid location properties w. (none, str_append "/repository/" location, w + 1);
  remove = λ plan_uuid location w. w + 100;
}

abbrev artifact : ArtifactDescription String
artifact = record {
  name = "library";
  location = "ftp://library.so" ∷ "file://library.so" ∷ [];
  exec_parameter = [];
}

abbrev empty : ArtifactInstallation ℕ
empty = record { artifacts = []; handlers = ("file", copying) ∷ [] }

abbrev installed : ArtifactRegistry
installed = record {
  install_count = 1;
  versions = record { protocol = "file"; location = "/repository/library.so" } ∷ [];
}

abbrev one_installed : ArtifactInstallation ℕ
one_installed = record {
  artifacts = ("plan", ("library", installed) ∷ []) ∷ [];
  handlers = ("file", copying) ∷ [];
}

abbrev requests : List Request
requests = install_request ∷ install_request ∷ remove_request ∷ remove_request ∷ []

abbrev http-HasNoColon : HasNoColon "http"
http-HasNoColon = (refl, (refl, (refl, (refl, tt))))

abbrev zip-HasNoColon : HasNoColon "zip"
zip-HasNoColon = (refl, (refl, (refl, tt)))

abbrev requests-Counts : Counts 1 requests 1
requests-Counts = (omega arith, (omega arith, (omega arith, (omega arith, refl))))

-- The first location has a protocol without a handler, and the second is taken.
install_alternate : (install some "plan" artifact empty 0).1 ≡ one_installed
unfolding install
install_alternate = refl

parse_uri-uri_example : parse_uri "plan" "http:zip://zip" ≡ parsed "zip" ("zip" ∷ "http" ∷ [])
parse_uri-uri_example =
    parse_uri-uri "plan" "zip" "http" ("zip" ∷ [])
      ((http-HasNoColon, refl), ((zip-HasNoColon, refl), tt)) zip-HasNoColon

install-Installs_example :
    let (failure, after, w) = install some "plan" artifact empty 0 in
    Installs "plan" "library" failure after
unfolding allocate_artifact_registry
install-Installs_example =
    install-Installs some "plan" "ftp://library.so" ("file://library.so" ∷ []) artifact empty 0 refl
      refl

serve-removed_example :
    let (failures, t, v) = serve some "plan" artifact requests one_installed 5 in
    let (failure, u, w) = remove "plan" "library" t v in
    All (λ answer. answer ≡ none) failures
    × (v ≡ 5)
    × (registered "plan" "library" t ≡ some installed)
    × (failure ≡ none)
    × (registered "plan" "library" u ≡ none)
    × (w ≡ 105)
unfolding find plan_map remove_i
serve-removed_example =
    serve-removed some "plan" artifact installed one_installed 5 requests refl (omega arith)
      requests-Counts (tt, tt)
