-- ===== src/ArtifactInstallation/Locations.antt =====
-- `ArtifactInstallation_Impl::parse_uri` of tools/artifact_installation/artifact_installation_impl.cpp:
-- a location is `protocol:protocol:...//path`.
use Prim.Native.String.compare
use text.Mathlib.Text.{is_eq}
use Prim.Native.Char.{Char, code}
use text.Mathlib.TextLemmas.{cons-append, nil-append, append-nil, append_assoc}
use mathlib.Core.List.{reverse, reverse_aux}
use dancex.Prelude.{
  All, sym, List, [], ◌∷◌, Option, none, some, Bool, false, String, if◌then◌else◌, ◌==◌, ◌&&◌,
  str_append, is_empty, ◌≡◌, refl, ◌∙◌, ap,
}
use dancex.Utility.Exceptions.{ExceptionInfo}

-- What it throws, or the path with the protocol stack, the top first.
pub data Location : Type 0 where
  malformed : ExceptionInfo → Location
  parsed : String → List String → Location

abbrev pub is_colon : Char → Bool
is_colon c = code c == 58

abbrev pub malformed_location : String → String → Location
malformed_location plan_uuid location =
    malformed (record { name = plan_uuid; reason = str_append "malformed location " location })

-- The loop: `prot` holds the characters of `loctmp` in front of the rest, none of them a colon. It
-- gives `loctmp` and the stack, or none for a colon at position 0.
unfoldable read_protocols : String → String → List String → Option (String × List String)
read_protocols prot String.[] protstack = some (prot, protstack)
read_protocols prot (String.◌∷◌ c loctmp) protstack =
    let longer = read_protocols (str_append prot (String.◌∷◌ c String.[])) loctmp protstack in
    let next = read_protocols "" loctmp (prot ∷ protstack) in
    if is_colon c then (if is_empty prot then none else next) else longer

-- `loctmp.substr (2)`, where `loctmp` begins with the path separator.
unfoldable pub after_separator : String → Option String
after_separator (String.◌∷◌ c (String.◌∷◌ d path)) =
    if (code c == 47) && (code d == 47) then some path else none
after_separator (String.◌∷◌ c String.[]) = none
after_separator String.[] = none

-- What is made of the answer of the loop.
unfoldable finished : String → String → Option (String × List String) → Location
unfolding after_separator
finished plan_uuid location answer = elim answer [
  | none ↦ malformed_location plan_uuid location
  | some (loctmp, []) ↦ parsed location []
  | some (loctmp, prot ∷ protstack) ↦ elim (after_separator loctmp) [
    | none ↦ malformed_location plan_uuid location
    | some path ↦ parsed path (prot ∷ protstack)
  ]
]

unfoldable pub parse_uri : String → String → Location
unfolding read_protocols finished
parse_uri plan_uuid location = finished plan_uuid location (read_protocols "" location [])

-- The text of a location: the protocols, each with its colon, and what follows them.
abbrev pub uri : List String → String → String
uri [] rest = rest
uri (prot ∷ protocols) rest = str_append prot (str_append ":" (uri protocols rest))

abbrev pub HasNoColon : String → Type 0
HasNoColon String.[] = Unit
HasNoColon (String.◌∷◌ c s) = (is_colon c ≡ false) × HasNoColon s

abbrev pub IsProtocol : String → Type 0
IsProtocol prot = HasNoColon prot × (is_empty prot ≡ false)

read_protocols-longer :
    (c : Char) (prot loctmp : String) (protstack : List String)
    → is_colon c ≡ false
    → read_protocols prot (String.◌∷◌ c loctmp) protstack
      ≡ read_protocols (str_append prot (String.◌∷◌ c String.[])) loctmp protstack
unfolding read_protocols
read_protocols-longer c prot loctmp protstack h = rw (h, read_protocols) refl

read_protocols-next :
    (prot loctmp : String) (protstack : List String)
    → is_empty prot ≡ false
    → read_protocols prot (str_append ":" loctmp) protstack
      ≡ read_protocols "" loctmp (prot ∷ protstack)
unfolding read_protocols
read_protocols-next prot loctmp protstack e =
    ap (λ t. read_protocols prot t protstack)
      (cons-append ":" String.[] loctmp ∙ ap (λ t. String.◌∷◌ ":" t) (nil-append loctmp))
    ∙ rw (e, read_protocols) refl

read_protocols-HasNoColon :
    (s t prot : String) (protstack : List String)
    → HasNoColon s
    → read_protocols prot (str_append s t) protstack
      ≡ read_protocols (str_append prot s) t protstack
read_protocols-HasNoColon String.[] t prot protstack h = rw (nil-append t, append-nil prot) refl
read_protocols-HasNoColon (String.◌∷◌ c s) t prot protstack h =
    ap (λ u. read_protocols prot u protstack) (cons-append c s t)
    ∙ read_protocols-longer c prot (str_append s t) protstack h.0
    ∙ read_protocols-HasNoColon s t (str_append prot (String.◌∷◌ c String.[])) protstack h.1
    ∙ ap (λ u. read_protocols u t protstack)
        (append_assoc prot (String.◌∷◌ c String.[]) s
          ∙ ap (str_append prot)
              (cons-append c String.[] s ∙ ap (λ u. String.◌∷◌ c u) (nil-append s)))

read_protocols-IsProtocol :
    (prot t : String) (protstack : List String)
    → IsProtocol prot
    → read_protocols "" (str_append prot (str_append ":" t)) protstack
      ≡ read_protocols "" t (prot ∷ protstack)
read_protocols-IsProtocol prot t protstack (h, e) =
    read_protocols-HasNoColon prot (str_append ":" t) "" protstack h
    ∙ ap (λ u. read_protocols u (str_append ":" t) protstack) (nil-append prot)
    ∙ read_protocols-next prot t protstack e

read_protocols-uri :
    (protocols : List String) (rest : String) (protstack : List String)
    → All IsProtocol protocols
    → read_protocols "" (uri protocols rest) protstack
      ≡ read_protocols "" rest (reverse_aux protocols protstack)
read_protocols-uri [] rest protstack a = refl
read_protocols-uri (prot ∷ protocols) rest protstack (h, a) =
    read_protocols-IsProtocol prot (uri protocols rest) protstack h
    ∙ read_protocols-uri protocols rest (prot ∷ protstack) a

-- A path without a colon ends the loop.
read_protocols-path :
    (path : String) (protstack : List String)
    → HasNoColon path
    → read_protocols "" path protstack ≡ some (path, protstack)
unfolding read_protocols
read_protocols-path path protstack h =
    ap (λ t. read_protocols "" t protstack) (sym (append-nil path))
    ∙ read_protocols-HasNoColon path String.[] "" protstack h
    ∙ ap (λ t. read_protocols t String.[] protstack) (nil-append path)

after_separator-path : (path : String) → after_separator (str_append "//" path) ≡ some path
unfolding after_separator
after_separator-path path = ap after_separator (
    cons-append "/" "/" path
    ∙ ap (λ t. String.◌∷◌ "/" t)
        (cons-append "/" String.[] path ∙ ap (λ t. String.◌∷◌ "/" t) (nil-append path)))

HasNoColon-append : (s t : String) → HasNoColon s → HasNoColon t → HasNoColon (str_append s t)
HasNoColon-append String.[] t h k = rw (nil-append t) k
HasNoColon-append (String.◌∷◌ c s) t h k = rw (cons-append c s t) (h.0, HasNoColon-append s t h.1 k)

finished-path :
    (plan_uuid location path : String) (protocols : List String) (prot : String)
    (protstack : List String)
    → finished plan_uuid location
        (some (str_append "//" path, reverse_aux protocols (prot ∷ protstack)))
      ≡ parsed path (reverse_aux protocols (prot ∷ protstack))
unfolding finished
finished-path plan_uuid location path [] prot protstack =
    rw (after_separator-path path, finished) refl
finished-path plan_uuid location path (next ∷ protocols) prot protstack =
    finished-path plan_uuid location path protocols next (prot ∷ protstack)

-- A location that is written with one protocol or more, each not empty and without a colon, and a
-- path without a colon, is parsed to that path and the protocols in the reverse order.
pub parse_uri-uri :
    (plan_uuid path prot : String) (protocols : List String)
    → All IsProtocol (prot ∷ protocols)
    → HasNoColon path
    → parse_uri plan_uuid (uri (prot ∷ protocols) (str_append "//" path))
      ≡ parsed path (reverse (prot ∷ protocols))
unfolding parse_uri
parse_uri-uri plan_uuid path prot protocols a h =
    let location = uri (prot ∷ protocols) (str_append "//" path) in
    ap (finished plan_uuid location) (
      read_protocols-uri (prot ∷ protocols) (str_append "//" path) [] a
      ∙ read_protocols-path (str_append "//" path) (reverse_aux protocols (prot ∷ []))
          (HasNoColon-append "//" path (refl, (refl, tt)) h))
    ∙ finished-path plan_uuid location path protocols prot []

-- A location of a protocol, a host and a colon, with a rest that has no colon and does not begin
-- with the path separator, such as a port and a path, is malformed.
parse_uri-port :
    (plan_uuid prot host rest : String)
    → IsProtocol prot
    → HasNoColon host
    → HasNoColon rest
    → after_separator rest ≡ none
    → parse_uri plan_uuid (uri (prot ∷ str_append "//" host ∷ []) rest)
      ≡ malformed_location plan_uuid (uri (prot ∷ str_append "//" host ∷ []) rest)
unfolding parse_uri finished
parse_uri-port plan_uuid prot host rest p h k e =
    let location = uri (prot ∷ str_append "//" host ∷ []) rest in
    let authority : IsProtocol (str_append "//" host) =
      (HasNoColon-append "//" host (refl, (refl, tt)) h, separator-some host) in
    ap (finished plan_uuid location) (
      read_protocols-uri (prot ∷ str_append "//" host ∷ []) rest [] (p, (authority, tt))
      ∙ read_protocols-path rest (str_append "//" host ∷ prot ∷ []) k)
    ∙ rw (e, finished) refl
  where
    separator-some : (t : String) → is_empty (str_append "//" t) ≡ false
    separator-some t =
        ap is_empty (cons-append "/" "/" t) ∙ ap is_eq (compare.cons-nil "/" (str_append "/" t))
