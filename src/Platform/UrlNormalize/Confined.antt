-- ===== src/Platform/UrlNormalize/Confined.antt =====
-- What a URL is that the compiled scope allows (platform/url_normalize.py, core/scope_compiler.py).
use mathlib.Core.Path.{subst}
use research_os.Common.{
  ℕ, Bool, true, false, Option, none, some, ◌≡◌, ◌≢◌, refl, ap, sym, ◌⊎◌, inl, inr, Some,
  Bool-cases, if◌then◌else◌,
}
use research_os.Common.Text.{Text, codes, text_eq, text_eq_iff, is_blank, lower}
use research_os.Core.Enums.{ScopeDecision}
use research_os.Core.ScopeCompiler.{ScopeCandidate, CompiledScope, evaluate_scope_candidate}
use research_os.Core.ScopeCompiler.Evaluation.{Allows, evaluate_scope_candidate-allow_iff}
use research_os.Platform.UrlNormalize.{
  SplitResult, Libraries, error_candidate, with_path, default_port, or_slash, port_or,
  scope_match_path_of, normalize_path, normalize_host, normalize_scheme, normalize_parts,
  normalize_url, resolved_location, joined_location, resolve_redirect_location,
}
use research_os.Platform.UrlNormalize.Paths.{IsPlain, scope_match_path_of_lem}

abbrev pub IsWeb : Option Text → Type 0
IsWeb scheme = (scheme ≡ some (codes "http")) ⊎ (scheme ≡ some (codes "https"))

-- A candidate with a path to match has a plain one, and the scheme of the web.
record IsSafe (c : ScopeCandidate) : Type 0 where
  found : (path : Text) → c.scope_match_path ≡ some path → IsPlain path × IsWeb c.normalized_scheme

error-IsSafe : (raw code : Text) → IsSafe (error_candidate raw code)
error-IsSafe raw code = record { found = λ path h. cc }

if-IsSafe : (b : Bool) (c d : ScopeCandidate) → IsSafe c → IsSafe d → IsSafe (if b then c else d)
if-IsSafe true c d h k = h
if-IsSafe false c d h k = k

with_path-IsSafe :
    (raw scheme host : Text) (port : ℕ) (raw_path : Text) (o : Option Text)
    → IsWeb (some scheme)
    → ((path : Text) → o ≡ some path → IsPlain path)
    → IsSafe (with_path raw scheme host port raw_path o)
with_path-IsSafe raw scheme host port raw_path none web plain = record { found = λ path h. cc }
with_path-IsSafe raw scheme host port raw_path (some p) web plain = record {
  found = λ path h. (plain path h, web);
}

default_port_lem :
    (scheme : Text) (port : ℕ) → default_port scheme ≡ some port → IsWeb (some scheme)
unfolding default_port
default_port_lem scheme port h = elim (Bool-cases (text_eq scheme (codes "http"))) [
  | inl http ↦ inl (ap some ((text_eq_iff scheme _).0 http))
  | inr other ↦ elim (Bool-cases (text_eq scheme (codes "https"))) [
    | inl https ↦ inr (ap some ((text_eq_iff scheme _).0 https))
    | inr neither ↦ absurd (
        no_port (text_eq scheme (codes "http")) (text_eq scheme (codes "https")) port other neither
          h)
  ]
]
  where
    no_port :
        (a b : Bool) (p : ℕ)
        → a ≡ false
        → b ≡ false
        → (if a then some 80 else if b then some 443 else none) ≢ some p
    no_port true b p x y e = cc
    no_port false true p x y e = cc
    no_port false false p x y e = cc

module _ (lib : Libraries) where
  path-IsSafe :
      (raw scheme host : Text) (parts : SplitResult) (port : Option ℕ)
      → IsWeb (some scheme)
      → IsSafe (normalize_path lib raw scheme host parts port)
  unfolding normalize_path
  path-IsSafe raw scheme host parts none web = error-IsSafe raw (codes "PARSE")
  path-IsSafe raw scheme host parts (some port) web =
      with_path-IsSafe raw scheme host port (or_slash parts.path)
        (scope_match_path_of (or_slash parts.path)) web
        (λ path h. (scope_match_path_of_lem (or_slash parts.path) path h).1)

  host-IsSafe :
      (raw scheme : Text) (default : ℕ) (parts : SplitResult) (host : Option Text) (error : Text)
      → IsWeb (some scheme)
      → IsSafe (normalize_host lib raw scheme default parts (host, error))
  unfolding normalize_host
  host-IsSafe raw scheme default parts none error web = error-IsSafe raw error
  host-IsSafe raw scheme default parts (some host) error web =
      path-IsSafe raw scheme host parts (port_or parts.port default) web

  scheme-IsSafe :
      (raw scheme : Text) (parts : SplitResult) (default : Option ℕ)
      → ((port : ℕ) → default ≡ some port → IsWeb (some scheme))
      → IsSafe (normalize_scheme lib raw scheme parts default)
  unfolding normalize_scheme
  scheme-IsSafe raw scheme parts none web = error-IsSafe raw (codes "PARSE")
  scheme-IsSafe raw scheme parts (some port) web =
      if-IsSafe _ _ _ (error-IsSafe raw (codes "EMPTY_HOST")) (
        if-IsSafe _ _ _ (error-IsSafe raw (codes "WILDCARD"))
          (host-IsSafe raw scheme port parts _ _ (web port refl)))

  parts-IsSafe : (raw : Text) (parts : Option SplitResult) → IsSafe (normalize_parts lib raw parts)
  unfolding normalize_parts
  parts-IsSafe raw none = error-IsSafe raw (codes "PARSE")
  parts-IsSafe raw (some parts) = if-IsSafe _ _ _ (error-IsSafe raw (codes "USERINFO")) (
      scheme-IsSafe raw (lower parts.scheme) parts (default_port (lower parts.scheme))
        (default_port_lem (lower parts.scheme)))

  normalize_url-IsSafe : (raw : Text) → IsSafe (normalize_url lib raw)
  unfolding normalize_url
  normalize_url-IsSafe raw =
      if-IsSafe (is_blank raw) _ _ (error-IsSafe raw (codes "PARSE"))
        (parts-IsSafe raw (lib.urlsplit raw))

  resolved-IsSafe :
      (resolved : Text) (parts : Option SplitResult) → IsSafe (resolved_location lib resolved parts)
  unfolding resolved_location
  resolved-IsSafe resolved none = error-IsSafe resolved (codes "PARSE")
  resolved-IsSafe resolved (some parts) =
      if-IsSafe _ _ _ (error-IsSafe resolved (codes "PARSE")) (normalize_url-IsSafe resolved)

  joined-IsSafe :
      (location : Text) (joined : Option Text) → IsSafe (joined_location lib location joined)
  unfolding joined_location
  joined-IsSafe location none = error-IsSafe location (codes "PARSE")
  joined-IsSafe location (some resolved) = resolved-IsSafe resolved (lib.urlsplit resolved)

  redirect-IsSafe :
      (response_url location : Text) → IsSafe (resolve_redirect_location lib response_url location)
  unfolding resolve_redirect_location
  redirect-IsSafe response_url location =
      if-IsSafe (is_blank response_url) _ _ (error-IsSafe response_url (codes "PARSE"))
        (joined-IsSafe location _)

  -- Whatever urllib, ipaddress and the codecs compute: where the compiled scope allows the candidate of a URL, or that of a
  -- redirect's location, its scheme is http or https, its path to match is plain, and some rule that applies at
  -- this path allows it.
  pub evaluate_scope_candidate-normalize_url :
      (candidate : ScopeCandidate) (raw response_url location : Text) (scope : CompiledScope)
      (now clock : ℕ)
      → (candidate ≡ normalize_url lib raw)
        ⊎ (candidate ≡ resolve_redirect_location lib response_url location)
      → (evaluate_scope_candidate candidate scope (some now) clock).decision ≡ ScopeDecision.allow
      → (path : Text) × (candidate.scope_match_path ≡ some path)
        × IsPlain path
        × IsWeb candidate.normalized_scheme
        × Some (Allows candidate path) scope.rules
  evaluate_scope_candidate-normalize_url candidate raw response_url location scope now clock
        from_url h =
      let (normalized, (path, found, rules)) =
        (evaluate_scope_candidate-allow_iff candidate scope now clock).0 h in
      let safe : IsSafe candidate = elim from_url [
        | inl direct ↦ subst IsSafe (sym direct) (normalize_url-IsSafe raw)
        | inr redirected ↦ subst IsSafe (sym redirected) (redirect-IsSafe response_url location)
      ] in
      let (plain, web) = safe.found path found in (path, found, plain, web, rules.2)
