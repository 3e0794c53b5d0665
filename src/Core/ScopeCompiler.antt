-- ===== src/Core/ScopeCompiler.antt =====
-- core/scope_compiler.py: scope rules compiled, and evaluated on a normalized candidate. An aware
-- datetime is its instant, in microseconds from the first one; ports are natural numbers.
pub mod Matching
pub mod Compiled
mod Loop
pub mod Evaluation
use research_os.Common.{
  ℕ, Bool, true, false, not, ◌&&◌, ◌||◌, ℤ, pos, negsuc, Option, none, some, Result, ok, err, List,
  [], ◌∷◌, ◌++◌, map, is_empty, is_some, leb, ◌==◌, guard, ◌>>=◌, ◌>>◌, if◌then◌else◌,
}
use research_os.Common.Text.{
  Text, codes, text_eq, is_space, is_blank, is_nonempty, strip, lower, starts_with, ends_with,
  has_char, drop,
}
use research_os.Core.Enums.{
  ScopeDecision, ScopeClassification, ScopeRuleEffect, ReasonCode, CoreError, core_input_error,
  allowed, scope_denied, scope_userinfo_denied, scope_wildcard_rejected, scope_path_ambiguous,
  scope_normalization_invalid, scope_expired, scope_unknown_classification,
  scope_not_explicitly_allowed,
}
use research_os.Core.Identity.{require_opaque_id}
use research_os.Core.Scope.{ScopeCheck, scope_check, is_exclusion, is_allow}

-- `DEFAULT_SCHEME_PORTS.get(scheme)`
default_scheme_port : Text → Option ℕ
default_scheme_port scheme =
    if text_eq scheme (codes "http")
    then some 80
    else if text_eq scheme (codes "https")
    then some 443
    else none

pub record ScopeCandidate : Type 0 where
  pub raw_target : Text
  pub normalized_scheme : Option Text
  pub normalized_host : Option Text
  pub normalized_port : Option ℕ
  pub raw_path : Text
  pub scope_match_path : Option Text
  pub normalization_error : Option Text

pub record ScopeRuleDefinition : Type 0 where
  pub rule_id : Text
  pub effect : ScopeRuleEffect
  pub scheme : Text
  pub host : Option Text
  pub port : Option ℕ
  pub path_prefix : Option Text
  pub source_reference : Text
  pub host_pattern : Option Text
  pub expires_at : Option ℕ

-- The tests of `ScopeRuleDefinition.__post_init__`.
hosts_are_valid : Option Text → Option Text → Result CoreError Unit
hosts_are_valid (some h) (some p) = err core_input_error
hosts_are_valid none none = err core_input_error
hosts_are_valid (some h) none = do
  guard (not (is_blank h)) core_input_error
  guard (not (has_char b'*' h)) core_input_error
hosts_are_valid none (some p) = do
  guard (starts_with p (codes "*.")) core_input_error
  let apex = lower (strip is_space (drop 2 p))
  guard (is_nonempty apex && not (has_char b'*' apex)) core_input_error

valid_port : Option ℤ → Result CoreError (Option ℕ)
valid_port none = ok none
valid_port (some (pos n)) = if leb 1 n then ok (some n) else err core_input_error
valid_port (some (negsuc n)) = err core_input_error

valid_prefix : Option Text → Bool
valid_prefix none = true
valid_prefix (some p) = starts_with p (codes "/")

pub new_scope_rule_definition :
    Text
    → ScopeRuleEffect
    → Text
    → Option Text
    → Option ℤ
    → Option Text
    → Text
    → Option Text
    → Option ℕ
    → Result CoreError ScopeRuleDefinition
new_scope_rule_definition rule_id effect scheme host port path_prefix source_reference host_pattern
      expires_at =
    do
      require_opaque_id rule_id
      require_opaque_id source_reference
      guard (not (is_blank scheme)) core_input_error
      hosts_are_valid host host_pattern
      guard (not (has_char b'*' scheme)) core_input_error
      port' ← valid_port port
      guard (valid_prefix path_prefix) core_input_error
      ok (record {
        rule_id = rule_id;
        effect = effect;
        scheme = scheme;
        host = host;
        port = port';
        path_prefix = path_prefix;
        source_reference = source_reference;
        host_pattern = host_pattern;
        expires_at = expires_at;
      })

pub record CompiledScopeRule : Type 0 where
  pub rule_id : Text
  pub effect : ScopeRuleEffect
  pub scheme : Text
  pub host : Option Text
  pub host_pattern : Option Text
  pub port : ℕ
  pub path_prefix : Option Text
  pub source_reference : Text
  pub expires_at : Option ℕ

pub record CompiledScope : Type 0 where
  pub rules : List CompiledScopeRule

is_bracket : ℕ → Bool
is_bracket c = c == b'[' || c == b']'

-- `rule.host.strip("[]").lower()`
compiled_host : Option Text → Option Text
compiled_host none = none
compiled_host (some h) = some (lower (strip is_bracket h))

-- The pattern counts only where the rule has no host; an empty one is dropped.
compiled_pattern : Option Text → Option Text → Option Text
compiled_pattern (some h) pattern = none
compiled_pattern none none = none
compiled_pattern none (some p) = if is_nonempty p then some (lower (strip is_space p)) else none

abbrev or_default : Option ℕ → ℕ → ℕ
or_default (some port) default = port
or_default none default = default

pub compile_rule : ScopeRuleDefinition → Result CoreError CompiledScopeRule
compile_rule rule =
    let scheme = strip is_space (lower rule.scheme) in
    elim (default_scheme_port scheme) [
      | none ↦ err core_input_error
      | some default ↦ ok (record {
        rule_id = rule.rule_id;
        effect = rule.effect;
        scheme = scheme;
        host = compiled_host rule.host;
        host_pattern = compiled_pattern rule.host rule.host_pattern;
        port = or_default rule.port default;
        path_prefix = rule.path_prefix;
        source_reference = rule.source_reference;
        expires_at = rule.expires_at;
      })
    ]

compile_all : List ScopeRuleDefinition → Result CoreError (List CompiledScopeRule)
compile_all [] = ok []
compile_all (rule ∷ rest) = do
  first ← compile_rule rule
  others ← compile_all rest
  ok (first ∷ others)

pub compile_scope_rules : List ScopeRuleDefinition → Result CoreError CompiledScope
compile_scope_rules rules = do compiled ← compile_all rules; ok (record { rules = compiled })

-- `value == text`, for an optional value
abbrev is_text : Option Text → Text → Bool
is_text none t = false
is_text (some s) t = text_eq s t

abbrev is_port : Option ℕ → ℕ → Bool
is_port none p = false
is_port (some q) p = q == p

match_pattern : Text → Text → Bool
match_pattern host pattern =
    let apex = drop 2 pattern in not (text_eq host apex) && ends_with host (codes "." ++ apex)

pub host_matches : Option Text → Option Text → Option Text → Bool
unfolding match_pattern
host_matches none rule_host pattern = false
host_matches (some host) (some h) pattern = text_eq host h
host_matches (some host) none (some pattern) = match_pattern host pattern
host_matches (some host) none none = false

pub origin_matches : ScopeCandidate → CompiledScopeRule → Bool
unfolding host_matches
origin_matches candidate rule =
    if not (is_text candidate.normalized_scheme rule.scheme)
    then false
    else if not (host_matches candidate.normalized_host rule.host rule.host_pattern)
    then false
    else is_port candidate.normalized_port rule.port

pub path_prefix_matches : Text → Text → Bool
path_prefix_matches path prefix =
    if text_eq path prefix
    then true
    else starts_with path
        (if not (ends_with prefix (codes "/")) then prefix ++ codes "/" else prefix)

pub path_matches : Text → Option Text → Bool
unfolding path_prefix_matches
path_matches path none = true
path_matches path (some prefix) = path_prefix_matches path prefix

pub is_expired : Option ℕ → ℕ → Bool
is_expired none evaluated_at = false
is_expired (some t) evaluated_at = leb t evaluated_at

-- The three lists that the loop fills, in the order of the rules.
pub record Matches : Type 0 where
  pub exclusions : List Text
  pub allows : List Text
  pub unknowns : List Text

add_match : CompiledScopeRule → Matches → Matches
add_match rule m = elim rule.effect [
  | ScopeRuleEffect.deny ↦ record m { exclusions = m.exclusions ++ rule.rule_id ∷ [] }
  | ScopeRuleEffect.out_of_scope ↦ record m { exclusions = m.exclusions ++ rule.rule_id ∷ [] }
  | ScopeRuleEffect.allow ↦ record m { allows = m.allows ++ rule.rule_id ∷ [] }
  | ScopeRuleEffect.unknown ↦ record m { unknowns = m.unknowns ++ rule.rule_id ∷ [] }
]

deny_with : ReasonCode → ScopeCheck
deny_with reason = scope_check ScopeDecision.deny reason [] ScopeClassification.out_of_scope

conclude : Matches → ScopeCheck
conclude m =
    if not (is_empty m.exclusions)
    then scope_check ScopeDecision.deny scope_denied m.exclusions ScopeClassification.out_of_scope
    else if not (is_empty m.allows)
    then scope_check ScopeDecision.allow allowed m.allows ScopeClassification.in_scope
    else if not (is_empty m.unknowns)
    then scope_check ScopeDecision.deny scope_unknown_classification m.unknowns
        ScopeClassification.unknown
    else scope_check ScopeDecision.deny scope_not_explicitly_allowed [] ScopeClassification.unknown

-- The loop over the rules; the first rule that applies and has expired returns at once.
module _ (candidate : ScopeCandidate) (path : Text) (evaluated_at : ℕ) where
  pub scan : List CompiledScopeRule → Matches → ScopeCheck
  unfolding origin_matches path_matches is_expired add_match conclude
  scan [] m = conclude m
  scan (rule ∷ rest) m =
      let skipped = scan rest m in
      let taken = scan rest (add_match rule m) in
      if not (origin_matches candidate rule)
      then skipped
      else if not (path_matches path rule.path_prefix)
      then skipped
      else if is_expired rule.expires_at evaluated_at
      then scope_check ScopeDecision.require_human_review scope_expired (rule.rule_id ∷ [])
          ScopeClassification.out_of_scope
      else taken

normalization_reason : Text → ReasonCode
normalization_reason error =
    if text_eq error (codes "USERINFO")
    then scope_userinfo_denied
    else if text_eq error (codes "WILDCARD")
    then scope_wildcard_rejected
    else if text_eq error (codes "PATH_AMBIGUOUS")
    then scope_path_ambiguous
    else scope_normalization_invalid

abbrev pub no_matches : Matches
no_matches = record { exclusions = []; allows = []; unknowns = [] }

evaluate_path : ScopeCandidate → CompiledScope → ℕ → Option Text → Option Text → ScopeCheck
unfolding deny_with normalization_reason scan
evaluate_path candidate compiled at (some error) path = deny_with (normalization_reason error)
evaluate_path candidate compiled at none none = deny_with scope_path_ambiguous
evaluate_path candidate compiled at none (some path) =
    scan candidate path at compiled.rules no_matches

-- `now` as the caller gave it, and what the clock shows where it gave none.
unfoldable pub evaluate_scope_candidate : ScopeCandidate → CompiledScope → Option ℕ → ℕ → ScopeCheck
unfolding evaluate_path
evaluate_scope_candidate candidate compiled now clock =
    evaluate_path candidate compiled (or_default now clock) candidate.normalization_error
      candidate.scope_match_path
