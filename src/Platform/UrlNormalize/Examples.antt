-- ===== src/Platform/UrlNormalize/Examples.antt =====
-- URLs of one host, with a split of two of them in the place of urllib.
use research_os.Common.{none, some, [], ◌∷◌, ◌≡◌, refl, inl, Some}
use research_os.Common.Text.{Text, codes}
use research_os.Core.Enums.{ScopeDecision, ScopeRuleEffect}
use research_os.Core.ScopeCompiler.{CompiledScope, evaluate_scope_candidate}
use research_os.Core.ScopeCompiler.Evaluation.{Allows}
use research_os.Platform.UrlNormalize.{SplitResult, Libraries, scope_match_path_of, normalize_url}
use research_os.Platform.UrlNormalize.Paths.{IsPlain, scope_match_path_of_lem}
use research_os.Platform.UrlNormalize.Confined.{IsWeb, evaluate_scope_candidate-normalize_url}

abbrev parts : SplitResult
parts = record {
  scheme = codes "https";
  username = none;
  password = none;
  hostname = some (codes "a.example");
  port = some none;
  path = codes "/v1/items";
}

-- Every URL is split alike, and the codec keeps the host.
abbrev libraries : Libraries
libraries = record {
  urlsplit = λ s. some parts;
  urljoin = λ s t. some t;
  ipv6_address = λ s. none;
  ipv4_address = λ s. none;
  encode_idna = λ s. some s;
}

abbrev scope : CompiledScope
scope = record {
  rules =
      record {
        rule_id = codes "r";
        effect = ScopeRuleEffect.allow;
        scheme = codes "https";
        host = some (codes "a.example");
        host_pattern = none;
        port = 443;
        path_prefix = some (codes "/v1");
        source_reference = codes "s";
        expires_at = none;
      }
      ∷ [];
}

dots_test : scope_match_path_of (codes "/v1/../admin") ≡ none
unfolding scope_match_path_of
dots_test = refl

percent_test : scope_match_path_of (codes "/v1/%20a") ≡ some (codes "/v1/%20a")
unfolding scope_match_path_of
percent_test = refl

allowed_test :
    (evaluate_scope_candidate
      (normalize_url libraries (codes "https://a.example/v1/items"))
      scope
      (some 5)
      0).decision
    ≡ ScopeDecision.allow
unfolding evaluate_scope_candidate normalize_url
allowed_test = refl

evaluate_scope_candidate-normalize_url_example :
    (path : Text) × ((normalize_url libraries (codes "https://a.example/v1/items")).scope_match_path
      ≡ some path)
    × IsPlain path
    × IsWeb (normalize_url libraries (codes "https://a.example/v1/items")).normalized_scheme
    × Some (Allows (normalize_url libraries (codes "https://a.example/v1/items")) path) scope.rules
evaluate_scope_candidate-normalize_url_example =
    evaluate_scope_candidate-normalize_url libraries
      (normalize_url libraries (codes "https://a.example/v1/items"))
      (codes "https://a.example/v1/items") [] [] scope 5 0 (inl refl) allowed_test

scope_match_path_of_lem_test : IsPlain (codes "/v1/%20a")
scope_match_path_of_lem_test =
    (scope_match_path_of_lem (codes "/v1/%20a") (codes "/v1/%20a") percent_test).1
