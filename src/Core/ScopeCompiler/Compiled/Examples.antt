-- ===== src/Core/ScopeCompiler/Compiled/Examples.antt =====
-- A wildcard rule as a policy states it, compiled.
use research_os.Common.{pos, none, some, ok, [], ◌∷◌, map, Every, ◌≡◌, refl}
use research_os.Common.Text.{codes, is_blank, is_space, strip, lower, starts_with, has_char}
use research_os.Core.Enums.{ScopeRuleEffect}
use research_os.Core.Identity.{require_opaque_id}
use research_os.Core.ScopeCompiler.{
  ScopeRuleDefinition, CompiledScope, new_scope_rule_definition, hosts_are_valid, valid_port,
  valid_prefix, default_scheme_port, compiled_host, compiled_pattern, compile_rule, compile_all,
  compile_scope_rules,
}
use research_os.Core.ScopeCompiler.Compiled.{IsWellFormed, compile_scope_rules-IsWellFormed}

abbrev stated : ScopeRuleDefinition
stated = record {
  rule_id = codes "r1";
  effect = ScopeRuleEffect.allow;
  scheme = codes "HTTPS";
  host = none;
  port = some 8443;
  path_prefix = some (codes "/api");
  source_reference = codes "policy";
  host_pattern = some (codes "*.Shop.test");
  expires_at = none;
}

stated_built :
    new_scope_rule_definition
      (codes "r1")
      ScopeRuleEffect.allow
      (codes "HTTPS")
      none
      (some (pos 8443))
      (some (codes "/api"))
      (codes "policy")
      (some (codes "*.Shop.test"))
      none
    ≡ ok stated
unfolding new_scope_rule_definition require_opaque_id is_blank hosts_are_valid valid_port
    valid_prefix starts_with has_char lower strip is_space
stated_built = refl

abbrev compiled : CompiledScope
compiled = record {
  rules =
      record {
        rule_id = codes "r1";
        effect = ScopeRuleEffect.allow;
        scheme = codes "https";
        host = none;
        host_pattern = some (codes "*.shop.test");
        port = 8443;
        path_prefix = some (codes "/api");
        source_reference = codes "policy";
        expires_at = none;
      }
      ∷ [];
}

compile_stated : compile_scope_rules (stated ∷ []) ≡ ok compiled
unfolding compile_scope_rules compile_all compile_rule default_scheme_port compiled_host
    compiled_pattern lower strip is_space
compile_stated = refl

compile_scope_rules-IsWellFormed_example :
    Every IsWellFormed compiled.rules
    × (map (λ r. r.rule_id) compiled.rules ≡ map (λ d. d.rule_id) (stated ∷ []))
    × (map (λ r. r.effect) compiled.rules ≡ map (λ d. d.effect) (stated ∷ []))
compile_scope_rules-IsWellFormed_example =
    compile_scope_rules-IsWellFormed (stated ∷ []) compiled
      (
        record {
          given_host = none;
          given_port = some (pos 8443);
          given_pattern = some (codes "*.Shop.test");
          built = stated_built;
        },
        tt,
      )
      compile_stated
