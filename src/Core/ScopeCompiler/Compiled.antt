-- ===== src/Core/ScopeCompiler/Compiled.antt =====
-- What a compiled rule looks like (core/scope_compiler.py).
mod Examples
use research_os.Common.{
  ℕ, ◌≤◌, Bool, true, false, ℤ, pos, negsuc, Option, none, some, Result, ok, err, List, [], ◌∷◌,
  map, Every, ◌≡◌, refl, Option-cases, ◌⊎◌, inl, inr, ◌>>=◌, >>=-eq-ok, ok-eq-ok, sym, arith,
}
use research_os.Common.Text.{
  Text, codes, text_eq, text_eq_iff, is_nonempty, is_space, strip, lower, starts_with,
}
use research_os.Core.Enums.{CoreError, ScopeRuleEffect}
use research_os.Core.ScopeCompiler.{
  ScopeRuleDefinition, CompiledScopeRule, CompiledScope, new_scope_rule_definition, hosts_are_valid,
  valid_port, default_scheme_port, compiled_host, compiled_pattern, is_bracket, or_default,
  compile_rule, compile_all, compile_scope_rules,
}

-- The scheme is http or https, the port is positive, and there is a host or a host pattern, not
-- both.
pub record IsWellFormed (r : CompiledScopeRule) : Type 0 where
  pub known_scheme : (r.scheme ≡ codes "http") ⊎ (r.scheme ≡ codes "https")
  pub port_pos : 1 ≤ r.port
  pub one_host :
      ((h : Text) × (r.host ≡ some h) × (r.host_pattern ≡ none))
      ⊎ ((p : Text) × (r.host ≡ none) × (r.host_pattern ≡ some p))

-- What `__post_init__` leaves of the host, the pattern and the port.
record IsChecked (d : ScopeRuleDefinition) : Type 0 where
  port_pos : (p : ℕ) → d.port ≡ some p → 1 ≤ p
  one_host :
      ((h : Text) × (d.host ≡ some h) × (d.host_pattern ≡ none))
      ⊎ ((p : Text) × (d.host ≡ none) × (d.host_pattern ≡ some p) × (is_nonempty p ≡ true))

hosts_are_valid-one :
    (host pattern : Option Text)
    → hosts_are_valid host pattern ≡ ok tt
    → ((h : Text) × (host ≡ some h) × (pattern ≡ none))
      ⊎ ((p : Text) × (host ≡ none) × (pattern ≡ some p) × (is_nonempty p ≡ true))
unfolding hosts_are_valid starts_with
hosts_are_valid-one (some h) none e = inl (h, refl, refl)
hosts_are_valid-one none (some []) e = cc
hosts_are_valid-one none (some (c ∷ p)) e = inr (c ∷ p, refl, refl, refl)
hosts_are_valid-one (some h) (some p) e = cc
hosts_are_valid-one none none e = cc

valid_port-pos :
    (given : Option ℤ) (kept : Option ℕ) (p : ℕ)
    → valid_port given ≡ ok kept
    → kept ≡ some p
    → 1 ≤ p
unfolding valid_port
valid_port-pos none kept p h e = cc
valid_port-pos (some (pos n)) kept p h e = ground arith
valid_port-pos (some (negsuc n)) kept p h e = cc

new-IsChecked :
    (id : Text) (effect : ScopeRuleEffect) (scheme : Text) (host : Option Text) (port : Option ℤ)
    (prefix : Option Text) (source : Text) (pattern : Option Text) (expires : Option ℕ)
    {d : ScopeRuleDefinition}
    → new_scope_rule_definition id effect scheme host port prefix source pattern expires ≡ ok d
    → IsChecked d
unfolding new_scope_rule_definition
new-IsChecked id effect scheme host port prefix source pattern expires {d} h =
    let one = hosts_are_valid-one host pattern in
    let pos = valid_port-pos port d.port in
    record { port_pos = λ p e. pos p (ground arith) e; one_host = ground (arith, one) }

default_scheme_port_cases :
    (scheme : Text) (p : ℕ)
    → default_scheme_port scheme ≡ some p
    → ((scheme ≡ codes "http") ⊎ (scheme ≡ codes "https")) × (1 ≤ p)
unfolding default_scheme_port
default_scheme_port_cases scheme p h =
    ground (arith, text_eq_iff scheme (codes "http"), text_eq_iff scheme (codes "https"))

compiled_one :
    (host pattern : Option Text)
    → ((h : Text) × (host ≡ some h) × (pattern ≡ none))
      ⊎ ((p : Text) × (host ≡ none) × (pattern ≡ some p) × (is_nonempty p ≡ true))
    → ((h : Text) × (compiled_host host ≡ some h) × (compiled_pattern host pattern ≡ none))
      ⊎ ((p : Text) × (compiled_host host ≡ none) × (compiled_pattern host pattern ≡ some p))
unfolding compiled_host compiled_pattern
compiled_one (some h) pattern one = inl (lower (strip is_bracket h), refl, refl)
compiled_one none (some p) (inl (h, e, f)) = cc
compiled_one none (some p) (inr (q, e, f, filled)) =
    inr (lower (strip is_space p), refl, ground arith)
compiled_one none none (inl (h, e, f)) = cc
compiled_one none none (inr (q, e, f, filled)) = cc

or_default-pos :
    (port : Option ℕ) (default : ℕ)
    → ((p : ℕ) → port ≡ some p → 1 ≤ p)
    → 1 ≤ default
    → 1 ≤ or_default port default
or_default-pos none default h k = k
or_default-pos (some p) default h k = h p refl

compile_rule-IsWellFormed :
    (d : ScopeRuleDefinition) (r : CompiledScopeRule)
    → IsChecked d
    → compile_rule d ≡ ok r
    → IsWellFormed r × (r.rule_id ≡ d.rule_id) × (r.effect ≡ d.effect)
unfolding compile_rule
compile_rule-IsWellFormed d r v h =
    let scheme = strip is_space (lower d.scheme) in
    elim (Option-cases (default_scheme_port scheme)) [
      | inl e ↦ absurd (ground (arith, e))
      | inr (p, e) ↦
          let (known, p_pos) = default_scheme_port_cases scheme p e in
          let pos = or_default-pos d.port p v.port_pos p_pos in
          let one = compiled_one d.host d.host_pattern v.one_host in
          (
            record {
              known_scheme = ground (arith, e, known);
              port_pos = ground (arith, e, pos);
              one_host = ground (arith, e, one);
            },
            ground (arith, e),
            ground (arith, e),
          )
    ]

-- `rules` are the rules that the constructor built from the arguments of a policy.
pub record IsBuilt (d : ScopeRuleDefinition) : Type 0 where
  pub given_host : Option Text
  pub given_port : Option ℤ
  pub given_pattern : Option Text
  pub built :
      new_scope_rule_definition d.rule_id d.effect d.scheme given_host given_port d.path_prefix
        d.source_reference given_pattern d.expires_at
      ≡ ok d

IsBuilt-IsChecked : (d : ScopeRuleDefinition) → IsBuilt d → IsChecked d
IsBuilt-IsChecked d b =
    new-IsChecked d.rule_id d.effect d.scheme b.given_host b.given_port d.path_prefix
      d.source_reference b.given_pattern d.expires_at b.built

compile_all-IsWellFormed :
    (ds : List ScopeRuleDefinition) (rs : List CompiledScopeRule)
    → Every IsBuilt ds
    → compile_all ds ≡ ok rs
    → Every IsWellFormed rs
      × (map (λ r. r.rule_id) rs ≡ map (λ d. d.rule_id) ds)
      × (map (λ r. r.effect) rs ≡ map (λ d. d.effect) ds)
unfolding compile_all
compile_all-IsWellFormed [] [] b h = (tt, refl, refl)
compile_all-IsWellFormed [] (r ∷ rs) b h = cc
compile_all-IsWellFormed (d ∷ ds) rs b h =
    let (first, e, h') = >>=-eq-ok (compile_rule d) _ h in
    let (others, e', h'') = >>=-eq-ok (compile_all ds) _ h' in
    let one = compile_rule-IsWellFormed d first (IsBuilt-IsChecked d b.0) e in
    let more = compile_all-IsWellFormed ds others b.1 e' in
    rw (sym (ok-eq-ok h'')) ((one.0, more.0), cc (one.1, more.1), cc (one.2, more.2))

-- Rules that the constructor built compile, where they compile at all, to one rule each, in their
-- order and with their ids and effects; every compiled rule has the scheme http or https, a positive
-- port, and either a host or a host pattern.
pub compile_scope_rules-IsWellFormed :
    (ds : List ScopeRuleDefinition) (scope : CompiledScope)
    → Every IsBuilt ds
    → compile_scope_rules ds ≡ ok scope
    → Every IsWellFormed scope.rules
      × (map (λ r. r.rule_id) scope.rules ≡ map (λ d. d.rule_id) ds)
      × (map (λ r. r.effect) scope.rules ≡ map (λ d. d.effect) ds)
unfolding compile_scope_rules
compile_scope_rules-IsWellFormed ds scope b h =
    let (rs, e, h') = >>=-eq-ok (compile_all ds) _ h in
    compile_all-IsWellFormed ds scope.rules b (cc (e, h'))
