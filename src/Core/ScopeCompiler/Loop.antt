-- ===== src/Core/ScopeCompiler/Loop.antt =====
-- The loop of `evaluate_scope_candidate` against the selections that it computes.
use mathlib.Core.List.{append-nil, append_assoc}
use research_os.Common.{
  ℕ, Bool, true, false, ◌&&◌, List, [], ◌∷◌, ◌++◌, map, any, keep, is_empty-map-keep, ◌≡◌, sym, inl,
  inr, arith, Bool-cases, if◌then◌else◌,
}
use research_os.Common.Text.{Text}
use research_os.Core.Enums.{ScopeDecision, ScopeRuleEffect, scope_expired}
use research_os.Core.Scope.{is_exclusion, is_allow, is_unknown}
use research_os.Core.ScopeCompiler.{
  ScopeCandidate, CompiledScopeRule, Matches, origin_matches, path_matches, is_expired, add_match,
  conclude, scan, no_matches,
}

unfoldable pub applies : ScopeCandidate → Text → CompiledScopeRule → Bool
applies candidate path rule = origin_matches candidate rule && path_matches path rule.path_prefix

unfoldable pub excludes : ScopeCandidate → Text → CompiledScopeRule → Bool
excludes candidate path r = applies candidate path r && is_exclusion r.effect

unfoldable pub allows : ScopeCandidate → Text → CompiledScopeRule → Bool
allows candidate path r = applies candidate path r && is_allow r.effect

module _ (candidate : ScopeCandidate) (path : Text) (at : ℕ) where
  unfoldable pub lapsed : CompiledScopeRule → Bool
  lapsed rule = applies candidate path rule && is_expired rule.expires_at at

  ids_of : (ScopeRuleEffect → Bool) → List CompiledScopeRule → List Text
  ids_of p rules = map (λ r. r.rule_id) (keep (λ r. applies candidate path r && p r.effect) rules)

  -- The loop's lists after all rules, where none has lapsed.
  collect : List CompiledScopeRule → Matches → Matches
  collect rules m = record {
    exclusions = m.exclusions ++ ids_of is_exclusion rules;
    allows = m.allows ++ ids_of is_allow rules;
    unknowns = m.unknowns ++ ids_of is_unknown rules;
  }

  pub scan-lapsed :
      (rules : List CompiledScopeRule) (m : Matches)
      → any lapsed rules ≡ true
      → ((scan candidate path at rules m).decision ≡ ScopeDecision.require_human_review)
        × ((scan candidate path at rules m).reason_code ≡ scope_expired)
  unfolding scan lapsed applies
  scan-lapsed [] m h = cc
  scan-lapsed (r ∷ rs) m h = ground (arith, scan-lapsed rs m, scan-lapsed rs (add_match r m))

  collect-skip :
      (r : CompiledScopeRule) (rs : List CompiledScopeRule) (m : Matches)
      → applies candidate path r ≡ false
      → collect (r ∷ rs) m ≡ collect rs m
  unfolding collect ids_of
  collect-skip r rs m h = ground arith

  -- The entry of one rule stands in front of those of the later rules.
  ids_of-take :
      (p : ScopeRuleEffect → Bool) (r : CompiledScopeRule) (rs : List CompiledScopeRule)
      (ids : List Text)
      → applies candidate path r ≡ true
      → ids ++ ids_of p (r ∷ rs)
        ≡ (if p r.effect then ids ++ r.rule_id ∷ [] else ids) ++ ids_of p rs
  unfolding ids_of
  ids_of-take p r rs ids h = elim (Bool-cases (p r.effect)) [
    | inl e ↦ rw (h, e) (sym (append_assoc ids (r.rule_id ∷ []) (ids_of p rs)))
    | inr e ↦ rw (h, e)
  ]

  collect-take :
      (r : CompiledScopeRule) (rs : List CompiledScopeRule) (m : Matches)
      → applies candidate path r ≡ true
      → collect (r ∷ rs) m ≡ collect rs (add_match r m)
  unfolding add_match collect
  collect-take r rs m h = ground (
    arith,
    ids_of-take is_exclusion r rs m.exclusions,
    ids_of-take is_allow r rs m.allows,
    ids_of-take is_unknown r rs m.unknowns,
  )

  scan-live :
      (rules : List CompiledScopeRule) (m : Matches)
      → any lapsed rules ≡ false
      → scan candidate path at rules m ≡ conclude (collect rules m)
  unfolding scan lapsed applies
  scan-live [] m h = unfold collect ids_of in simp append-nil
  scan-live (r ∷ rs) m h = ground (
    arith,
    scan-live rs m,
    scan-live rs (add_match r m),
    collect-skip r rs m,
    collect-take r rs m,
  )

  pub scan-decision :
      (rules : List CompiledScopeRule)
      → (scan candidate path at rules no_matches).decision ≡ (
          if any lapsed rules
          then ScopeDecision.require_human_review
          else if any (excludes candidate path) rules
          then ScopeDecision.deny
          else if any (allows candidate path) rules
          then ScopeDecision.allow
          else ScopeDecision.deny)
  unfolding conclude collect ids_of excludes allows
  scan-decision rules = elim (Bool-cases (any lapsed rules)) [
    | inl h ↦ rw h (scan-lapsed rules no_matches h).0
    | inr h ↦
        rw (h, scan-live rules no_matches h)
          (ground (
            arith,
            is_empty-map-keep (λ r. r.rule_id)
                (λ r. applies candidate path r && is_exclusion r.effect) rules,
            is_empty-map-keep (λ r. r.rule_id) (λ r. applies candidate path r && is_allow r.effect)
                rules,
          ))
  ]
