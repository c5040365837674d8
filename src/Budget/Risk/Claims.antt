-- ===== src/Budget/Risk/Claims.antt =====
-- What the risk states of claims and gaps promise.
use deep_research_agent.Common.{
  ℕ, ◌-◌, ◌≤◌, ◌<◌, ◌≡◌, ◌≢◌, ◌⊎◌, ◌↔◌, Bool, true, false, not, ◌&&◌, List, String, string_eq, ◌==◌,
  arith, if◌then◌else◌, max, leb, unique,
}
use deep_research_agent.Common.Floats.{
  Floats, IsUnit, unit_clamp, unit_clamp-IsUnit, IsNonneg, decimal-IsNonneg, fmin-IsNonneg,
  round-fmin-IsUnit,
}
use deep_research_agent.Budget.Risk.{
  RiskLifecycle, resolved, VerificationState, not_required, verified, ClaimFacts, GapFacts,
  nonempty, text_or, add_if, capped, claim_score, classify_claim_risk, classify_gap_risk,
}

module _ (fl : Floats) where
  open fl use {F, le, decimal, add, mul, round}

  pub add_if-IsNonneg :
      (b : Bool) (a s : F) → IsNonneg fl a → IsNonneg fl s → IsNonneg fl (add_if fl b a s)
  add_if-IsNonneg true a s h k = fl.add_nonneg s a k h
  add_if-IsNonneg false a s h k = k

  -- each amount that is added to a score is not negative
  claim_score-IsNonneg :
      (status type : String) (importance : F) (deficit : ℕ) (conflicts : List String)
      → IsNonneg fl importance
      → IsNonneg fl (claim_score fl status type importance deficit conflicts)
  unfolding claim_score
  claim_score-IsNonneg status type importance deficit conflicts h =
      add_if-IsNonneg _ _ _ (decimal-IsNonneg fl 40 2) (
        add_if-IsNonneg _ _ _
          (fmin-IsNonneg fl _ _ (decimal-IsNonneg fl 30 2)
            (fl.mul_nonneg _ _ (decimal-IsNonneg fl 15 2) (decimal-IsNonneg fl deficit 0)))
          (add_if-IsNonneg _ _ _ (decimal-IsNonneg fl 25 2) (
            add_if-IsNonneg _ _ _ (decimal-IsNonneg fl 25 2)
              (fl.mul_nonneg importance _ h (decimal-IsNonneg fl 35 2)))))

  if-IsNonneg :
      (b : Bool) (a c : F) → IsNonneg fl a → IsNonneg fl c → IsNonneg fl (if b then a else c)
  if-IsNonneg true a c h k = h
  if-IsNonneg false a c h k = k

  gap_score-IsNonneg :
      (fold : String → String) (g : GapFacts F)
      → let unresolved = not (fold g.gap_status == "resolved") in
        IsNonneg fl (
          add_if fl (g.blocked && unresolved) (decimal 25 2) (
            add_if fl
              (leb 2 g.resolution_attempts && unresolved)
              (decimal 15 2)
              (if unresolved then mul (unit_clamp fl g.severity) (decimal 70 2) else decimal 0 0)))
  gap_score-IsNonneg fold g =
      let unresolved = not (fold g.gap_status == "resolved") in
      add_if-IsNonneg (g.blocked && unresolved) (decimal 25 2) _ (decimal-IsNonneg fl 25 2) (
        add_if-IsNonneg (leb 2 g.resolution_attempts && unresolved) (decimal 15 2) _
          (decimal-IsNonneg fl 15 2)
          (if-IsNonneg unresolved (mul (unit_clamp fl g.severity) (decimal 70 2)) (decimal 0 0)
            (fl.mul_nonneg (unit_clamp fl g.severity) (decimal 70 2)
              (unit_clamp-IsUnit fl g.severity).0 (decimal-IsNonneg fl 70 2))
            (decimal-IsNonneg fl 0 0)))

  -- The risk score of a claim, and that of a gap, are between 0.0 and 1.0, whatever the importance,
  -- the severity and the counts are.
  pub risk_scores_bounded :
      (fold : String → String) (c : ClaimFacts F) (g : GapFacts F)
      → IsUnit fl (classify_claim_risk fl fold c).risk_score
        × IsUnit fl (classify_gap_risk fl fold g).risk_score
  unfolding classify_claim_risk classify_gap_risk capped
  risk_scores_bounded fold c g = (
    round-fmin-IsUnit fl _ 4 (
        if-IsNonneg (fold c.claim_status == "rejected") (decimal 0 0)
          (claim_score fl (fold c.claim_status) (text_or (fold c.claim_type) "factual")
            (unit_clamp fl c.importance) (max 1 c.required_sources - c.independent_sources)
            (unique c.open_conflict_ids))
          (decimal-IsNonneg fl 0 0)
          (claim_score-IsNonneg (fold c.claim_status) (text_or (fold c.claim_type) "factual")
            (unit_clamp fl c.importance) (max 1 c.required_sources - c.independent_sources)
            (unique c.open_conflict_ids) (unit_clamp-IsUnit fl c.importance).0)),
    round-fmin-IsUnit fl _ 4 (gap_score-IsNonneg fold g),
  )

  -- A claim is settled exactly when it is rejected, or supported by as many independent sources as
  -- it requires (one at least) with no open conflict; a settled claim is resolved, and no other.
  pub claim_settled_iff :
      (fold : String → String) (c : ClaimFacts F)
      → let s = classify_claim_risk fl fold c in
        ((s.unresolved ≡ false)
          ↔ ((fold c.claim_status == "rejected") ≡ true)
            ⊎ ((fold c.claim_status == "supported") ≡ true)
              × (max 1 c.required_sources ≤ c.independent_sources)
              × (nonempty (unique c.open_conflict_ids) ≡ false))
        × ((s.lifecycle ≡ resolved) ↔ (s.unresolved ≡ false))
  unfolding classify_claim_risk
  claim_settled_iff fold c =
      ((λ h. ground arith, λ h. ground arith), (λ h. ground arith, λ h. ground arith))

  -- A verified claim is supported by enough independent sources and has no open conflict; a claim
  -- with an open conflict that is not rejected is blocked, in its lifecycle and its verification;
  -- and the verification state of one that requires more than one source, and is not rejected, is
  -- not `not_required`.
  pub claim_verification_sound :
      (fold : String → String) (c : ClaimFacts F)
      → let s = classify_claim_risk fl fold c in
        let conflicting = nonempty (unique c.open_conflict_ids) in
        (s.verification_state ≡ verified
          → ((fold c.claim_status == "supported") ≡ true)
            × (c.required_sources ≤ c.independent_sources)
            × (conflicting ≡ false))
        × (conflicting ≡ true
            → (fold c.claim_status == "rejected") ≡ false
            → (s.verification_state ≡ VerificationState.blocked)
              × (s.lifecycle ≡ RiskLifecycle.blocked))
        × (1 < c.required_sources
            → (fold c.claim_status == "rejected") ≡ false
            → s.verification_state ≢ not_required)
  unfolding classify_claim_risk
  claim_verification_sound fold c = (λ h. ground arith, λ h k. ground arith, λ h k. ground arith)
