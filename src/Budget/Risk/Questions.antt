-- ===== src/Budget/Risk/Questions.antt =====
-- What the risk state of a question promises to the borrowing gate.
use deep_research_agent.Common.{◌≡◌, ◌↔◌, true, false, ◌||◌, ltb, String, arith, unique, string_eq}
use deep_research_agent.Common.Floats.{Floats}
use deep_research_agent.Budget.Risk.{
  RiskLifecycle, VerificationState, QuestionFacts, nonempty, classify_question_risk, is_high,
  risk_level,
}

module _ (fl : Floats) where
  open fl use {F}

  is_high_iff : (score : F) → is_high (risk_level fl score) ≡ fl.le (fl.decimal 65 2) score
  unfolding risk_level
  is_high_iff score =
      let bound = fl.le-decimal 65 85 2 (omega arith) in
      ground (arith, fl.le_trans (fl.decimal 65 2) (fl.decimal 85 2) score bound)

  -- A question may borrow exactly when its score is 0.65 or more, no high-risk conflict is open, it
  -- is not blocked, its gap or a dimension is open or a claim is unresolved, and its gap or a
  -- dimension is open, a high-risk claim is unresolved or an independent source is lacking.
  pub borrow_eligible_iff :
      (casefold : String → String) (q : QuestionFacts F)
      → let s = classify_question_risk fl casefold q in
        let open_somewhere = q.gap_open || nonempty (unique q.open_dimension_keys) in
        (s.borrow_eligible ≡ true)
        ↔ (fl.le (fl.decimal 65 2) s.risk_score ≡ true)
          × (nonempty (unique q.high_risk_conflict_ids) ≡ false)
          × (q.blocked ≡ false)
          × ((open_somewhere || nonempty (unique q.unresolved_claim_ids)) ≡ true)
          × ((open_somewhere
                || nonempty (unique q.high_risk_claim_ids)
                || ltb 0 q.independent_source_deficit)
              ≡ true)
  unfolding classify_question_risk
  borrow_eligible_iff casefold q =
      let level = is_high_iff (classify_question_risk fl casefold q).risk_score in
      ((λ h. ground (arith, level)), (λ h. ground (arith, level)))

  -- A high-risk conflict blocks the verification of its question and its lifecycle, so that it may
  -- not borrow.
  pub conflict_blocks :
      (casefold : String → String) (q : QuestionFacts F)
      → nonempty (unique q.high_risk_conflict_ids) ≡ true
      → let s = classify_question_risk fl casefold q in
        (s.lifecycle ≡ RiskLifecycle.blocked)
        × (s.verification_state ≡ VerificationState.blocked)
        × (s.borrow_eligible ≡ false)
  unfolding classify_question_risk
  conflict_blocks casefold q h = ground arith
