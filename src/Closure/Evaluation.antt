-- ===== src/Closure/Evaluation.antt =====
-- `GapRequirement.apply_closure_transition` and `ClosureEvaluation.evaluate` of
-- apps/api/app/domain/gap_closure.py.
use deep_research_agent.Common.{
  ℕ, ◌+◌, ◌-◌, Bool, not, ◌&&◌, ◌||◌, Option, none, some, String, ltb, leb, if◌then◌else◌, Result,
  ok, raise_if, ◌>>◌,
}
use deep_research_agent.Common.Floats.{Floats, lt}
use deep_research_agent.Common.Values.{ℤ, pos, negsuc}
use deep_research_agent.Common.Text.{is_blank}
use deep_research_agent.Closure.Data.{
  GapRequirementType, dimension_coverage, independent_source, claim_verification, evidence_quality,
  verified, GapClosureStatus, opened, partial, closed, ClosureSnapshot, GapRequirement,
  ClosureEvaluation, ClosureError, empty_transition_reason, closure_moves_backwards,
  same_verification, same_status, check_requirement,
}

-- `_closure_rank`
abbrev pub closure_rank : GapClosureStatus → ℕ
closure_rank opened = 0
closure_rank partial = 1
closure_rank closed = 2

-- `a - b` of two counts
abbrev pub delta : ℕ → ℕ → ℤ
delta a b = if leb b a then pos (a - b) else negsuc (b - a - 1)

abbrev pub or_time : Option ℕ → ℕ → ℕ
or_time none clock = clock
or_time (some t) clock = t

module _ (fl : Floats) where
  open fl use {F, le, decimal}

  abbrev pub or_one : Option F → F
  or_one none = decimal 1 0
  or_one (some x) = x

  -- `clock` is what `datetime.now(UTC)` returns.
  unfoldable pub apply_closure_transition :
      GapRequirement F
      → (new_status : GapClosureStatus) → (transition_reason : String) → (updated_at : Option ℕ)
      → (clock : ℕ) → Result ClosureError (GapRequirement F)
  unfolding check_requirement
  apply_closure_transition r new_status transition_reason updated_at clock = do
    raise_if (is_blank transition_reason) empty_transition_reason
    raise_if (ltb (closure_rank new_status) (closure_rank r.closure_status)) closure_moves_backwards
    if same_status new_status r.closure_status
        then ok r
        else check_requirement fl (record r {
          closure_status = new_status;
          state_version = r.state_version + 1;
          transition_reason = transition_reason;
          updated_at = or_time updated_at clock;
        })

  -- the cases of `_requirement_is_satisfied`
  abbrev pub satisfies : GapRequirementType → GapRequirement F → ClosureSnapshot F → Bool
  satisfies dimension_coverage r s = le (or_one r.required_coverage) s.coverage
  satisfies independent_source r s = leb r.required_independent_sources s.independent_sources
  satisfies claim_verification r s = leb r.required_independent_sources s.independent_sources
  satisfies evidence_quality r s =
      leb r.required_evidence_count s.evidence_count
      && same_verification s.verification_status verified

  -- `_requirement_is_satisfied`
  unfoldable pub requirement_is_satisfied : GapRequirement F → ClosureSnapshot F → Bool
  requirement_is_satisfied r s = satisfies r.requirement_type r s

  -- `_has_progress`
  unfoldable pub has_progress : ClosureSnapshot F → ClosureSnapshot F → Bool
  has_progress before after =
      lt fl before.coverage after.coverage
      || ltb before.evidence_count after.evidence_count
      || ltb before.independent_sources after.independent_sources
      || not (same_verification after.verification_status before.verification_status)

  -- `ClosureEvaluation.evaluate`; `id` is what `uuid4()` returns
  unfoldable pub evaluate :
      (id : ℕ)
      → GapRequirement F
      → (before_snapshot after_snapshot : ClosureSnapshot F) → ClosureEvaluation F
  unfolding requirement_is_satisfied has_progress
  evaluate id r before after =
      let satisfied = requirement_is_satisfied r after in
      let progress = has_progress before after in
      record {
        evaluation_id = id;
        gap_id = r.gap_id;
        before_snapshot = before;
        after_snapshot = after;
        evidence_delta = delta after.evidence_count before.evidence_count;
        independent_source_delta = delta after.independent_sources before.independent_sources;
        requirement_satisfied = satisfied;
        closure_status = if satisfied then closed else if progress then partial else opened;
        reason =
            if satisfied
            then "requirement_satisfied"
            else if progress
            then "evidence_or_verification_progress_without_closure"
            else "requirement_not_satisfied";
      }
