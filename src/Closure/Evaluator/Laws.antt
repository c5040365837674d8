-- ===== src/Closure/Evaluator/Laws.antt =====
-- What an evaluation of a gap promises.
use deep_research_agent.Common.{
  ℕ, ◌+◌, ◌≤◌, ◌≡◌, inl, inr, refl, Bool, Bool-cases, true, false, Option, some, String, arith, ltb,
  nat_eqb, if◌then◌else◌, ok, raise,
}
use deep_research_agent.Common.Floats.{Floats}
use deep_research_agent.Common.Text.{is_blank}
use deep_research_agent.Common.Checks.{run_checks, run_checks-AllPass, AllPass}
use deep_research_agent.Closure.Data.{
  GapClosureStatus, closed, is_closed, same_status, in_unit, GapRequirement, gaps_do_not_match,
  requirement_checks, check_requirement, check_snapshot, ClosureSnapshot,
}
use deep_research_agent.Closure.Evaluation.{
  closure_rank, apply_closure_transition, evaluate, requirement_is_satisfied, has_progress, or_time,
}
use deep_research_agent.Closure.Alignment.{
  ClosureEvaluationContext, missing_independent_source, claim_not_verified, dimension_mismatch,
}
use deep_research_agent.Closure.Evaluator.{
  Assessed, assess, assess_open, settle, transition_reason_of, after_snapshot_of,
  projected_snapshot, execution_of, evaluate_closure, rejected_for,
}

-- the requirement and the snapshot have passed their validators
pub record IsValid (fl : Floats) (c : ClosureEvaluationContext fl.F) (r : GapRequirement fl.F)
    : Type 0 where
  pub requirement_passes : AllPass (requirement_checks fl r)
  pub coverage_in_unit : in_unit fl c.before_snapshot.coverage ≡ true

if_not_blank :
    (b : Bool) (s t : String)
    → is_blank s ≡ false
    → is_blank t ≡ false
    → is_blank (if b then s else t) ≡ false
if_not_blank true s t h k = h
if_not_blank false s t h k = k

module _ (fl : Floats) where
  open fl use {F}

  -- `r` with the settled status and reason
  unfoldable pub moved : GapRequirement F → GapClosureStatus × String → ℕ → GapRequirement F
  moved r settled timestamp = if same_status settled.0 r.closure_status then r else record r {
    closure_status = settled.0;
    state_version = r.state_version + 1;
    transition_reason = settled.1;
    updated_at = timestamp;
  }

  unfoldable pub settled_of :
      ClosureEvaluationContext F → GapRequirement F → ℕ → GapClosureStatus × String
  unfolding projected_snapshot evaluate settle transition_reason_of
  settled_of c r uuid =
      let raw = evaluate fl uuid r c.before_snapshot (projected_snapshot fl c r) in
      settle fl r raw.closure_status (transition_reason_of c raw.reason)

  evaluated_reason_not_blank :
      (r : GapRequirement F) (uuid : ℕ) (before after : ClosureSnapshot F)
      → is_blank (evaluate fl uuid r before after).reason ≡ false
  unfolding evaluate is_blank
  evaluated_reason_not_blank r uuid before after =
      if_not_blank (requirement_is_satisfied fl r after) _ _ refl
        (if_not_blank (has_progress fl before after) _ _ refl refl)

  transition_reason_not_blank :
      (c : ClosureEvaluationContext F) (fallback : String)
      → is_blank fallback ≡ false
      → is_blank (transition_reason_of c fallback) ≡ false
  unfolding transition_reason_of is_blank
  transition_reason_not_blank c fallback h =
      let items = c.evidence_alignments in
      if_not_blank (rejected_for missing_independent_source items) _ _ refl (
        if_not_blank (rejected_for claim_not_verified items) _ _ refl
          (if_not_blank (rejected_for dimension_mismatch items) _ _ refl h))

  settle_not_blank :
      (r : GapRequirement F) (raw : GapClosureStatus) (reason : String)
      → is_blank reason ≡ false
      → is_blank (settle fl r raw reason).1 ≡ false
  unfolding settle is_blank
  settle_not_blank r raw reason h =
      elim (Bool-cases (ltb (closure_rank raw) (closure_rank r.closure_status))) [
        | inl e ↦ rw e refl
        | inr e ↦ rw e h
      ]

  settled_not_blank :
      (c : ClosureEvaluationContext F) (r : GapRequirement F) (uuid : ℕ)
      → is_blank (settled_of c r uuid).1 ≡ false
  unfolding settled_of
  settled_not_blank c r uuid =
      let before = c.before_snapshot in
      let after = projected_snapshot fl c r in
      settle_not_blank r _ _
        (transition_reason_not_blank c _ (evaluated_reason_not_blank r uuid before after))

  pub settled_rank :
      (c : ClosureEvaluationContext F) (r : GapRequirement F) (uuid : ℕ)
      → closure_rank r.closure_status ≤ closure_rank (settled_of c r uuid).0
  unfolding settled_of settle
  settled_rank c r uuid = ground arith

  pub moved_passes :
      (r : GapRequirement F) (settled : GapClosureStatus × String) (timestamp : ℕ)
      → AllPass (requirement_checks fl r)
      → AllPass (requirement_checks fl (moved r settled timestamp))
  unfolding moved
  moved_passes r settled timestamp h = ground arith

  transition_moves :
      (r : GapRequirement F) (settled : GapClosureStatus × String) (timestamp clock : ℕ)
      → AllPass (requirement_checks fl r)
      → is_blank settled.1 ≡ false
      → closure_rank r.closure_status ≤ closure_rank settled.0
      → apply_closure_transition fl r settled.0 settled.1 (some timestamp) clock
        ≡ ok (moved r settled timestamp)
  unfolding apply_closure_transition check_requirement moved
  transition_moves r settled timestamp clock h blank le =
      let checked =
        run_checks-AllPass (requirement_checks fl (moved r settled timestamp))
          (moved r settled timestamp) (moved_passes r settled timestamp h) in
      let rank_holds : ltb (closure_rank settled.0) (closure_rank r.closure_status) ≡ false =
        ground arith in
      elim (Bool-cases (same_status settled.0 r.closure_status)) [
        | inl e ↦ simp (blank, rank_holds, e) refl
        | inr e ↦ simp (blank, rank_holds, e) (simp e at checked)
      ]

  -- what `assess` finds for a requirement that passes the validators
  unfoldable pub assessed_of :
      ClosureEvaluationContext F → GapRequirement F → (uuid timestamp : ℕ) → Assessed F
  unfolding settled_of moved
  assessed_of c r uuid timestamp =
      let s = settled_of c r uuid in
      if is_closed r.closure_status
      then record { after_requirement = r; raw_status = closed; reason = "closed_state_immutable" }
      else record { after_requirement = moved r s timestamp; raw_status = s.0; reason = s.1 }

  projected_passes :
      (c : ClosureEvaluationContext F) (r : GapRequirement F)
      → in_unit fl c.before_snapshot.coverage ≡ true
      → after_snapshot_of fl c r ≡ ok (projected_snapshot fl c r)
  unfolding after_snapshot_of check_snapshot projected_snapshot run_checks
  projected_passes c r h = rw h refl

  assess_open_lem :
      (c : ClosureEvaluationContext F) (r : GapRequirement F) (uuid timestamp : ℕ)
      → IsValid fl c r
      → assess_open fl c r uuid timestamp
        ≡ ok (record {
          after_requirement = moved r (settled_of c r uuid) timestamp;
          raw_status = (settled_of c r uuid).0;
          reason = (settled_of c r uuid).1;
        })
  unfolding assess_open settled_of
  assess_open_lem c r uuid timestamp h =
      let moves =
        transition_moves r (settled_of c r uuid) timestamp timestamp h.requirement_passes
          (settled_not_blank c r uuid) (settled_rank c r uuid) in
      simp (projected_passes c r h.coverage_in_unit, moves) refl

  assess_lem :
      (c : ClosureEvaluationContext F) (r : GapRequirement F) (uuid timestamp : ℕ)
      → IsValid fl c r
      → assess fl c r uuid timestamp ≡ ok (assessed_of c r uuid timestamp)
  unfolding assess assessed_of
  assess_lem c r uuid timestamp h = elim (Bool-cases (is_closed r.closure_status)) [
    | inl e ↦ rw e refl
    | inr e ↦ rw e (assess_open_lem c r uuid timestamp h)
  ]

  -- For a gap and a context that have passed their validators, an evaluation raises only when they
  -- have different ids.  Otherwise it returns an execution.
  pub evaluate_closure_total :
      (c : ClosureEvaluationContext F) (r : GapRequirement F) (now : Option ℕ)
      (clock evaluation_id uuid : ℕ)
      → IsValid fl c r
      → evaluate_closure fl c r now clock evaluation_id uuid ≡ (
          if nat_eqb c.gap_id r.gap_id
          then ok (
              execution_of fl c r evaluation_id
                (or_time now clock)
                (assessed_of c r uuid (or_time now clock)))
          else raise gaps_do_not_match)
  unfolding evaluate_closure
  evaluate_closure_total c r now clock evaluation_id uuid h =
      let assessed = assess_lem c r uuid (or_time now clock) h in
      elim (Bool-cases (nat_eqb c.gap_id r.gap_id)) [
        | inl e ↦ simp (e, assessed) refl
        | inr e ↦ rw e refl
      ]
