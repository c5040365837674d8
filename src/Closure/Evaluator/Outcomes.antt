-- ===== src/Closure/Evaluator/Outcomes.antt =====
-- What an execution of `ClosureEvaluator.evaluate` contains.
use deep_research_agent.Common.{
  ℕ, ◌+◌, ◌≤◌, ◌≡◌, ◌↔◌, not, ap, inl, inr, refl, Bool, Bool-cases, true, false, Option, [], arith,
  any, nat_eqb, if◌then◌else◌, ok,
}
use deep_research_agent.Common.Floats.{Floats}
use deep_research_agent.Common.Checks.{AllPass}
use deep_research_agent.Closure.Data.{
  closed, is_closed, same_status, GapRequirement, requirement_checks,
}
use deep_research_agent.Closure.Evaluation.{
  closure_rank, evaluate, requirement_is_satisfied, or_time,
}
use deep_research_agent.Closure.Alignment.{ClosureEvaluationContext, missing_independent_source}
use deep_research_agent.Closure.Evaluator.{
  rejected_for, transition_reason_of, transition, ClosureEvaluationEvent,
  ClosureEvaluationExecution, settle, projected_snapshot, execution_of, evaluate_closure,
  remaining_requirements_of,
}
use deep_research_agent.Closure.Evaluator.Laws.{
  IsValid, moved, settled_of, assessed_of, evaluate_closure_total, settled_rank,
}

abbrev pub is_transition : ClosureEvaluationEvent → Bool
is_transition e = elim e.event_type [ transition ↦ true | _ ↦ false ]

module _ (fl : Floats) (c : ClosureEvaluationContext fl.F) (r : GapRequirement fl.F)
    (now : Option ℕ) (clock evaluation_id uuid : ℕ) (x : ClosureEvaluationExecution fl.F)
    (valid : IsValid fl c r)
    (run : evaluate_closure fl c r now clock evaluation_id uuid ≡ ok x) where
  open fl use {F}

  pub executed :
      x
      ≡ execution_of fl c r evaluation_id
          (or_time now clock)
          (assessed_of fl c r uuid (or_time now clock))
  executed =
      let total = evaluate_closure_total fl c r now clock evaluation_id uuid valid in
      elim (Bool-cases (nat_eqb c.gap_id r.gap_id)) [
        | inl e ↦ cc (run, rw e at total)
        | inr e ↦ absurd (cc (run, rw e at total))
      ]

  after : x.requirement ≡ (assessed_of fl c r uuid (or_time now clock)).after_requirement
  unfolding execution_of
  after = ap (λ (y : ClosureEvaluationExecution F). y.requirement) executed

  pub remaining_shown :
      x.result.remaining_requirements ≡ remaining_requirements_of r c x.requirement.closure_status
  unfolding execution_of
  remaining_shown = rw executed refl

  -- An evaluation never lowers the closure rank of a gap, adds 1 to the state version when it changes
  -- the status and leaves the version as it is otherwise, keeps the ids, the dimension and the thresholds, and
  -- returns a requirement that passes the validators.
  pub closure_never_moves_back :
      (closure_rank r.closure_status ≤ closure_rank x.requirement.closure_status)
      × (x.requirement.state_version ≡ (
          if same_status x.requirement.closure_status r.closure_status
          then r.state_version
          else r.state_version + 1))
      × (x.requirement.gap_id ≡ r.gap_id)
      × (x.requirement.run_id ≡ r.run_id)
      × (x.requirement.question_id ≡ r.question_id)
      × (x.requirement.dimension_key ≡ r.dimension_key)
      × (x.requirement.required_independent_sources ≡ r.required_independent_sources)
      × (x.requirement.required_evidence_count ≡ r.required_evidence_count)
      × (x.requirement.required_coverage ≡ r.required_coverage)
      × AllPass (requirement_checks fl x.requirement)
  unfolding assessed_of moved
  closure_never_moves_back =
      rw after (ground (arith, valid.requirement_passes, settled_rank fl c r uuid))

  -- A gap that is not closed is closed by an evaluation exactly when the projected snapshot
  -- satisfies its requirement.
  pub closes_iff_satisfied :
      is_closed r.closure_status ≡ false
      → (x.requirement.closure_status ≡ closed)
        ↔ (requirement_is_satisfied fl r (projected_snapshot fl c r) ≡ true)
  unfolding assessed_of moved settled_of settle evaluate
  closes_iff_satisfied = rw after (ground arith)

  -- The evaluation of a closed gap leaves its requirement as it is.
  pub closed_stays : is_closed r.closure_status ≡ true → x.requirement ≡ r
  unfolding assessed_of
  closed_stays h = rw after (rw h refl)

  -- The events contain a transition exactly when the status has changed, the remaining requirements are
  -- empty exactly when the gap is closed afterwards, and the result shows the statuses before and after.
  pub events_show_transition :
      (any is_transition x.events ≡ not (same_status x.requirement.closure_status r.closure_status))
      × ((x.result.remaining_requirements ≡ []) ↔ (x.requirement.closure_status ≡ closed))
      × (x.result.before_status ≡ r.closure_status)
      × (x.result.after_status ≡ x.requirement.closure_status)
      × (x.result.state_version ≡ x.requirement.state_version)
  unfolding execution_of remaining_requirements_of
  events_show_transition = rw executed (ground arith)

  -- A gap that was not closed and whose requirement the projected snapshot satisfies is closed, with
  -- nothing remaining and with
  -- the reason "missing_independent_source" when an alignment in the context was rejected for it.
  pub closed_as_missing_source :
      is_closed r.closure_status ≡ false
      → requirement_is_satisfied fl r (projected_snapshot fl c r) ≡ true
      → rejected_for missing_independent_source c.evidence_alignments ≡ true
      → (x.requirement.closure_status ≡ closed)
        × (x.result.transition_reason ≡ "missing_independent_source")
        × (x.result.remaining_requirements ≡ [])
  unfolding execution_of assessed_of moved settled_of settle evaluate transition_reason_of
      remaining_requirements_of
  closed_as_missing_source h satisfied rejected =
      rw executed (rw (h, satisfied, rejected) (ground (arith, h)))
