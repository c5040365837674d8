-- ===== src/Budget/Examples.antt =====
-- Budgets of a small run.
use deep_research_agent.Common.{
  ltb, ℕ, ◌+◌, ◌-◌, ◌*◌, ◌/◌, max, ◌≤◌, ◌<◌, ◌≡◌, ◌≢◌, ◌⊎◌, ◌↔◌, refl, true, false, ◌||◌, none,
  some, List, [], ◌∷◌, String, string_eq, ◌==◌, arith, length, All, ok, unique,
}
use deep_research_agent.Common.Micros.{micros}
use deep_research_agent.Common.Values.{
  pos, clip, Value, nil, item, null, integer, text, sequence, Fields, end, field, Conversions,
}
use deep_research_agent.Budget.Allocation.{
  CallRequest, execute, yield_question, stop_run, decide_call, allocate_research_call,
  allocate_research_call_outcome, allocate_research_call_affordable, allocate_research_call_next,
}
use deep_research_agent.Budget.Questions.{divide, targets, estimate_question_budgets}
use deep_research_agent.Budget.Questions.Totals.{HasFloor, estimate_question_budgets_totals}
use deep_research_agent.QuestionState.{
  QuestionResearchFacts, QuestionResearchState, ResearchOpportunityState, completed_with_gap,
  completed, eligible, project_question_research_state,
}
use deep_research_agent.Budget.Risk.{
  RiskLifecycle, mitigating, VerificationState, verified, not_required, nonempty, ClaimFacts,
  GapFacts, QuestionFacts, QuestionRiskState, high, classify_claim_risk, classify_question_risk,
}
use deep_research_agent.Budget.Risk.Claims.{claim_verification_sound}
use deep_research_agent.Budget.Risk.Questions.{borrow_eligible_iff}
use deep_research_agent.Budget.Borrow.{
  BorrowRequest, decide_question_borrow, decide_over_target, choose_over_target, recovery_exception,
  acceptance_gap_open,
}
use deep_research_agent.Budget.Borrow.Laws.{
  borrow_bounded, borrow_needs, closed_gap_borrows_nothing,
}

-- two questions share what is available
abbrev request : CallRequest
request = record {
  available = 9000;
  eligible_questions = 2;
  other_unattempted = 1;
  current_attempts = 0;
  minimum_call = 2000;
  maximum_call = 4000;
}

executes : (decide_call request).outcome ≡ execute
unfolding decide_call
executes = refl

keeps_a_seat : 0 < (decide_call request).future_reserve
unfolding decide_call
keeps_a_seat = omega arith

-- conversions that read no text and no float
abbrev plain : Conversions micros
plain = record {
  int_of_float = λ x. pos 0;
  int_of_text = λ s. none;
  float_of_int = λ n. 0;
  float_of_text = λ s. none;
}

abbrev shown : Value ℕ → String
shown v = "other"

abbrev labelled : ℕ → String
labelled n = "q"

abbrev urgent : Fields ℕ
urgent =
    field "priority" (integer (pos 1))
      (field "evidence_requirements" (sequence (item null (item null nil))) end)

abbrev plain_question : Fields ℕ
plain_question = field "id" (text "market") end

abbrev identity : String → String
identity s = s

abbrev claim : ClaimFacts ℕ
claim = record {
  claim_id = "c1";
  question_id = "q1";
  dimension_key = "size";
  claim_status = "supported";
  claim_type = "market";
  importance = 900000;
  independent_sources = 2;
  required_sources = 2;
  open_conflict_ids = [];
}

abbrev gap : GapFacts ℕ
gap = record {
  gap_id = "g1";
  question_id = "q1";
  gap_status = "open";
  gap_type = "weak";
  severity = 700000;
  resolution_attempts = 2;
  blocked = false;
}

abbrev question : List String → QuestionFacts ℕ
question conflicts = record {
  question_id = "q1";
  priority = 1;
  coverage = 200000;
  requirements = "two independent sources" ∷ [];
  gap_open = true;
  open_dimension_keys = "size" ∷ [];
  unresolved_claim_ids = [];
  high_risk_claim_ids = "c1" ∷ [];
  high_risk_conflict_ids = conflicts;
  independent_source_deficit = 1;
  blocked = false;
}

has_conflict : nonempty {A = String} (unique ("k1" ∷ "k1" ∷ [])) ≡ true
unfolding unique
has_conflict = refl

abbrev risk : QuestionRiskState ℕ
risk = record {
  question_id = "q1";
  priority = 1;
  coverage = 200000;
  risk_score = 900000;
  risk_level = high;
  unresolved_high_risk = true;
  gap_open = true;
  requires_independent_sources = false;
  open_dimension_keys = [];
  unresolved_claim_ids = [];
  high_risk_claim_ids = [];
  high_risk_conflict_ids = [];
  lifecycle = mitigating;
  verification_state = VerificationState.required;
  independent_source_deficit = 1;
  borrow_eligible = true;
  reasons = [];
}

abbrev recoverable : QuestionResearchState
recoverable = record {
  question_id = "q1";
  first_pass_execution = completed;
  research_opportunity = completed_with_gap;
  recovery_eligibility = eligible;
  blocking_reason = none;
}

-- a request for nine tenths more than the target
abbrev over_target : BorrowRequest ℕ
over_target = record {
  state = risk;
  all_first_passes_complete = true;
  research_state = some recoverable;
  projected_spend = 1900;
  target_tokens = 1000;
  expected_utility = 600000;
  low_gain_streak = 0;
  has_untried_query_family = true;
  utility_threshold = 500000;
}

is_lent : (decide_question_borrow micros over_target).allowed ≡ true
unfolding decide_question_borrow decide_over_target choose_over_target
is_lent = refl

abbrev closed_facts : QuestionResearchFacts ℕ
closed_facts = record {
  question_id = "q1";
  search_queries_started = 2;
  search_queries_completed = 2;
  search_queries_failed = 0;
  readable_sources = 3;
  evidence_extraction_started = 3;
  candidate_evidence = 3;
  accepted_evidence = 2;
  evaluation_completed = true;
  coverage = 900000;
  gap_open = false;
  critical_gap = false;
  replan_count = 0;
  gap_resolution_attempts = 0;
  query_family_marker_present = false;
  technical_blocked = false;
  resource_blocked = false;
  budget_blocked = false;
  budget_blocking_reason = none;
  has_recovery_path = true;
  quality_met = false;
}

abbrev closed_request : BorrowRequest ℕ
closed_request = record over_target {
  research_state = some (project_question_research_state micros closed_facts);
}

allocate_research_call_outcome_example :
    (allocate_research_call request ≡ ok (decide_call request))
    × (((decide_call request).outcome ≡ stop_run) ↔ (request.available < request.minimum_call))
    × (((decide_call request).outcome ≡ yield_question)
        ↔ (request.minimum_call ≤ request.available)
          × (0 < request.current_attempts)
          × (0 < request.other_unattempted))
allocate_research_call_outcome_example =
    allocate_research_call_outcome request (omega arith) (omega arith)

allocate_research_call_affordable_example :
    let d = decide_call request in
    (request.minimum_call ≤ d.call_tokens)
    × (d.call_tokens ≤ request.maximum_call)
    × (d.call_tokens + d.future_reserve ≤ request.available)
allocate_research_call_affordable_example =
    allocate_research_call_affordable request (omega arith) (omega arith) executes

allocate_research_call_next_example :
    let d = decide_call request in
    (decide_call (record request {
      available = request.available - d.call_tokens;
      eligible_questions = 1;
      other_unattempted = 0;
      current_attempts = 1;
    })).outcome
    ≢ stop_run
allocate_research_call_next_example =
    allocate_research_call_next request 1 0 1 (omega arith) (omega arith) executes keeps_a_seat

estimate_question_budgets_totals_example :
    let pool = 20000 - 2000 - 5000 in
    let floor = max 1 (clip (pos 1500)) in
    let es = divide micros plain shown labelled pool floor (urgent ∷ (plain_question ∷ [])) in
    (estimate_question_budgets micros plain shown labelled
        (urgent ∷ (plain_question ∷ []))
        (pos 20000)
        (pos 2000)
        (pos 5000)
        (pos 1500)
      ≡ ok es)
    × (targets es ≤ pool)
    × (floor * length (urgent ∷ (plain_question ∷ [])) ≤ pool
        → (targets es ≡ pool) × All (HasFloor floor) es)
estimate_question_budgets_totals_example =
    estimate_question_budgets_totals micros plain shown labelled 20000 2000 5000 (pos 1500) urgent
      (plain_question ∷ [])

claim_verification_sound_example :
    let s = classify_claim_risk micros identity claim in
    let conflicting = nonempty (unique claim.open_conflict_ids) in
    (s.verification_state ≡ verified
      → ((identity claim.claim_status == "supported") ≡ true)
        × (claim.required_sources ≤ claim.independent_sources)
        × (conflicting ≡ false))
    × (conflicting ≡ true
        → (identity claim.claim_status == "rejected") ≡ false
        → (s.verification_state ≡ VerificationState.blocked)
          × (s.lifecycle ≡ RiskLifecycle.blocked))
    × (1 < claim.required_sources
        → (identity claim.claim_status == "rejected") ≡ false
        → s.verification_state ≢ not_required)
claim_verification_sound_example = claim_verification_sound micros identity claim

borrow_eligible_iff_example :
    let q = question [] in
    let s = classify_question_risk micros identity q in
    let open_somewhere = q.gap_open || nonempty (unique q.open_dimension_keys) in
    (s.borrow_eligible ≡ true)
    ↔ (micros.le (micros.decimal 65 2) s.risk_score ≡ true)
      × (nonempty (unique q.high_risk_conflict_ids) ≡ false)
      × (q.blocked ≡ false)
      × ((open_somewhere || nonempty (unique q.unresolved_claim_ids)) ≡ true)
      × ((open_somewhere
            || nonempty (unique q.high_risk_claim_ids)
            || ltb 0 q.independent_source_deficit)
          ≡ true)
borrow_eligible_iff_example = borrow_eligible_iff micros identity (question [])

borrow_bounded_example :
    (over_target.projected_spend ≤ 2 * over_target.target_tokens)
    × (over_target.target_tokens * 3 / 2 < over_target.projected_spend
        → recovery_exception micros over_target ≡ true)
borrow_bounded_example = borrow_bounded micros over_target is_lent

borrow_needs_example :
    (over_target.state.verification_state ≢ VerificationState.blocked)
    × ((acceptance_gap_open micros over_target || over_target.state.unresolved_high_risk) ≡ true)
    × (micros.le over_target.utility_threshold over_target.expected_utility ≡ true)
    × ((s : QuestionResearchState)
        → over_target.research_state ≡ some s
        → (s.research_opportunity ≢ ResearchOpportunityState.not_started)
          × (s.recovery_eligibility ≡ eligible))
    × (over_target.research_state ≡ none → over_target.all_first_passes_complete ≡ true)
borrow_needs_example = borrow_needs micros over_target (omega arith) is_lent

closed_gap_borrows_nothing_example :
    ((decide_question_borrow micros closed_request).allowed ≡ false)
    × (((project_question_research_state micros closed_facts).research_opportunity
          ≡ ResearchOpportunityState.not_started)
        ⊎ ((decide_question_borrow micros closed_request).freeze_question ≡ true))
closed_gap_borrows_nothing_example =
    closed_gap_borrows_nothing micros closed_facts closed_request refl refl (omega arith)
