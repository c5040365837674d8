-- ===== src/Budget/Borrow.antt =====
-- `decide_question_borrow` of apps/api/app/domain/research_budget.py. Numbers of tokens are not
-- negative; `int(target_tokens * 1.5)` and `int(target_tokens * 2.0)` are exact below 2 ** 51.
pub mod Laws
use deep_research_agent.Common.{
  ℕ, zero, suc, ◌+◌, ◌*◌, ◌/◌, Bool, true, false, not, ◌&&◌, ◌||◌, Option, none, some, String, ltb,
  leb, nat_eqb, if◌then◌else◌,
}
use deep_research_agent.Common.Floats.{Floats, lt}
use deep_research_agent.QuestionState.{
  QuestionResearchState, ResearchOpportunityState, RecoveryEligibilityState, not_evaluated, denied,
  deferred, is_opportunity,
}
use deep_research_agent.Budget.Risk.{QuestionRiskState, nonempty, is_blocked}

pub record QuestionBorrowDecision : Type 0 where
  pub allowed : Bool
  pub reason : String
  pub hard_limit : Bool
  pub freeze_question : Bool

abbrev pub allow : String → QuestionBorrowDecision
allow reason = record {
  allowed = true;
  reason = reason;
  hard_limit = false;
  freeze_question = false;
}

abbrev pub refuse : String → (hard_limit freeze : Bool) → QuestionBorrowDecision
refuse reason hard_limit freeze = record {
  allowed = false;
  reason = reason;
  hard_limit = hard_limit;
  freeze_question = freeze;
}

-- the arguments of `decide_question_borrow`
pub record BorrowRequest (F : Type 0) : Type 0 where
  pub state : QuestionRiskState F
  pub all_first_passes_complete : Bool
  pub research_state : Option QuestionResearchState
  pub projected_spend : ℕ
  pub target_tokens : ℕ
  pub expected_utility : F
  pub low_gain_streak : ℕ
  pub has_untried_query_family : Bool
  pub utility_threshold : F

abbrev pub borrow_cap : ℕ → ℕ
borrow_cap target = target * 3 / 2

abbrev pub recovery_cap : ℕ → ℕ
recovery_cap target = target * 2

-- the refusal of the guards on the first pass and the recovery, `none` if they let the request by
abbrev pub recovery_refusal : RecoveryEligibilityState → Option QuestionBorrowDecision
recovery_refusal not_evaluated = some (refuse "first_pass_floor_protected" false false)
recovery_refusal deferred = some (refuse "first_pass_floor_protected" false false)
recovery_refusal denied = some (refuse "recovery_ineligible" false true)
recovery_refusal _ = none

abbrev pub first_pass_refusal : Bool → Option QuestionResearchState → Option QuestionBorrowDecision
first_pass_refusal complete none =
    if complete then none else some (refuse "first_pass_floor_protected" false false)
first_pass_refusal complete (some s) =
    if is_opportunity s.research_opportunity ResearchOpportunityState.not_started
    then some (refuse "first_pass_floor_protected" false false)
    else recovery_refusal s.recovery_eligibility

-- the tests after the guards on the first pass and the recovery, in their order
unfoldable pub choose_over_target :
    (over_cap exception over_recovery blocked nothing low_gain low_utility : Bool)
    → QuestionBorrowDecision
choose_over_target over_cap exception over_recovery blocked nothing low_gain low_utility =
    if over_cap && not exception
    then refuse "hard_question_token_limit" true false
    else if exception && over_recovery
    then refuse "bounded_recovery_limit" true true
    else if blocked
    then refuse "verification_blocked" false true
    else if nothing
    then refuse "no_unresolved_high_risk_gap" false true
    else if low_gain
    then refuse "low_gain_streak" false true
    else if low_utility
    then refuse "expected_utility_below_threshold" false true
    else allow "high_risk_high_utility_borrow"

module _ (fl : Floats) (r : BorrowRequest fl.F) where
  open r use {
    projected_spend, target_tokens, expected_utility, low_gain_streak, has_untried_query_family,
    utility_threshold,
  }

  abbrev pub acceptance_gap_open : Bool
  acceptance_gap_open = r.state.gap_open || nonempty r.state.open_dimension_keys

  abbrev pub high_risk : Bool
  high_risk = r.state.unresolved_high_risk

  abbrev pub recovery_exception : Bool
  recovery_exception =
      (nat_eqb r.state.priority 1 && high_risk)
      || (high_risk && has_untried_query_family)
      || (acceptance_gap_open && has_untried_query_family)
      || (high_risk && acceptance_gap_open && ltb low_gain_streak 2)

  -- `p1_recovery_variant or acceptance_recovery_variant`
  abbrev pub recovery_variant : Bool
  recovery_variant =
      (nat_eqb r.state.priority 1 && high_risk && has_untried_query_family)
      || (acceptance_gap_open && has_untried_query_family)

  -- `not state.unresolved_high_risk and not …`
  abbrev pub nothing_to_recover : Bool
  nothing_to_recover =
      (not high_risk && not acceptance_gap_open)
      || (not r.state.borrow_eligible && not acceptance_gap_open)

  unfoldable pub decide_over_target : QuestionBorrowDecision
  decide_over_target =
      choose_over_target (ltb (borrow_cap target_tokens) projected_spend) recovery_exception
        (ltb (recovery_cap target_tokens) projected_spend) (is_blocked r.state.verification_state)
        nothing_to_recover (leb 2 low_gain_streak && not recovery_variant)
        (lt fl expected_utility utility_threshold)

  abbrev pub refused_or : Option QuestionBorrowDecision → QuestionBorrowDecision
  refused_or none = decide_over_target
  refused_or (some d) = d

  unfoldable pub decide_question_borrow : QuestionBorrowDecision
  decide_question_borrow =
      if leb projected_spend target_tokens
      then allow "within_question_target"
      else refused_or (first_pass_refusal r.all_first_passes_complete r.research_state)
