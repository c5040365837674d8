-- ===== src/ResearchState/Validate.antt =====
-- The validators of apps/api/app/domain/state.py. A validator returns its model or raises; the
-- limits on the lengths of texts and on scores are Pydantic's own checks and are not modelled.
use deep_research_agent.Common.{
  ℕ, Bool, true, false, not, ◌&&◌, Option, none, some, List, [], ◌∷◌, map, String, string_eq,
  nat_eq, ◌==◌, ltb, nat_eqb, if◌then◌else◌, length, max, any, contains, unique, keep_if, Result,
  ok, raise_if, ◌>>◌,
}
use deep_research_agent.Common.Checks.{run_checks}
use deep_research_agent.ResearchState.Data.{
  RunStatus, ResearchPhase, KnowledgeStatus, GapStatus, opened, resolving, resolved, StopReason,
  budget_exhausted, is_external, KnownClaimRef, ResearchGap, NextAction, ResearchState,
}

-- the messages of the `ValueError`s, and the conflict that `apply_patch` raises
pub data StateError : Type 0 where
  supported_claim_needs_evidence resolved_gap_needs_claim : StateError
  external_action_needs_gap external_action_needs_tool : StateError
  claims_not_unique gaps_not_unique action_targets_closed_gap : StateError
  iteration_budget_exceeded search_budget_exceeded page_budget_exceeded : StateError
  model_token_budget_exceeded state_version_conflict : StateError

abbrev pub is_supported : KnowledgeStatus → Bool
is_supported KnowledgeStatus.supported = true
is_supported _ = false

abbrev pub is_resolved : GapStatus → Bool
is_resolved resolved = true
is_resolved _ = false

-- `gap.status in {GapStatus.OPEN, GapStatus.RESOLVING}`
abbrev pub is_pending : GapStatus → Bool
is_pending opened = true
is_pending resolving = true
is_pending _ = false

abbrev pub is_failed : RunStatus → Bool
is_failed RunStatus.failed = true
is_failed _ = false

abbrev pub is_budget_stop : Option StopReason → Bool
is_budget_stop (some budget_exhausted) = true
is_budget_stop _ = false

-- `self.phase in {WRITE, VERIFY, FINALIZE}`
abbrev pub is_closing : ResearchPhase → Bool
is_closing ResearchPhase.write = true
is_closing ResearchPhase.verify = true
is_closing ResearchPhase.finalize = true
is_closing _ = false

abbrev pub is_empty : {A : Type 0} → List A → Bool
is_empty [] = true
is_empty (x ∷ xs) = false

-- `not self.tool_name`
abbrev pub is_unnamed : Option String → Bool
is_unnamed none = true
is_unnamed (some s) = s == ""

-- `len(xs) != len(set(xs))`
abbrev pub has_repeats : List ℕ → Bool
has_repeats xs = not (nat_eqb (length xs) (length (unique xs)))

module _ {F : Type 0} where
  unfoldable pub supported_claim_requires_evidence :
      KnownClaimRef F → Result StateError (KnownClaimRef F)
  supported_claim_requires_evidence c = do
    raise_if (is_supported c.status && is_empty c.evidence_ids) supported_claim_needs_evidence
    ok c

  unfoldable pub resolved_gap_requires_claim : ResearchGap F → Result StateError (ResearchGap F)
  resolved_gap_requires_claim g = do
    raise_if (is_resolved g.status && is_empty g.resolved_by_claim_ids) resolved_gap_needs_claim
    ok g

  unfoldable pub external_action_requires_gap_and_tool :
      NextAction F → Result StateError (NextAction F)
  external_action_requires_gap_and_tool a = do
    let external = is_external a.action_type
    raise_if (external && is_empty a.target_gap_ids) external_action_needs_gap
    raise_if (external && is_unnamed a.tool_name) external_action_needs_tool
    ok a

  abbrev pub claim_id_of : KnownClaimRef F → ℕ
  claim_id_of c = c.claim_id

  abbrev pub gap_id_of : ResearchGap F → ℕ
  gap_id_of g = g.gap_id

  -- the ids of the open and resolving gaps
  abbrev pub pending_ids : List (ResearchGap F) → List ℕ
  pending_ids gaps = map gap_id_of (keep_if (λ g. is_pending g.status) gaps)

  -- an external action targets a gap that is not pending
  abbrev pub strays : Option (NextAction F) → List (ResearchGap F) → Bool
  strays none gaps = false
  strays (some a) gaps =
      is_external a.action_type && any (λ t. not (contains t (pending_ids gaps))) a.target_gap_ids

  abbrev pub page_limit : ResearchState F → ℕ
  page_limit s =
      if ltb 0 s.budget_usage.pages_fetched
      then s.budget_limits.max_pages_fetched
      else s.budget_limits.max_pages

  abbrev pub page_usage : ResearchState F → ℕ
  page_usage s = max s.budget_usage.pages s.budget_usage.pages_fetched

  abbrev pub page_overrun_is_terminal : ResearchState F → Bool
  page_overrun_is_terminal s = is_failed s.status && is_budget_stop s.stop_reason

  -- the tests of `validate_state_invariants`, in their order
  abbrev pub state_checks : ResearchState F → List (Bool × StateError)
  state_checks s =
      (has_repeats (map claim_id_of s.known), claims_not_unique)
      ∷ (has_repeats (map gap_id_of s.gaps), gaps_not_unique)
      ∷ (strays s.next_action s.gaps, action_targets_closed_gap)
      ∷ (ltb s.budget_limits.max_iterations s.budget_usage.iterations, iteration_budget_exceeded)
      ∷ (ltb s.budget_limits.max_searches s.budget_usage.searches, search_budget_exceeded)
      ∷ (
        ltb (page_limit s) (page_usage s) && not (page_overrun_is_terminal s),
        page_budget_exceeded,
      )
      ∷ (
        ltb s.budget_limits.max_model_tokens s.budget_usage.model_tokens
            && not (is_closing s.phase)
            && not s.budget_usage.model_budget_guarded,
        model_token_budget_exceeded,
      )
      ∷ []

  unfoldable pub validate_state_invariants : ResearchState F → Result StateError (ResearchState F)
  validate_state_invariants s = run_checks (state_checks s) s
