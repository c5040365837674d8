-- ===== src/Closure/Dispatcher.antt =====
-- `ClosureFeedbackDispatcher` of apps/api/app/domain/closure_feedback_dispatcher.py.
pub mod Laws
use deep_research_agent.Common.{
  ℕ, Bool, true, false, not, Option, none, some, List, [], ◌∷◌, ◌++◌, String, string_eq, nat_eqb,
  contains, if◌then◌else◌, head?, map, Result, ok, raise, ◌>>=◌,
}
use deep_research_agent.Common.Uuids.{Uuids}
use deep_research_agent.Closure.Data.{is_closed, GapRequirement, ClosureError}
use deep_research_agent.Closure.Alignment.{EvidenceAlignment}
use deep_research_agent.Closure.Feedback.{ClosureFeedback}
use deep_research_agent.Closure.Need.{ResearchNeed, generate_need}
use deep_research_agent.Closure.Action.{SuggestedResearchAction, generate_action}

pub data FeedbackDispatchStatus : Type 0 where
  created skipped duplicated blocked : FeedbackDispatchStatus

pub record FeedbackDispatchResult : Type 0 where
  pub feedback_id : ℕ
  pub gap_id : ℕ
  pub dispatch_status : FeedbackDispatchStatus
  pub reason : String
  pub research_need_id : Option ℕ
  pub action_id : Option ℕ
  pub research_needs : List ResearchNeed
  pub suggested_actions : List SuggestedResearchAction

abbrev pub first_action_id : List SuggestedResearchAction → Option ℕ
first_action_id [] = none
first_action_id (a ∷ rest) = some a.action_id

module _ {F : Type 0} where
  -- `_verdict`
  abbrev pub refusal : ClosureFeedback F → FeedbackDispatchStatus → String → FeedbackDispatchResult
  refusal f status reason = record {
    feedback_id = f.feedback_id;
    gap_id = f.gap_id;
    dispatch_status = status;
    reason = reason;
    research_need_id = none;
    action_id = none;
    research_needs = [];
    suggested_actions = [];
  }

  -- the result for `needs[0]`, the other needs and the actions
  abbrev pub creation :
      ClosureFeedback F
      → ResearchNeed
      → List ResearchNeed
      → List SuggestedResearchAction
      → FeedbackDispatchResult
  creation f need needs actions = record {
    feedback_id = f.feedback_id;
    gap_id = f.gap_id;
    dispatch_status = created;
    reason = "research_need_created";
    research_need_id = some need.need_id;
    action_id = first_action_id actions;
    research_needs = need ∷ needs;
    suggested_actions = actions;
  }

  module _ (ids : Uuids) (already_dispatched_feedback_ids : List String) (now : Option ℕ)
      (clock : ℕ) where
    -- the actions for the needs, in their order
    unfoldable pub actions_for :
        GapRequirement F
        → ClosureFeedback F
        → List ResearchNeed
        → Result ClosureError (List SuggestedResearchAction)
    unfolding generate_action
    actions_for r f [] = ok []
    actions_for r f (n ∷ ns) = do
      actions ← generate_action ids n r (some f) now clock
      rest ← actions_for r f ns
      ok (actions ++ rest)

    -- the end of `dispatch`, for the needs generated
    unfoldable pub hand_off :
        GapRequirement F
        → ClosureFeedback F
        → List ResearchNeed
        → Result ClosureError FeedbackDispatchResult
    unfolding actions_for
    hand_off r f [] = ok (refusal f blocked "no_research_need_generated")
    hand_off r f (need ∷ needs) = do
      actions ← actions_for r f (need ∷ needs)
      ok (creation f need needs actions)

    -- `ClosureFeedbackDispatcher.dispatch`
    unfoldable pub dispatch :
        ClosureFeedback F
        → GapRequirement F
        → List EvidenceAlignment
        → Result ClosureError FeedbackDispatchResult
    unfolding generate_need hand_off
    dispatch f r alignments =
        if is_closed r.closure_status
        then ok (refusal f skipped "closed_gap")
        else if not (nat_eqb f.gap_id r.gap_id)
        then ok (refusal f blocked "feedback_requirement_mismatch")
        else if contains (ids.show f.feedback_id) already_dispatched_feedback_ids
        then ok (refusal f duplicated "feedback_already_dispatched")
        else do
          needs ← generate_need ids r alignments none (some f) none now clock
          hand_off r f needs
