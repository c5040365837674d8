-- ===== src/Closure/Action.antt =====
-- apps/api/app/domain/research_action.py: the action that is suggested for a need.
use deep_research_agent.Common.{
  ℕ, Bool, true, false, not, ◌||◌, Option, none, some, List, [], ◌∷◌, String, ltb, nat_eqb,
  if◌then◌else◌, Result, ok, raise_if, ◌>>=◌, ◌>>◌,
}
use deep_research_agent.Common.Text.{is_blank}
use deep_research_agent.Common.Uuids.{Uuids}
use deep_research_agent.Common.Checks.{run_checks}
use Prim.Native.String.{◌++◌ as ◌<>◌}
use deep_research_agent.Closure.Data.{
  is_closed, GapRequirement, ClosureError, empty_action_text, priority_not_positive,
  need_does_not_match,
}
use deep_research_agent.Closure.Evaluation.{or_time}
use deep_research_agent.Closure.Feedback.{
  ClosureFeedback, ResearchNeedType, need_additional_source, need_independent_source,
  need_claim_verification, need_evidence_quality, need_missing_data, need_dimension_coverage,
  need_unknown,
}
use deep_research_agent.Closure.Need.{ResearchNeed, ResearchNeedStatus, need_open}

pub data SuggestedResearchActionType : Type 0 where
  find_additional_source find_independent_source verify_claim : SuggestedResearchActionType
  improve_evidence_quality collect_missing_data : SuggestedResearchActionType
  expand_dimension_coverage action_unknown : SuggestedResearchActionType

pub data SuggestedResearchActionStatus : Type 0 where
  suggested consumed cancelled : SuggestedResearchActionStatus

pub record SuggestedResearchAction : Type 0 where
  pub action_id : ℕ
  pub need_id : ℕ
  pub gap_id : ℕ
  pub question_id : String
  pub dimension_key : String
  pub action_type : SuggestedResearchActionType
  pub objective : String
  pub description : String
  pub priority : ℕ
  pub status : SuggestedResearchActionStatus
  pub created_at : ℕ
  pub source_feedback_id : Option ℕ

-- `SuggestedResearchAction.__post_init__`
unfoldable pub check_action : SuggestedResearchAction → Result ClosureError SuggestedResearchAction
check_action a =
    run_checks
      ((is_blank a.objective || is_blank a.description, empty_action_text)
        ∷ (ltb a.priority 1, priority_not_positive)
        ∷ [])
      a

-- `_action_type_for_need`
abbrev pub action_type_for_need : ResearchNeedType → SuggestedResearchActionType
action_type_for_need need_additional_source = find_additional_source
action_type_for_need need_independent_source = find_independent_source
action_type_for_need need_claim_verification = verify_claim
action_type_for_need need_evidence_quality = improve_evidence_quality
action_type_for_need need_missing_data = collect_missing_data
action_type_for_need need_dimension_coverage = expand_dimension_coverage
action_type_for_need need_unknown = action_unknown

abbrev pub action_value : SuggestedResearchActionType → String
action_value find_additional_source = "find_additional_source"
action_value find_independent_source = "find_independent_source"
action_value verify_claim = "verify_claim"
action_value improve_evidence_quality = "improve_evidence_quality"
action_value collect_missing_data = "collect_missing_data"
action_value expand_dimension_coverage = "expand_dimension_coverage"
action_value action_unknown = "unknown"

-- `_action_text`: the objective and the description
abbrev pub action_text : SuggestedResearchActionType → (dimension_key : String) → String × String
action_text find_independent_source key =
    ("寻找额外独立来源满足 Requirement", "寻找满足 " <> key <> " Requirement 的额外独立来源。")
action_text find_additional_source key =
    ("寻找额外来源补充 Requirement", "寻找额外来源补充 " <> key <> " Requirement。")
action_text verify_claim key = ("验证目标 Claim", "验证 " <> key <> " 对应 Claim 与现有证据的关系。")
action_text improve_evidence_quality key =
    ("改善 Evidence Quality", "寻找更高质量证据满足 " <> key <> " Requirement。")
action_text collect_missing_data key = ("收集缺失研究数据", "收集 " <> key <> " 缺失的研究数据。")
action_text expand_dimension_coverage key =
    ("扩展 Dimension Coverage", "补足 " <> key <> " 的研究 Coverage。")
action_text action_unknown key = ("进一步研究目标 Requirement", "为 " <> key <> " Requirement 生成后续研究候选。")

abbrev pub is_open_need : ResearchNeedStatus → Bool
is_open_need need_open = true
is_open_need _ = false

module _ {F : Type 0} where
  -- `feedback.feedback_id if feedback is not None else need.feedback_id`
  abbrev pub source_feedback : Option (ClosureFeedback F) → ResearchNeed → Option ℕ
  source_feedback none n = n.feedback_id
  source_feedback (some f) n = some f.feedback_id

  module _ (ids : Uuids) where
    -- the action that `ResearchActionGenerator.generate` builds
    unfoldable pub action_of :
        ResearchNeed → Option (ClosureFeedback F) → (timestamp : ℕ) → SuggestedResearchAction
    action_of n feedback timestamp =
        let type = action_type_for_need n.need_type in
        let texts = action_text type n.dimension_key in
        record {
          action_id =
              ids.uuid5 ("research-action:" <> ids.show n.need_id <> ":" <> action_value type);
          need_id = n.need_id;
          gap_id = n.gap_id;
          question_id = n.question_id;
          dimension_key = n.dimension_key;
          action_type = type;
          objective = texts.0;
          description = texts.1;
          priority = n.priority;
          status = suggested;
          created_at = timestamp;
          source_feedback_id = source_feedback feedback n;
        }

    -- `ResearchActionGenerator.generate`
    unfoldable pub generate_action :
        ResearchNeed
        → GapRequirement F
        → Option (ClosureFeedback F)
        → (now : Option ℕ) → (clock : ℕ) → Result ClosureError (List SuggestedResearchAction)
    unfolding action_of check_action
    generate_action n r feedback now clock = if not (is_open_need n.status) then ok [] else do
      raise_if (not (nat_eqb r.gap_id n.gap_id)) need_does_not_match
      if is_closed r.closure_status
          then ok []
          else do action ← check_action (action_of n feedback (or_time now clock)); ok (action ∷ [])
