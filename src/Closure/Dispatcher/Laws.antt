-- ===== src/Closure/Dispatcher/Laws.antt =====
-- What a dispatch of a feedback promises.
use deep_research_agent.Common.{
  ℕ, ◌≡◌, ◌↔◌, inl, inr, refl, Bool-cases, true, false, not, Option, none, some, List, [], ◌∷◌,
  arith, String, string_eq, nat_eqb, contains, if◌then◌else◌, ok, ◌>>=◌,
}
use deep_research_agent.Common.Text.{is_blank, is_blank-append_left, is_blank-append_right}
use deep_research_agent.Common.Uuids.{Uuids}
use deep_research_agent.Common.Checks.{run_checks}
use Prim.Native.String.{◌++◌ as ◌<>◌}
use deep_research_agent.Closure.Data.{is_closed, GapRequirement}
use deep_research_agent.Closure.Evaluation.{or_time}
use deep_research_agent.Closure.Alignment.{EvidenceAlignment}
use deep_research_agent.Closure.Feedback.{ClosureFeedback, reason_value}
use deep_research_agent.Closure.Need.{
  ResearchNeed, need_of, check_need, generate_need, classify_need, feedback_need_description,
}
use deep_research_agent.Closure.Action.{
  SuggestedResearchAction, SuggestedResearchActionType, find_additional_source,
  find_independent_source, verify_claim, improve_evidence_quality, collect_missing_data,
  expand_dimension_coverage, action_unknown, action_text, action_type_for_need, action_of,
  check_action, generate_action,
}
use deep_research_agent.Closure.Dispatcher.{
  FeedbackDispatchResult, FeedbackDispatchStatus, created, skipped, duplicated, blocked, refusal,
  creation, actions_for, hand_off, dispatch,
}

description_not_blank :
    {F : Type 0} (f : ClosureFeedback F) → is_blank (feedback_need_description f) ≡ false
unfolding is_blank
description_not_blank f =
    is_blank-append_right f.missing_requirement _
      (is_blank-append_left " 未满足: " (reason_value f.failure_reason <> "。") refl)

action_text_not_blank :
    (t : SuggestedResearchActionType) (key : String)
    → (is_blank (action_text t key).0 ≡ false) × (is_blank (action_text t key).1 ≡ false)
unfolding is_blank
action_text_not_blank find_additional_source key =
    (refl, is_blank-append_left "寻找额外来源补充 " (key <> " Requirement。") refl)
action_text_not_blank find_independent_source key =
    (refl, is_blank-append_left "寻找满足 " (key <> " Requirement 的额外独立来源。") refl)
action_text_not_blank verify_claim key =
    (refl, is_blank-append_left "验证 " (key <> " 对应 Claim 与现有证据的关系。") refl)
action_text_not_blank improve_evidence_quality key =
    (refl, is_blank-append_left "寻找更高质量证据满足 " (key <> " Requirement。") refl)
action_text_not_blank collect_missing_data key =
    (refl, is_blank-append_left "收集 " (key <> " 缺失的研究数据。") refl)
action_text_not_blank expand_dimension_coverage key =
    (refl, is_blank-append_left "补足 " (key <> " 的研究 Coverage。") refl)
action_text_not_blank action_unknown key =
    (refl, is_blank-append_left "为 " (key <> " Requirement 生成后续研究候选。") refl)

nat_eqb_refl : (n : ℕ) → nat_eqb n n ≡ true
nat_eqb_refl n = ground arith

-- a created hand-off: one need of the gap for the feedback, and one action for the need
abbrev pub IsHandOff :
    {F : Type 0}
    → ClosureFeedback F
    → GapRequirement F
    → List ResearchNeed
    → List SuggestedResearchAction
    → Type 0
IsHandOff f r (n ∷ []) (a ∷ []) =
    (n.gap_id ≡ r.gap_id)
    × (n.feedback_id ≡ some f.feedback_id)
    × (n.need_type ≡ f.recommended_need_type)
    × (a.need_id ≡ n.need_id)
    × (a.gap_id ≡ r.gap_id)
    × (a.source_feedback_id ≡ some f.feedback_id)
IsHandOff f r _ _ = ⊥

-- what the needs and the actions of a dispatch with the status are
abbrev pub IsTraced :
    {F : Type 0}
    → FeedbackDispatchStatus
    → ClosureFeedback F
    → GapRequirement F
    → List ResearchNeed
    → List SuggestedResearchAction
    → Type 0
IsTraced created f r needs actions = IsHandOff f r needs actions
IsTraced skipped f r needs actions = (needs ≡ []) × (actions ≡ [])
IsTraced duplicated f r needs actions = (needs ≡ []) × (actions ≡ [])
IsTraced blocked f r needs actions = (needs ≡ []) × (actions ≡ [])

module _ {F : Type 0} (ids : Uuids) (now : Option ℕ) (clock : ℕ) where
  generate_need_lem :
      (f : ClosureFeedback F) (r : GapRequirement F) (alignments : List EvidenceAlignment)
      → is_closed r.closure_status ≡ false
      → generate_need ids r alignments none (some f) none now clock
        ≡ ok (need_of ids r alignments (some f) none (or_time now clock) ∷ [])
  unfolding generate_need check_need need_of classify_need run_checks
  generate_need_lem f r alignments open_ = simp (open_, description_not_blank f) refl

  generate_action_lem :
      (f : ClosureFeedback F) (r : GapRequirement F) (alignments : List EvidenceAlignment)
      → is_closed r.closure_status ≡ false
      → generate_action ids
          (need_of ids r alignments (some f) none (or_time now clock))
          r
          (some f)
          now
          clock
        ≡ ok (
            action_of ids
              (need_of ids r alignments (some f) none (or_time now clock))
              (some f)
              (or_time now clock)
            ∷ [])
  unfolding generate_action check_action action_of need_of classify_need run_checks
  generate_action_lem f r alignments open_ =
      let texts =
        action_text_not_blank (action_type_for_need f.recommended_need_type) r.dimension_key in
      simp (nat_eqb_refl r.gap_id, open_, texts.0, texts.1) refl

  -- what `dispatch` returns
  unfoldable dispatched :
      (already : List String)
      → ClosureFeedback F
      → GapRequirement F
      → List EvidenceAlignment
      → FeedbackDispatchResult
  dispatched already f r alignments =
      let need = need_of ids r alignments (some f) none (or_time now clock) in
      let action = action_of ids need (some f) (or_time now clock) in
      if is_closed r.closure_status
      then refusal f skipped "closed_gap"
      else if not (nat_eqb f.gap_id r.gap_id)
      then refusal f blocked "feedback_requirement_mismatch"
      else if contains (ids.show f.feedback_id) already
      then refusal f duplicated "feedback_already_dispatched"
      else creation f need [] (action ∷ [])

  hand_off_lem :
      (already : List String) (f : ClosureFeedback F) (r : GapRequirement F)
      (alignments : List EvidenceAlignment)
      → is_closed r.closure_status ≡ false
      → (generate_need ids r alignments none (some f) none now clock >>= λ needs.
          hand_off ids already now clock r f needs)
        ≡ (let need = need_of ids r alignments (some f) none (or_time now clock) in
            ok (creation f need [] (action_of ids need (some f) (or_time now clock) ∷ [])))
  unfolding hand_off actions_for
  hand_off_lem already f r alignments open_ =
      simp (generate_need_lem f r alignments open_, generate_action_lem f r alignments open_) refl

  dispatch_lem :
      (already : List String) (f : ClosureFeedback F) (r : GapRequirement F)
      (alignments : List EvidenceAlignment)
      → dispatch ids already now clock f r alignments ≡ ok (dispatched already f r alignments)
  unfolding dispatch dispatched
  dispatch_lem already f r alignments = elim (Bool-cases (is_closed r.closure_status)) [
    | inl c ↦ rw c refl
    | inr o ↦ ground (arith, o, hand_off_lem already f r alignments o)
  ]

  -- A dispatch never raises.  It creates exactly when the gap is not closed, the feedback is about
  -- the gap, and its id has not been dispatched before; then there is one need, which is about the gap and
  -- shows the feedback, and one action, which is about the need and shows the feedback; else there are none.
  pub dispatch_total :
      (already : List String) (f : ClosureFeedback F) (r : GapRequirement F)
      (alignments : List EvidenceAlignment)
      → (d : FeedbackDispatchResult) × (dispatch ids already now clock f r alignments ≡ ok d)
        × ((d.dispatch_status ≡ created) ↔ (
            (is_closed r.closure_status ≡ false)
            × (f.gap_id ≡ r.gap_id)
            × (contains (ids.show f.feedback_id) already ≡ false)))
        × IsTraced d.dispatch_status f r d.research_needs d.suggested_actions
  unfolding dispatched need_of action_of classify_need
  dispatch_total already f r alignments = (
    dispatched already f r alignments,
    dispatch_lem already f r alignments,
    ground arith,
    ground arith,
  )
