-- ===== src/Closure/Finalizer/Examples.antt =====
-- An open gap and a closed one at the end of a run.
use deep_research_agent.Common.{
  ℕ, ◌≡◌, refl, true, false, none, some, List, [], String, ◌∷◌, string_eq, ok,
}
use deep_research_agent.Common.Dict.{get, put}
use deep_research_agent.Common.Uuids.{stroke_ids, strokes}
use deep_research_agent.Closure.Data.{GapRequirement}
use deep_research_agent.Closure.Completeness.{set_default}
use deep_research_agent.Closure.Examples.{gap, settled_gap, pricing_is_named}
use deep_research_agent.Closure.Pass.Laws.{IsReadable, set_default-IsReadable}
use deep_research_agent.Closure.Finalizer.{
  is_terminal_run_stop_reason, finalize_run_closure_feedback, RunClosureFeedbackFinalizationResult,
}
use deep_research_agent.Closure.Finalizer.Explained.{is_fed, is_ended, is_unexplained, gaps_that}
use deep_research_agent.Closure.Finalizer.Loop.{Accounts}
use deep_research_agent.Closure.Finalizer.Total.{finalizer_explains_gaps}

exhausted_is_terminal : is_terminal_run_stop_reason (some "budget_exhausted") ≡ true
unfolding is_terminal_run_stop_reason
exhausted_is_terminal = refl

stagnation_is_not_terminal : is_terminal_run_stop_reason (some "stagnation") ≡ false
unfolding is_terminal_run_stop_reason
stagnation_is_not_terminal = refl

no_feedback-IsReadable : IsReadable stroke_ids []
unfolding get
no_feedback-IsReadable k v e = absurd (cc e)

-- a gap with feedback, and one that the end of the run explains
abbrev fed_gap : GapRequirement ℕ
fed_gap = record gap { gap_id = 8 }

abbrev ended_gap : GapRequirement ℕ
ended_gap = record gap { gap_id = 9 }

abbrev gaps : List (GapRequirement ℕ)
gaps = gap ∷ settled_gap ∷ fed_gap ∷ ended_gap ∷ []

abbrev known : List (String × String)
known = set_default (stroke_ids.show 8) (stroke_ids.show 3) []

abbrev reasons : List (String × String)
reasons = (stroke_ids.show 9, "budget_exhausted") ∷ []

finalizer_explains_gaps_example :
    (x : RunClosureFeedbackFinalizationResult ℕ) × (finalize_run_closure_feedback stroke_ids known
        reasons [] none 100 1 gaps
      ≡ ok x)
    × Accounts stroke_ids known reasons [] none 100 1 gaps x
finalizer_explains_gaps_example =
    finalizer_explains_gaps stroke_ids known reasons [] none 100 1 gaps
      (pricing_is_named, (pricing_is_named, (pricing_is_named, (pricing_is_named, tt))))
      (set_default-IsReadable stroke_ids (stroke_ids.show 8) 3 [] no_feedback-IsReadable)

-- each of the gaps is listed where it belongs
gaps_are_listed :
    (gaps_that (is_fed stroke_ids known reasons [] none 100) gaps ≡ 8 ∷ [])
    × (gaps_that (is_ended stroke_ids known reasons [] none 100) gaps ≡ 9 ∷ [])
    × (gaps_that (is_unexplained stroke_ids known reasons [] none 100) gaps ≡ 7 ∷ [])
unfolding get put strokes
gaps_are_listed = (refl, refl, refl)
