-- ===== src/Recovery/Execution/Runs.antt =====
-- Sequences of operations on a recovery attempt.
use deep_research_agent.Common.{
  ℕ, suc, ◌+◌, ◌≤◌, ◌≡◌, ◌≢◌, ◌↔◌, ◌⊎◌, false, none, List, [], ◌∷◌, String, arith, length, Result,
  ok, raise, ◌>>=◌,
}
use deep_research_agent.Common.Values.{ℤ, end}
use deep_research_agent.Common.Checks.{guarded-ok, bind-ok}
use deep_research_agent.Recovery.Execution.{
  RecoveryExecution, RecoveryExecutionState, idle, authorized, running, completed, failed,
  cancelled, RecoveryAttempt, RecoveryCompletion, RecoveryError, is_active, cannot_start,
  cannot_complete, cannot_fail, cannot_cancel, authorize, start, complete, fail, cancel,
}

-- a call on a recovery attempt
pub data Operation (F : Type 0) : Type 0 where
  starting : Operation F
  completing : RecoveryCompletion F → Operation F
  failing : String → Operation F
  cancelling : String → Operation F

-- how many operations a state still allows
abbrev pub steps_left : RecoveryExecutionState → ℕ
steps_left authorized = 2
steps_left running = 1
steps_left _ = 0

module _ {F : Type 0} where
  unfoldable pub apply :
      Operation F → RecoveryExecution F → Result RecoveryError (RecoveryExecution F)
  unfolding start complete fail cancel
  apply starting x = start x
  apply (completing c) x = complete c x
  apply (failing reason) x = fail reason x
  apply (cancelling reason) x = cancel reason x

  -- the operations one after another, the first exception ending them
  unfoldable pub apply_all :
      List (Operation F) → RecoveryExecution F → Result RecoveryError (RecoveryExecution F)
  unfolding apply
  apply_all [] x = ok x
  apply_all (o ∷ os) x = do next ← apply o x; apply_all os next

  -- what holds of an attempt `a` at any time: its ids, its plan version and what was measured and
  -- reserved before are those authorized, its metadata are empty, a coverage is recorded exactly
  -- when it is completed, what is measured after is the default until then, and a failed or
  -- cancelled attempt has a reason
  pub record IsSound (a : RecoveryAttempt F) (x : RecoveryExecution F) : Type 0 where
    pub run_kept : x.run_id ≡ a.run_id
    pub attempt_kept : x.attempt_id ≡ a.attempt_id
    pub question_kept : x.question_id ≡ a.question_id
    pub plan_kept : x.plan_version ≡ a.plan_version
    pub coverage_kept : x.coverage_before ≡ a.coverage_before
    pub gap_kept : x.gap_before ≡ a.gap_before
    pub evidence_kept : x.accepted_evidence_before ≡ a.accepted_evidence_before
    pub tokens_kept : x.tokens_reserved ≡ a.tokens_reserved
    pub metadata_empty : x.metadata ≡ end
    pub not_idle : x.state ≢ idle
    pub measured : (x.state ≡ completed) ↔ (x.coverage_after ≢ none)
    pub unmeasured :
        x.state ≢ completed → (x.gap_after ≡ []) × (x.accepted_evidence_after ≡ ℤ.pos 0)
    pub explained : (x.state ≡ failed) ⊎ (x.state ≡ cancelled) → x.reason ≢ none

  apply_effect :
      (a : RecoveryAttempt F) (o : Operation F) (x y : RecoveryExecution F)
      → IsSound a x
      → apply o x ≡ ok y
      → IsSound a y × (suc (steps_left y.state) ≤ steps_left x.state)
  unfolding apply start complete fail cancel
  apply_effect a starting x y h run =
      let (g, e) = guarded-ok _ _ _ y run in rw e (ground (arith, g, h))
  apply_effect a (completing c) x y h run =
      let (g, e) = guarded-ok _ _ _ y run in rw e (ground (arith, g, h))
  apply_effect a (failing reason) x y h run =
      let (g, e) = guarded-ok _ _ _ y run in rw e (ground (arith, g, h))
  apply_effect a (cancelling reason) x y h run =
      let (g, e) = guarded-ok _ _ _ y run in rw e (ground (arith, g, h))

  run_effect :
      (a : RecoveryAttempt F) (os : List (Operation F)) (x y : RecoveryExecution F)
      → IsSound a x
      → apply_all os x ≡ ok y
      → IsSound a y × (length os + steps_left y.state ≤ steps_left x.state)
  unfolding apply_all
  run_effect a [] x y h run = let same : y ≡ x = cc in rw same (h, omega arith)
  run_effect a (o ∷ os) x y h run =
      let (next, p, k) = bind-ok (apply o x) (apply_all os) y run in
      let first = apply_effect a o x next h p in
      let rest = run_effect a os next y first.0 k in (rest.0, omega (arith, first.1, rest.1))

  authorize-IsSound : (a : RecoveryAttempt F) → IsSound a (authorize a)
  unfolding authorize
  authorize-IsSound a = ground arith

  -- After any operations that raise nothing, an authorized attempt has the ids, the plan version, the
  -- coverage, the gap and the accepted evidence from before and the reserved tokens that it was
  -- authorized with, and empty metadata. It is not idle, has a coverage from after exactly when it is
  -- completed, and else no gap and no accepted evidence from after, and has a reason when it has
  -- failed or is cancelled. There were at most two operations.
  pub run-IsSound :
      (a : RecoveryAttempt F) (os : List (Operation F)) (x : RecoveryExecution F)
      → apply_all os (authorize a) ≡ ok x
      → IsSound a x × (length os + steps_left x.state ≤ 2)
  unfolding authorize
  run-IsSound a os x run = run_effect a os (authorize a) x (authorize-IsSound a) run

  -- An attempt that is completed, failed or cancelled refuses every operation.
  pub final_refuses :
      (o : Operation F) (x : RecoveryExecution F)
      → is_active x.state ≡ false
      → (e : RecoveryError) × (apply o x ≡ raise e)
  unfolding apply start complete fail cancel
  final_refuses starting x h = (cannot_start x.state, ground (arith, h))
  final_refuses (completing c) x h = (cannot_complete x.state, ground (arith, h))
  final_refuses (failing reason) x h = (cannot_fail x.state, ground (arith, h))
  final_refuses (cancelling reason) x h = (cannot_cancel x.state, ground (arith, h))
