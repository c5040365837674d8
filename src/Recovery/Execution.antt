-- ===== src/Recovery/Execution.antt =====
-- `RecoveryExecution` of apps/api/app/domain/recovery_execution.py. `NOT_STARTED` is `idle`.
pub mod Runs
use deep_research_agent.Common.{
  ℕ, Bool, true, false, not, Option, none, some, List, [], ◌∷◌, String, Result, ok, raise, raise_if,
  ◌>>=◌, ◌>>◌,
}
use deep_research_agent.Common.Values.{ℤ, Fields, end}

pub data RecoveryExecutionState : Type 0 where
  idle authorized running completed failed cancelled : RecoveryExecutionState

pub record RecoveryExecution (F : Type 0) : Type 0 where
  pub run_id : ℕ
  pub question_id : String
  pub plan_version : ℤ
  pub attempt_id : ℕ
  pub coverage_before : F
  pub gap_before : List String
  pub tokens_reserved : ℤ
  pub state : RecoveryExecutionState
  pub coverage_after : Option F
  pub gap_after : List String
  pub reason : Option String
  pub accepted_evidence_before : ℤ
  pub accepted_evidence_after : ℤ
  pub metadata : Fields F

-- the `ValueError`s, with the state that the message shows
pub data RecoveryError : Type 0 where
  cannot_start cannot_complete cannot_fail cannot_cancel : RecoveryExecutionState → RecoveryError

abbrev pub is_authorized : RecoveryExecutionState → Bool
is_authorized authorized = true
is_authorized _ = false

abbrev pub is_running : RecoveryExecutionState → Bool
is_running running = true
is_running _ = false

-- `state in {AUTHORIZED, RUNNING}`
abbrev pub is_active : RecoveryExecutionState → Bool
is_active authorized = true
is_active running = true
is_active _ = false

-- the arguments of `authorize`
pub record RecoveryAttempt (F : Type 0) : Type 0 where
  pub run_id : ℕ
  pub question_id : String
  pub plan_version : ℤ
  pub attempt_id : ℕ
  pub coverage_before : F
  pub gap_before : List String
  pub tokens_reserved : ℤ
  pub accepted_evidence_before : ℤ

-- the arguments of `complete`
pub record RecoveryCompletion (F : Type 0) : Type 0 where
  pub coverage_after : F
  pub gap_after : List String
  pub accepted_evidence_after : ℤ
  pub reason : Option String

module _ {F : Type 0} where
  -- `RecoveryExecution.authorize`
  unfoldable pub authorize : RecoveryAttempt F → RecoveryExecution F
  authorize a = record {
    run_id = a.run_id;
    question_id = a.question_id;
    plan_version = a.plan_version;
    attempt_id = a.attempt_id;
    coverage_before = a.coverage_before;
    gap_before = a.gap_before;
    tokens_reserved = a.tokens_reserved;
    state = authorized;
    coverage_after = none;
    gap_after = [];
    reason = none;
    accepted_evidence_before = a.accepted_evidence_before;
    accepted_evidence_after = ℤ.pos 0;
    metadata = end;
  }

  unfoldable pub start : RecoveryExecution F → Result RecoveryError (RecoveryExecution F)
  start x = do
    raise_if (not (is_authorized x.state)) (cannot_start x.state)
    ok (record x { state = running })

  unfoldable pub complete :
      RecoveryCompletion F → RecoveryExecution F → Result RecoveryError (RecoveryExecution F)
  complete c x = do
    raise_if (not (is_running x.state)) (cannot_complete x.state)
    ok (record x {
      coverage_after = some c.coverage_after;
      gap_after = c.gap_after;
      accepted_evidence_after = c.accepted_evidence_after;
      reason = c.reason;
      state = completed;
    })

  unfoldable pub fail :
      (reason : String) → RecoveryExecution F → Result RecoveryError (RecoveryExecution F)
  fail reason x = do
    raise_if (not (is_running x.state)) (cannot_fail x.state)
    ok (record x { reason = some reason; state = failed })

  unfoldable pub cancel :
      (reason : String) → RecoveryExecution F → Result RecoveryError (RecoveryExecution F)
  cancel reason x = do
    raise_if (not (is_active x.state)) (cannot_cancel x.state)
    ok (record x { reason = some reason; state = cancelled })
