-- ===== src/Budget/Schedule.antt =====
-- `question_schedule_key` of apps/api/app/domain/research_budget.py, and the order of its keys as
-- Python's tuples. Attempts and priorities are not negative; `before` stands for `<` of texts.
use deep_research_agent.Common.{
  ℕ, ◌<◌, ◌≡◌, Bool, true, false, not, ◌&&◌, String, ltb, nat_eqb, if◌then◌else◌, arith,
}
use deep_research_agent.Common.Floats.{Floats, lt}

-- the arguments of `question_schedule_key`
pub record Scheduled (F : Type 0) : Type 0 where
  pub attempts : ℕ
  pub coverage : F
  pub priority : ℕ
  pub question_id : String

pub record ScheduleKey (F : Type 0) : Type 0 where
  pub started : ℕ
  pub attempts : ℕ
  pub coverage : F
  pub priority : ℕ
  pub question_id : String

unfoldable pub question_schedule_key : {F : Type 0} → Scheduled F → ScheduleKey F
question_schedule_key q = record {
  started = if ltb 0 q.attempts then 1 else 0;
  attempts = q.attempts;
  coverage = q.coverage;
  priority = q.priority;
  question_id = q.question_id;
}

module _ (fl : Floats) (before : String → String → Bool) where
  open fl use {F, le}

  abbrev pub key_before : ScheduleKey F → ScheduleKey F → Bool
  key_before k l =
      if not (nat_eqb k.started l.started)
      then ltb k.started l.started
      else if not (nat_eqb k.attempts l.attempts)
      then ltb k.attempts l.attempts
      else if not (le k.coverage l.coverage && le l.coverage k.coverage)
      then lt fl k.coverage l.coverage
      else if not (nat_eqb k.priority l.priority)
      then ltb k.priority l.priority
      else before k.question_id l.question_id

  -- A question with fewer attempts comes strictly before one with more, whatever else the two
  -- differ in; with equally many, the one that is covered less comes strictly before the other.
  pub fewer_attempts_first :
      (p q : Scheduled F)
      → let k = question_schedule_key p in
        let l = question_schedule_key q in
        (p.attempts < q.attempts → (key_before k l ≡ true) × (key_before l k ≡ false))
        × (p.attempts ≡ q.attempts
            → lt fl p.coverage q.coverage ≡ true
            → (key_before k l ≡ true) × (key_before l k ≡ false))
  unfolding question_schedule_key
  fewer_attempts_first p q =
      (λ h. ground arith, λ h c. ground (arith, fl.le_total p.coverage q.coverage))
