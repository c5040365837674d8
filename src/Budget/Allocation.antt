-- ===== src/Budget/Allocation.antt =====
-- `allocate_research_call` of apps/api/app/domain/research_budget.py. The numbers of tokens and
-- questions are not negative, as at every call; `/` is Python's `//`.
use deep_research_agent.Common.{
  ℕ, zero, suc, ◌+◌, ◌-◌, ◌*◌, ◌/◌, ◌≤◌, ◌<◌, min, max, ◌≡◌, ◌≢◌, ◌&&◌, ◌||◌, String, ltb, nat_eqb,
  if◌then◌else◌, arith, Result, ok, raise, ◌↔◌,
}
use native.Mathlib.Nat.{le-div_iff_mul-le, mul-div-le}

pub data Outcome : Type 0 where
  execute yield_question stop_run : Outcome

pub record ResearchBudgetDecision : Type 0 where
  pub outcome : Outcome
  pub call_tokens : ℕ
  pub future_reserve : ℕ
  pub reason : String

pub data BudgetError : Type 0 where
  invalid_call_bounds negative_token_budget : BudgetError

-- the arguments of `allocate_research_call`
pub record CallRequest : Type 0 where
  pub available : ℕ
  pub eligible_questions : ℕ
  pub other_unattempted : ℕ
  pub current_attempts : ℕ
  pub minimum_call : ℕ
  pub maximum_call : ℕ

abbrev pub seats_of : CallRequest → ℕ
seats_of q = min (max 1 q.eligible_questions) (q.available / q.minimum_call)

-- the decision once the bounds are valid
unfoldable pub decide_call : CallRequest → ResearchBudgetDecision
decide_call q =
    if ltb q.available q.minimum_call
    then record {
      outcome = stop_run;
      call_tokens = 0;
      future_reserve = 0;
      reason = "no_affordable_call";
    }
    else if ltb 0 q.current_attempts && ltb 0 q.other_unattempted
    then record {
      outcome = yield_question;
      call_tokens = 0;
      future_reserve = 0;
      reason = "unattempted_questions_first";
    }
    else record {
      outcome = execute;
      call_tokens = min q.maximum_call (q.available / seats_of q);
      future_reserve = (seats_of q - 1) * q.minimum_call;
      reason = "affordable_question_share";
    }

unfoldable pub allocate_research_call : CallRequest → Result BudgetError ResearchBudgetDecision
unfolding decide_call
allocate_research_call q =
    if nat_eqb q.minimum_call 0 || ltb q.maximum_call q.minimum_call
    then raise invalid_call_bounds
    else ok (decide_call q)

-- The seats are at least one, and each gets at least its minimum.
seats_bounds :
    (q : CallRequest)
    → 0 < q.minimum_call
    → q.minimum_call ≤ q.available
    → (1 ≤ seats_of q)
      × (q.minimum_call ≤ q.available / seats_of q)
      × (seats_of q * (q.available / seats_of q) ≤ q.available)
seats_bounds q h k =
    let s = seats_of q in
    let share : 1 ≤ q.available / q.minimum_call = (le-div_iff_mul-le h).1 (omega arith) in
    let some_seat : 1 ≤ s = omega arith in
    let fits : s * q.minimum_call ≤ q.available =
      (le-div_iff_mul-le {x = s} {y = q.available} h).0 (omega arith) in
    (some_seat, (le-div_iff_mul-le some_seat).1 (omega arith), mul-div-le q.available s)

-- With valid bounds a decision is made: the run is stopped exactly when not even the minimum is
-- available; otherwise the question yields exactly when it had an attempt and another had none.
pub allocate_research_call_outcome :
    (q : CallRequest)
    → 0 < q.minimum_call
    → q.minimum_call ≤ q.maximum_call
    → (allocate_research_call q ≡ ok (decide_call q))
      × (((decide_call q).outcome ≡ stop_run) ↔ (q.available < q.minimum_call))
      × (((decide_call q).outcome ≡ yield_question)
          ↔ (q.minimum_call ≤ q.available) × (0 < q.current_attempts) × (0 < q.other_unattempted))
unfolding allocate_research_call decide_call
allocate_research_call_outcome q h k =
    (ground arith, (λ e. ground arith, λ lt. ground arith), (λ e. ground arith, λ c. ground arith))

split_seats : (s m c t : ℕ) → 1 ≤ s → m ≤ t → c ≤ t → c + (s - 1) * m ≤ s * t
split_seats zero m c t h k l = absurd (omega arith)
split_seats (suc s) m c t h k l = grind arith

-- A call that is to be executed gets at least the minimum and at most the maximum, and what it
-- gets and what is kept for later seats is there to be spent.
pub allocate_research_call_affordable :
    (q : CallRequest)
    → 0 < q.minimum_call
    → q.minimum_call ≤ q.maximum_call
    → let d = decide_call q in
      d.outcome ≡ execute
      → (q.minimum_call ≤ d.call_tokens)
        × (d.call_tokens ≤ q.maximum_call)
        × (d.call_tokens + d.future_reserve ≤ q.available)
unfolding decide_call
allocate_research_call_affordable q h k x =
    let enough : q.minimum_call ≤ q.available = ground arith in
    let (some_seat, share, fits) = seats_bounds q h enough in
    let split =
      split_seats (seats_of q) q.minimum_call (min q.maximum_call (q.available / seats_of q))
        (q.available / seats_of q) some_seat share (omega arith) in
    (ground (arith, share), ground (arith, share), ground (arith, split, fits))

pos_multiple : (k m : ℕ) → 0 < k * m → m ≤ k * m
pos_multiple zero m h = absurd (omega (arith, h))
pos_multiple (suc k) m h = omega arith

reserve_is_multiple :
    (q : CallRequest)
    → (decide_call q).outcome ≡ execute
    → 0 < (decide_call q).future_reserve
    → q.minimum_call ≤ (decide_call q).future_reserve
unfolding decide_call
reserve_is_multiple q x h = ground (arith, pos_multiple (seats_of q - 1) q.minimum_call)

-- While another seat is kept, the run is not stopped after this call has spent its tokens,
-- whatever the attempts of the next question are.
pub allocate_research_call_next :
    (q : CallRequest) (eligible other attempts : ℕ)
    → 0 < q.minimum_call
    → q.minimum_call ≤ q.maximum_call
    → let d = decide_call q in
      d.outcome ≡ execute
      → 0 < d.future_reserve
      → (decide_call (record q {
        available = q.available - d.call_tokens;
        eligible_questions = eligible;
        other_unattempted = other;
        current_attempts = attempts;
      })).outcome
        ≢ stop_run
allocate_research_call_next q eligible other attempts h k x reserve stopped =
    let (least, most, affordable) = allocate_research_call_affordable q h k x in
    let next =
      (allocate_research_call_outcome
          (record q {
            available = q.available - (decide_call q).call_tokens;
            eligible_questions = eligible;
            other_unattempted = other;
            current_attempts = attempts;
          })
          h k).1.0
        stopped in
    let multiple = reserve_is_multiple q x reserve in
    omega (arith, least, affordable, next, multiple)
