-- ===== src/Budget/Risk.antt =====
-- The risk states of claims, gaps and questions of apps/api/app/domain/research_budget.py.
-- `fold` stands for `text.strip().casefold()`, `casefold` for `text.casefold()`; ids are texts;
-- counts are not negative, as at every call.
pub mod Claims
pub mod Questions
use deep_research_agent.Common.{
  ℕ, zero, suc, ◌+◌, ◌-◌, ◌*◌, Bool, true, false, not, ◌&&◌, ◌||◌, Option, none, some, List, [],
  ◌∷◌, ◌++◌, String, string_eq, ◌==◌, ltb, leb, nat_eqb, if◌then◌else◌, max, min, any, contains,
  unique,
}
use text.Mathlib.Text.{find?}
use deep_research_agent.Common.Floats.{Floats, lt, fmin, fmax, unit_clamp}

pub data RiskLevel : Type 0 where
  low medium high critical : RiskLevel

pub data RiskLifecycle : Type 0 where
  opened mitigating blocked resolved : RiskLifecycle

pub data VerificationState : Type 0 where
  not_required required verified blocked : VerificationState

pub record ClaimRiskState (F : Type 0) : Type 0 where
  pub claim_id : String
  pub question_id : String
  pub dimension_key : String
  pub claim_status : String
  pub claim_type : String
  pub importance : F
  pub risk_score : F
  pub risk_level : RiskLevel
  pub lifecycle : RiskLifecycle
  pub verification_state : VerificationState
  pub unresolved : Bool
  pub required_sources : ℕ
  pub independent_sources : ℕ
  pub independent_source_deficit : ℕ
  pub open_conflict_ids : List String
  pub reasons : List String

pub record GapRiskState (F : Type 0) : Type 0 where
  pub gap_id : String
  pub question_id : String
  pub gap_status : String
  pub gap_type : String
  pub severity : F
  pub resolution_attempts : ℕ
  pub risk_score : F
  pub risk_level : RiskLevel
  pub lifecycle : RiskLifecycle
  pub unresolved : Bool
  pub blocked : Bool
  pub reasons : List String

pub record QuestionRiskState (F : Type 0) : Type 0 where
  pub question_id : String
  pub priority : ℕ
  pub coverage : F
  pub risk_score : F
  pub risk_level : RiskLevel
  pub unresolved_high_risk : Bool
  pub gap_open : Bool
  pub requires_independent_sources : Bool
  pub open_dimension_keys : List String
  pub unresolved_claim_ids : List String
  pub high_risk_claim_ids : List String
  pub high_risk_conflict_ids : List String
  pub lifecycle : RiskLifecycle
  pub verification_state : VerificationState
  pub independent_source_deficit : ℕ
  pub borrow_eligible : Bool
  pub reasons : List String

-- `if xs` of a tuple
abbrev pub nonempty : {A : Type 0} → List A → Bool
nonempty [] = false
nonempty (x ∷ xs) = true

abbrev pub is_high : RiskLevel → Bool
is_high high = true
is_high critical = true
is_high _ = false

-- `if test: score += amount` and `reasons.append(reason)`
abbrev pub when : {A : Type 0} → Bool → A → List A
when true x = x ∷ []
when false x = []

-- `marker in text`
abbrev pub occurs_in : String → String → Bool
occurs_in text marker = elim (find? text marker) [ none ↦ false | some i ↦ true ]

-- the arguments of `classify_claim_risk`
pub record ClaimFacts (F : Type 0) : Type 0 where
  pub claim_id : String
  pub question_id : String
  pub dimension_key : String
  pub claim_status : String
  pub claim_type : String
  pub importance : F
  pub independent_sources : ℕ
  pub required_sources : ℕ
  pub open_conflict_ids : List String

-- the arguments of `classify_gap_risk`
pub record GapFacts (F : Type 0) : Type 0 where
  pub gap_id : String
  pub question_id : String
  pub gap_status : String
  pub gap_type : String
  pub severity : F
  pub resolution_attempts : ℕ
  pub blocked : Bool

-- the arguments of `classify_question_risk`
pub record QuestionFacts (F : Type 0) : Type 0 where
  pub question_id : String
  pub priority : ℕ
  pub coverage : F
  pub requirements : List String
  pub gap_open : Bool
  pub open_dimension_keys : List String
  pub unresolved_claim_ids : List String
  pub high_risk_claim_ids : List String
  pub high_risk_conflict_ids : List String
  pub independent_source_deficit : ℕ
  pub blocked : Bool

-- `folded.strip() or default`
abbrev pub text_or : String → String → String
text_or s default = if s == "" then default else s

abbrev pub is_resolved : RiskLifecycle → Bool
is_resolved resolved = true
is_resolved _ = false

abbrev pub is_workable : RiskLifecycle → Bool
is_workable opened = true
is_workable mitigating = true
is_workable _ = false

abbrev pub is_blocked : VerificationState → Bool
is_blocked VerificationState.blocked = true
is_blocked _ = false

module _ (fl : Floats) where
  open fl use {F, le, decimal, add, sub, mul, round}

  abbrev pub add_if : Bool → F → F → F
  add_if true amount score = add score amount
  add_if false amount score = score

  -- `_risk_level`
  unfoldable pub risk_level : F → RiskLevel
  risk_level score =
      if le (decimal 85 2) score
      then critical
      else if le (decimal 65 2) score
      then high
      else if le (decimal 35 2) score
      then medium
      else low

  -- `round(min(1.0, score), 4)`
  unfoldable pub capped : F → F
  capped score = round (fmin fl (decimal 1 0) score) 4

  abbrev pub is_risky_type : String → Bool
  is_risky_type t = t == "numeric" || t == "forecast" || t == "comparative" || t == "market"

  -- the sum of `classify_claim_risk`, before it is capped
  unfoldable pub claim_score :
      (status claim_type : String) (importance : F) (deficit : ℕ) (conflicts : List String) → F
  claim_score status claim_type importance deficit conflicts =
      let base = mul importance (decimal 35 2) in
      let weighted = add_if (le (decimal 75 2) importance) (decimal 25 2) base in
      let typed = add_if (is_risky_type claim_type) (decimal 25 2) weighted in
      let sourced =
        add_if (ltb 0 deficit) (fmin fl (decimal 30 2) (mul (decimal 15 2) (decimal deficit 0)))
          typed in
      add_if (status == "disputed" || nonempty conflicts) (decimal 40 2) sourced

  abbrev pub claim_reasons :
      (status claim_type : String) (importance : F) (deficit : ℕ) (conflicts : List String)
      → List String
  claim_reasons status claim_type importance deficit conflicts =
      when (le (decimal 75 2) importance) "high_importance"
      ++ when (is_risky_type claim_type) "high_risk_claim_type"
      ++ when (ltb 0 deficit) "independent_source_deficit"
      ++ when (status == "disputed" || nonempty conflicts) "open_conflict"
      ++ when (status == "rejected") "claim_rejected"

  -- `lifecycle` of a claim
  abbrev pub claim_lifecycle : (settled disputed : Bool) → ℕ → RiskLifecycle
  claim_lifecycle settled disputed independent_sources =
      if settled
      then resolved
      else if disputed
      then RiskLifecycle.blocked
      else if ltb 0 independent_sources
      then mitigating
      else opened

  abbrev pub verification_of : (needed done conflicting : Bool) → VerificationState
  verification_of needed done conflicting =
      if not needed
      then not_required
      else if done
      then verified
      else if conflicting
      then VerificationState.blocked
      else required

  unfoldable pub classify_claim_risk : (String → String) → ClaimFacts F → ClaimRiskState F
  unfolding claim_score capped risk_level
  classify_claim_risk fold c =
      let status = fold c.claim_status in
      let claim_type = text_or (fold c.claim_type) "factual" in
      let importance = unit_clamp fl c.importance in
      let required_sources = max 1 c.required_sources in
      let conflicts = unique c.open_conflict_ids in
      let deficit = required_sources - c.independent_sources in
      let terminal_rejection = status == "rejected" in
      let supported = status == "supported" && nat_eqb deficit 0 && not (nonempty conflicts) in
      let score = capped (
        if terminal_rejection
        then decimal 0 0
        else claim_score status claim_type importance deficit conflicts) in
      let level = risk_level score in
      let needed =
        not terminal_rejection && (ltb 1 required_sources || is_high level || nonempty conflicts) in
      record {
        claim_id = c.claim_id;
        question_id = c.question_id;
        dimension_key = c.dimension_key;
        claim_status = status;
        claim_type = claim_type;
        importance = round importance 4;
        risk_score = score;
        risk_level = level;
        lifecycle =
            claim_lifecycle (supported || terminal_rejection)
              (status == "disputed" || nonempty conflicts) c.independent_sources;
        verification_state = verification_of needed supported (nonempty conflicts);
        unresolved = not terminal_rejection && not supported;
        required_sources = required_sources;
        independent_sources = c.independent_sources;
        independent_source_deficit = deficit;
        open_conflict_ids = conflicts;
        reasons = claim_reasons status claim_type importance deficit conflicts;
      }

  unfoldable pub classify_gap_risk : (String → String) → GapFacts F → GapRiskState F
  unfolding capped risk_level
  classify_gap_risk fold g =
      let status = fold g.gap_status in
      let severity = unit_clamp fl g.severity in
      let attempts = g.resolution_attempts in
      let unresolved = not (status == "resolved") in
      let repeated = leb 2 attempts && unresolved in
      let stuck = g.blocked && unresolved in
      let base = if unresolved then mul severity (decimal 70 2) else decimal 0 0 in
      let score = capped (add_if stuck (decimal 25 2) (add_if repeated (decimal 15 2) base)) in
      record {
        gap_id = g.gap_id;
        question_id = g.question_id;
        gap_status = status;
        gap_type = text_or (fold g.gap_type) "missing";
        severity = round severity 4;
        resolution_attempts = attempts;
        risk_score = score;
        risk_level = risk_level score;
        lifecycle = claim_lifecycle (not unresolved) g.blocked attempts;
        unresolved = unresolved;
        blocked = stuck;
        reasons =
            when repeated "repeated_resolution_attempts"
            ++ when stuck "no_eligible_action"
            ++ (if unresolved then "gap_open" else "gap_resolved") ∷ [];
      }

  -- the markers of `_requirement_is_high_risk`
  abbrev pub high_risk_markers : List String
  high_risk_markers =
      "独立来源" ∷ "两个" ∷ "两条" ∷ "市场规模" ∷ "市场份额" ∷ "预测" ∷ "增长率" ∷ "比较" ∷ "领先" ∷ "independent" ∷ "two "
      ∷ "market size" ∷ "market share" ∷ "forecast" ∷ "projection" ∷ "growth rate" ∷ "comparative"
      ∷ "leading" ∷ "largest" ∷ []

  unfoldable pub requirement_is_high_risk : (String → String) → String → Bool
  requirement_is_high_risk casefold value =
      let normalized = casefold value in
      any (λ marker. occurs_in normalized marker) high_risk_markers

  -- the score of `classify_question_risk`, before it is capped
  unfoldable pub question_score : (independent : Bool) → QuestionFacts F → F
  question_score independent q =
      let is_open = q.gap_open || nonempty q.open_dimension_keys in
      let base = mul (sub (decimal 1 0) q.coverage) (decimal 30 2) in
      let ranked =
        if nat_eqb q.priority 1
        then add base (decimal 35 2)
        else add_if (nat_eqb q.priority 2) (decimal 10 2) base in
      let checked = add_if independent (decimal 25 2) ranked in
      let gapped = add_if is_open (decimal 10 2) checked in
      let claimed = add_if (nonempty q.high_risk_claim_ids) (decimal 20 2) gapped in
      let disputed = add_if (nonempty q.high_risk_conflict_ids) (decimal 35 2) claimed in
      let sourced =
        add_if (ltb 0 q.independent_source_deficit)
          (fmin fl (decimal 20 2) (mul (decimal q.independent_source_deficit 0) (decimal 10 2)))
          disputed in
      add_if (q.blocked && (is_open || nonempty q.unresolved_claim_ids)) (decimal 10 2) sourced

  abbrev pub question_reasons : (independent : Bool) → QuestionFacts F → List String
  question_reasons independent q =
      let is_open = q.gap_open || nonempty q.open_dimension_keys in
      when (nat_eqb q.priority 1) "priority_one"
      ++ when independent "independent_corroboration_required"
      ++ when is_open "acceptance_gap_open"
      ++ when (nonempty q.high_risk_claim_ids) "high_risk_claim_unresolved"
      ++ when (nonempty q.high_risk_conflict_ids) "high_risk_conflict_open"
      ++ when (ltb 0 q.independent_source_deficit) "independent_source_deficit"
      ++ when (q.blocked && (is_open || nonempty q.unresolved_claim_ids)) "no_eligible_action"

  abbrev pub question_lifecycle : QuestionFacts F → RiskLifecycle
  question_lifecycle q =
      if not q.gap_open
        && not (nonempty q.open_dimension_keys)
        && not (nonempty q.unresolved_claim_ids)
        && not (nonempty q.high_risk_conflict_ids)
      then resolved
      else if q.blocked || nonempty q.high_risk_conflict_ids
      then RiskLifecycle.blocked
      else if lt fl (decimal 0 0) q.coverage
      then mitigating
      else opened

  abbrev pub question_verification : (independent : Bool) → QuestionFacts F → VerificationState
  question_verification independent q =
      let deficit = ltb 0 q.independent_source_deficit in
      let conflicting = nonempty q.high_risk_conflict_ids in
      if not (independent || nonempty q.high_risk_claim_ids || conflicting || deficit)
      then not_required
      else if conflicting
      then VerificationState.blocked
      else if is_resolved (question_lifecycle q) && not deficit
      then verified
      else required

  -- the conversions at the head of `classify_question_risk`
  abbrev pub normalized : QuestionFacts F → QuestionFacts F
  normalized q = record q {
    priority = min 3 (max 1 q.priority);
    coverage = unit_clamp fl q.coverage;
    open_dimension_keys = unique q.open_dimension_keys;
    unresolved_claim_ids = unique q.unresolved_claim_ids;
    high_risk_claim_ids = unique q.high_risk_claim_ids;
    high_risk_conflict_ids = unique q.high_risk_conflict_ids;
  }

  -- the rest of `classify_question_risk`
  unfoldable pub classify_normalized : Bool → QuestionFacts F → QuestionRiskState F
  unfolding question_score capped risk_level
  classify_normalized independent q =
      let score = capped (question_score independent q) in
      let level = risk_level score in
      let unresolved =
        is_high level
        && (q.gap_open
            || nonempty q.open_dimension_keys
            || nonempty q.high_risk_claim_ids
            || nonempty q.high_risk_conflict_ids
            || ltb 0 q.independent_source_deficit) in
      let lifecycle = question_lifecycle q in
      let verification = question_verification independent q in
      record {
        question_id = q.question_id;
        priority = q.priority;
        coverage = round q.coverage 4;
        risk_score = score;
        risk_level = level;
        unresolved_high_risk = unresolved;
        gap_open = q.gap_open;
        requires_independent_sources = independent;
        open_dimension_keys = q.open_dimension_keys;
        unresolved_claim_ids = q.unresolved_claim_ids;
        high_risk_claim_ids = q.high_risk_claim_ids;
        high_risk_conflict_ids = q.high_risk_conflict_ids;
        lifecycle = lifecycle;
        verification_state = verification;
        independent_source_deficit = q.independent_source_deficit;
        borrow_eligible = unresolved && is_workable lifecycle && not (is_blocked verification);
        reasons = question_reasons independent q;
      }

  unfoldable pub classify_question_risk : (String → String) → QuestionFacts F → QuestionRiskState F
  unfolding classify_normalized requirement_is_high_risk
  classify_question_risk casefold q =
      classify_normalized (any (requirement_is_high_risk casefold) q.requirements) (normalized q)
