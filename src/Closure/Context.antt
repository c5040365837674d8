-- ===== src/Closure/Context.antt =====
-- apps/api/app/domain/research_context.py: the context of a research need, read from the metadata
-- of a feedback, and the test of an owner against those already counted.
use deep_research_agent.Common.{
  ℕ, Bool, true, false, not, ◌&&◌, ◌||◌, Option, none, some, List, [], ◌∷◌, ◌++◌, String, string_eq,
  ◌==◌, ltb, contains, if◌then◌else◌,
}
use deep_research_agent.Common.Text.{is_blank, strip}
use deep_research_agent.Common.Values.{
  pos, Value, text, integer, sequence, Items, nil, item, Fields, lookup, is_nonempty,
}

pub record ResearchContext : Type 0 where
  pub evidence_failure_reason : Option String
  pub missing_evidence_type : Option String
  pub refined_need_type : Option String
  pub query_hints : List String
  pub existing_source_owners : List String
  pub existing_domains : List String
  pub required_source_count : Option ℕ
  pub missing_source_count : Option ℕ
  pub target_claim_id : Option String

abbrev pub empty_research_context : ResearchContext
empty_research_context = record {
  evidence_failure_reason = none;
  missing_evidence_type = none;
  refined_need_type = none;
  query_hints = [];
  existing_source_owners = [];
  existing_domains = [];
  required_source_count = none;
  missing_source_count = none;
  target_claim_id = none;
}

-- `bool(x)` of an optional text
abbrev pub has_text : Option String → Bool
has_text none = false
has_text (some s) = not (s == "")

abbrev pub has_count : Option ℕ → Bool
has_count none = false
has_count (some n) = ltb 0 n

abbrev pub has_items : List String → Bool
has_items [] = false
has_items (x ∷ xs) = true

-- `ResearchContext.is_empty`
unfoldable pub is_empty : ResearchContext → Bool
is_empty c = not (
    has_text c.evidence_failure_reason
    || has_text c.missing_evidence_type
    || has_text c.refined_need_type
    || has_items c.query_hints
    || has_items c.existing_source_owners
    || has_items c.existing_domains
    || has_count c.required_source_count
    || has_count c.missing_source_count
    || has_text c.target_claim_id)

-- `ResearchContext.independent_source_shortage`
abbrev pub independent_source_shortage : ResearchContext → Bool
independent_source_shortage c = has_count c.missing_source_count

-- `meaningful_context`
unfoldable pub meaningful_context : Option ResearchContext → Option ResearchContext
unfolding is_empty
meaningful_context none = none
meaningful_context (some c) = if is_empty c then none else some c

-- `value.strip() or None`
abbrev pub stripped : String → Option String
stripped s = if is_blank s then none else some (strip s)

abbrev pub or_text : Option String → Option String → Option String
or_text none t = t
or_text (some s) t = some s

module _ {F : Type 0} where
  abbrev pub text_of : Option (Value F) → Option String
  text_of (some (text s)) = stripped s
  text_of _ = none

  -- `_text`
  unfoldable pub read_text : Fields F → String → Option String
  unfolding lookup is_blank strip
  read_text metadata key = text_of (lookup key metadata)

  -- the loop of `_texts`; `items` are the texts found so far
  abbrev pub add_text : List String → Value F → List String
  add_text items (text s) =
      let t = strip s in
      if not (is_blank s) && not (contains t items) then items ++ t ∷ [] else items
  add_text items _ = items

  abbrev pub collect_texts : List String → Items F → List String
  collect_texts items nil = items
  collect_texts items (item v rest) = collect_texts (add_text items v) rest

  abbrev pub texts_of : Option (Value F) → List String
  texts_of (some (sequence values)) = collect_texts [] values
  texts_of _ = []

  -- `_texts`
  unfoldable pub read_texts : Fields F → String → List String
  unfolding lookup is_blank strip
  read_texts metadata key = texts_of (lookup key metadata)

  abbrev pub count_of : Option (Value F) → Option ℕ
  count_of (some (integer (pos n))) = if ltb 0 n then some n else none
  count_of _ = none

  -- `_int`
  unfoldable pub read_count : Fields F → String → Option ℕ
  unfolding lookup
  read_count metadata key = count_of (lookup key metadata)

  -- `ResearchContext.from_mapping`
  unfoldable pub from_mapping : Fields F → ResearchContext
  unfolding read_text read_texts read_count
  from_mapping m =
      if is_nonempty m
      then record {
        evidence_failure_reason =
            or_text (read_text m "evidence_failure_reason") (read_text m "primary_failure_reason");
        missing_evidence_type = read_text m "missing_evidence_type";
        refined_need_type = read_text m "refined_need_type";
        query_hints = read_texts m "query_hints";
        existing_source_owners = read_texts m "existing_source_owners";
        existing_domains = read_texts m "existing_domains";
        required_source_count = read_count m "required_source_count";
        missing_source_count = read_count m "missing_source_count";
        target_claim_id = read_text m "target_claim_id";
      }
      else empty_research_context

-- the set `existing`
unfoldable pub folded_owners : (casefold : String → String) → List String → List String
unfolding strip is_blank
folded_owners casefold [] = []
folded_owners casefold (o ∷ owners) =
    let rest = folded_owners casefold owners in
    if is_blank o then rest else casefold (strip o) ∷ rest

-- `independent_source_eligibility`; `casefold` is Python's
unfoldable pub independent_source_eligibility :
    (casefold : String → String) → Option String → (existing_source_owners : List String) → Bool
unfolding strip folded_owners
independent_source_eligibility casefold none owners = false
independent_source_eligibility casefold (some key) owners =
    let owner = casefold (strip key) in
    if owner == "" || owner == "unknown"
    then false
    else not (contains owner (folded_owners casefold owners))
