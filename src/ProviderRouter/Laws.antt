-- ===== src/ProviderRouter/Laws.antt =====
-- What `select_for` chooses.
use deep_research_agent.Common.{
  ℕ, ◌≤◌, ◌<◌, ◌≡◌, ◌≢◌, ◌⊎◌, inl, inr, refl, ap, Bool, true, false, ◌||◌, Bool-cases, Option, none,
  some, List, [], ◌∷◌, String, string_eq, contains, head?, length, arith, keep_if, unique,
  contains-unique,
}
use deep_research_agent.Common.Floats.{Floats}
use deep_research_agent.ProviderHealth.Tracker.{state_of}
use deep_research_agent.ProviderRouter.Choice.{
  ProviderSelectionDecision, Router, Ranked, sort_ranked, rank, tier, is_barred, is_blocked,
  select_for, decide, primary_of,
}
use deep_research_agent.ProviderRouter.Ranking.{
  sort_ranked-In, sort_ranked-before, comes_before-priority, rank-Describes, rank_complete,
}

module _ (fl : Floats) (r : Router fl.F) (is_feedback : Bool) (id : Option ℕ)
    (excluded : List String) (used : ℕ) where
  open fl use {F}

  abbrev decision : ProviderSelectionDecision
  decision = select_for fl r is_feedback id excluded used

  abbrev ranked : List Ranked
  ranked = rank fl r.health is_feedback (unique excluded) 0 r.candidates

  -- what the decision is, by the list that the sort returns
  selected_is_first :
      (xs : List Ranked) (n : ℕ) (barred : List String) (p : String)
      → (decide fl r is_feedback id used n (primary_of r.candidates) barred xs).selected_provider
        ≡ some p
      → (b : Ranked) × (head? xs ≡ some b)
        × (b.provider ≡ p)
        × ((decide fl r is_feedback id used n (primary_of r.candidates) barred xs).health_state
            ≡ some b.state)
        × (p ≢ primary_of r.candidates → used < r.max_switches)
  selected_is_first [] n barred p h = cc
  selected_is_first (b ∷ bs) n barred p h = (
    b,
    refl,
    ground arith,
    ground arith,
    λ ne. ground (arith, string_eq.same_iff p (primary_of r.candidates), ne),
  )

  -- A selected provider is in the pool, is not excluded, is neither unavailable nor disabled, the
  -- decision shows its state, and it is not the primary only while the switch budget lasts.
  pub selection_admissible :
      (p : String)
      → decision.selected_provider ≡ some p
      → (contains p r.candidates ≡ true)
        × (contains p excluded ≡ false)
        × (is_blocked (state_of fl r.health p) ≡ false)
        × (decision.health_state ≡ some (state_of fl r.health p))
        × (p ≢ primary_of r.candidates → used < r.max_switches)
  unfolding select_for
  selection_admissible p h =
      let barred = keep_if (is_barred fl r.health (unique excluded)) r.candidates in
      let (b, b_first, b_is, b_state, budget) =
        selected_is_first (sort_ranked ranked) (length ranked) barred p h in
      let (pool, free, state, t) =
        rank-Describes fl r.health is_feedback (unique excluded) 0 r.candidates b
          (sort_ranked-In ranked b b_first) in
      (ground arith, ground (arith, contains-unique p excluded), ground arith, ground arith, budget)

  -- the first entry is of no worse tier than any provider that is not barred
  first_tier :
      (b : Ranked) (q : String)
      → head? (sort_ranked ranked) ≡ some b
      → contains q r.candidates ≡ true
      → is_barred fl r.health (unique excluded) q ≡ false
      → b.priority ≤ tier is_feedback (state_of fl r.health q)
  first_tier b q b_first m free =
      let (x, x_in, x_is) =
        rank_complete fl r.health is_feedback (unique excluded) 0 r.candidates q m free in
      let (pool, barred, state, t) =
        rank-Describes fl r.health is_feedback (unique excluded) 0 r.candidates x x_in in
      let (w, w_first, w_before) = sort_ranked-before ranked x x_in in
      ground (arith, comes_before-priority w x w_before, b_first, w_first)

  -- No provider of the pool that is neither excluded nor blocked is of a better tier than the
  -- selected one.
  pub selection_preferred :
      (p q : String)
      → decision.selected_provider ≡ some p
      → contains q r.candidates ≡ true
      → contains q excluded ≡ false
      → is_blocked (state_of fl r.health q) ≡ false
      → tier is_feedback (state_of fl r.health p) ≤ tier is_feedback (state_of fl r.health q)
  unfolding select_for
  selection_preferred p q h m not_excluded not_blocked =
      let barred = keep_if (is_barred fl r.health (unique excluded)) r.candidates in
      let (b, b_first, b_is, b_state, budget) =
        selected_is_first (sort_ranked ranked) (length ranked) barred p h in
      let (pool, free, state, t) =
        rank-Describes fl r.health is_feedback (unique excluded) 0 r.candidates b
          (sort_ranked-In ranked b b_first) in
      let free_q : is_barred fl r.health (unique excluded) q ≡ false =
        rw (contains-unique q excluded, not_excluded) not_blocked in
      let le = first_tier b q b_first m free_q in
      let at_p : state_of fl r.health b.provider ≡ state_of fl r.health p =
        ap (state_of fl r.health) b_is in
      rw (← at_p, ← state, ← t) le

  refused :
      (xs : List Ranked) (n : ℕ) (barred : List String)
      → (decide fl r is_feedback id used n (primary_of r.candidates) barred xs).selected_provider
        ≡ none
      → (head? xs ≡ none) ⊎ (r.max_switches ≤ used)
  refused [] n barred h = inl refl
  refused (b ∷ bs) n barred h = inr (ground arith)

  -- Nothing is selected only if every provider of the pool is excluded or blocked, or if the
  -- switch budget is used up.
  pub refusal_justified :
      decision.selected_provider ≡ none
      → ((q : String)
          → contains q r.candidates ≡ true
          → (contains q excluded || is_blocked (state_of fl r.health q)) ≡ true)
        ⊎ (r.max_switches ≤ used)
  unfolding select_for
  refusal_justified h =
      elim (refused (sort_ranked ranked) (length ranked)
        (keep_if (is_barred fl r.health (unique excluded)) r.candidates) h) [
          | inl empty ↦ inl (λ q m. elim (Bool-cases (is_barred fl r.health (unique excluded) q)) [
            | inl barred ↦ rw (contains-unique q excluded) at barred
            | inr free ↦
                let (x, x_in, x_is) =
                  rank_complete fl r.health is_feedback (unique excluded) 0 r.candidates q m free in
                let (w, w_first, w_before) = sort_ranked-before ranked x x_in in
                absurd (cc (empty, w_first))
          ])
          | inr spent ↦ inr spent
        ]
