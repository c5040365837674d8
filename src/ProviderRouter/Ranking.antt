-- ===== src/ProviderRouter/Ranking.antt =====
-- What the loop of `select_for` ranks, and which entry the sort puts first.
use deep_research_agent.Common.{
  ℕ, suc, ◌≤◌, ◌≡◌, ◌⊎◌, inl, inr, refl, sym, subst, ==_refl, Bool, true, false, Bool-cases, Option,
  none, some, List, [], ◌∷◌, String, string_eq, ◌==◌, contains, head?, arith, if◌then◌else◌,
}
use deep_research_agent.Common.Floats.{Floats}
use deep_research_agent.ProviderHealth.Tracker.{Tracker, state_of}
use deep_research_agent.ProviderRouter.Choice.{
  Ranked, comes_before, insert_ranked, sort_ranked, rank, tier, is_barred,
}

-- `x` is an entry of the list.
abbrev pub In : Ranked → List Ranked → Type 0
In x [] = ⊥
In x (y ∷ ys) = (x ≡ y) ⊎ In x ys

comes_before_refl : (x : Ranked) → comes_before x x ≡ true
comes_before_refl x = ground arith

comes_before_trans :
    (x y z : Ranked) → comes_before x y ≡ true → comes_before y z ≡ true → comes_before x z ≡ true
comes_before_trans x y z h k = ground arith

comes_before_total : (x y : Ranked) → comes_before x y ≡ false → comes_before y x ≡ true
comes_before_total x y h = ground arith

pub comes_before-priority : (x y : Ranked) → comes_before x y ≡ true → x.priority ≤ y.priority
comes_before-priority x y h = ground arith

-- the smaller of an entry and the one that was first
abbrev first : Ranked → Option Ranked → Ranked
first x none = x
first x (some y) = if comes_before x y then x else y

head?-insert_ranked :
    (x : Ranked) (ys : List Ranked) → head? (insert_ranked x ys) ≡ some (first x (head? ys))
unfolding insert_ranked
head?-insert_ranked x [] = refl
head?-insert_ranked x (y ∷ ys) = ground arith

first_later : (x y : Ranked) → comes_before x y ≡ false → first x (some y) ≡ y
first_later x y p = ground arith

first-In :
    (x : Ranked) (xs : List Ranked) (o : Option Ranked)
    → ((y : Ranked) → o ≡ some y → In y xs)
    → In (first x o) (x ∷ xs)
first-In x xs none h = inl refl
first-In x xs (some y) h = elim (Bool-cases (comes_before x y)) [
  | inl p ↦ inl (ground arith)
  | inr p ↦ inr (subst (λ w. In w xs) (sym (first_later x y p)) (h y refl))
]

first-before :
    (x z : Ranked) (xs : List Ranked) (o : Option Ranked)
    → (In z xs → (y : Ranked) × (o ≡ some y) × (comes_before y z ≡ true))
    → In z (x ∷ xs)
    → comes_before (first x o) z ≡ true
first-before x z xs none h (inl e) = rw e (comes_before_refl x)
first-before x z xs none h (inr m) = ground (arith, h m)
first-before x z xs (some y) h (inl e) =
    rw e (ground (arith, comes_before_refl x, comes_before_total x y))
first-before x z xs (some y) h (inr m) =
    let (w, same, before) = h m in ground (arith, comes_before_trans x y z, comes_before_total x y)

-- The sort puts first an entry of the list.
pub sort_ranked-In : (xs : List Ranked) (b : Ranked) → head? (sort_ranked xs) ≡ some b → In b xs
unfolding sort_ranked
sort_ranked-In [] b h = cc
sort_ranked-In (x ∷ xs) b h =
    let e : first x (head? (sort_ranked xs)) ≡ b =
      ground (arith, head?-insert_ranked x (sort_ranked xs)) in
    subst (λ w. In w (x ∷ xs)) e
      (first-In x xs (head? (sort_ranked xs)) (λ y m. sort_ranked-In xs y m))

-- An entry of the list is not before the one that the sort puts first.
pub sort_ranked-before :
    (xs : List Ranked) (z : Ranked)
    → In z xs
    → (b : Ranked) × (head? (sort_ranked xs) ≡ some b) × (comes_before b z ≡ true)
unfolding sort_ranked
sort_ranked-before [] z h = absurd h
sort_ranked-before (x ∷ xs) z h = (
  first x (head? (sort_ranked xs)),
  head?-insert_ranked x (sort_ranked xs),
  first-before x z xs (head? (sort_ranked xs)) (λ m. sort_ranked-before xs z m) h,
)

In-entry :
    (b : Bool) (x y : Ranked) (ys : List Ranked)
    → In x (if b then ys else y ∷ ys)
    → (b ≡ false) × (x ≡ y) ⊎ In x ys
In-entry true x y ys h = inr h
In-entry false x y ys (inl e) = inl (refl, e)
In-entry false x y ys (inr m) = inr m

In-rest : (b : Bool) (x y : Ranked) (ys : List Ranked) → In x ys → In x (if b then ys else y ∷ ys)
In-rest true x y ys h = h
In-rest false x y ys h = inr h

In-free : (b : Bool) (y : Ranked) (ys : List Ranked) → b ≡ false → In y (if b then ys else y ∷ ys)
In-free true y ys h = cc
In-free false y ys h = inl refl

module _ (fl : Floats) where
  open fl use {F}

  -- what an entry of `ranked` says of its provider
  abbrev pub Describes : Tracker F → Bool → List String → List String → Ranked → Type 0
  Describes health is_feedback excluded pool x =
      (contains x.provider pool ≡ true)
      × (is_barred fl health excluded x.provider ≡ false)
      × (x.state ≡ state_of fl health x.provider)
      × (x.priority ≡ tier is_feedback x.state)

  -- Every entry is a provider of the pool that is not barred, with its state and tier.
  pub rank-Describes :
      (health : Tracker F) (is_feedback : Bool) (excluded : List String) (n : ℕ) (ps : List String)
      (x : Ranked)
      → In x (rank fl health is_feedback excluded n ps)
      → Describes health is_feedback excluded ps x
  unfolding rank
  rank-Describes health is_feedback excluded n [] x h = absurd h
  rank-Describes health is_feedback excluded n (p ∷ ps) x h =
      elim (In-entry (is_barred fl health excluded p) x _ _ h) [
        | inl (free, e) ↦ ground (arith, ==_refl p)
        | inr m ↦ ground (arith, rank-Describes health is_feedback excluded (suc n) ps x m)
      ]

  -- Every provider of the pool that is not barred has an entry.
  pub rank_complete :
      (health : Tracker F) (is_feedback : Bool) (excluded : List String) (n : ℕ) (ps : List String)
      (q : String)
      → contains q ps ≡ true
      → is_barred fl health excluded q ≡ false
      → (x : Ranked) × In x (rank fl health is_feedback excluded n ps) × (x.provider ≡ q)
  unfolding rank
  rank_complete health is_feedback excluded n [] q m free = cc
  rank_complete health is_feedback excluded n (p ∷ ps) q m free =
      let state = state_of fl health p in
      let entry : Ranked = record {
        priority = tier is_feedback state;
        order = n;
        provider = p;
        state = state;
      } in
      let rest = rank fl health is_feedback excluded (suc n) ps in
      elim (Bool-cases (p == q)) [
        | inl e ↦
            let same = (string_eq.same_iff p q).0 e in
            (entry, In-free (is_barred fl health excluded p) entry rest (rw same free), same)
        | inr ne ↦
            let (x, x_in, x_is) =
              rank_complete health is_feedback excluded (suc n) ps q (ground arith) free in
            (x, In-rest (is_barred fl health excluded p) x entry rest x_in, x_is)
      ]
