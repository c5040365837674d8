-- ===== src/ResearchState/Merge.antt =====
-- How `apply_patch` merges models by their ids.
use deep_research_agent.Common.{
  ℕ, ◌≡◌, inl, inr, refl, ap, false, Bool-cases, Option, none, some, List, [], ◌∷◌, map, nat_eq,
  ◌==◌, contains, arith, if◌then◌else◌, IsDistinct, unique_of_IsDistinct,
}
use deep_research_agent.Common.Dict.{get, put, keys, values, get-put, put-IsDistinct}
use deep_research_agent.ResearchState.Validate.{has_repeats}
use deep_research_agent.ResearchState.Reducer.{put_all, entries_of, index_by, merge, or_keep_some}

module _ {V : Type 0} (key : V → ℕ) where
  -- the last model with the id
  abbrev pub find_last : ℕ → List V → Option V
  find_last k [] = none
  find_last k (v ∷ vs) = or_keep_some (find_last k vs) (if key v == k then some v else none)

  -- the last value set for the key
  abbrev last_entry : ℕ → List (ℕ × V) → Option V
  last_entry k [] = none
  last_entry k ((j, v) ∷ es) = or_keep_some (last_entry k es) (if j == k then some v else none)

  -- every value stands under its id
  abbrev Keyed : List (ℕ × V) → Type 0
  Keyed [] = Unit
  Keyed ((k, v) ∷ d) = (key v ≡ k) × Keyed d

  get-put_all :
      (k : ℕ) (es d : List (ℕ × V))
      → get k (put_all es d) ≡ or_keep_some (last_entry k es) (get k d)
  unfolding put_all
  get-put_all k [] d = refl
  get-put_all k ((j, v) ∷ es) d = ground (arith, get-put_all k es (put j v d), get-put j k v d)

  last_entry-entries_of : (k : ℕ) (vs : List V) → last_entry k (entries_of key vs) ≡ find_last k vs
  last_entry-entries_of k [] = refl
  last_entry-entries_of k (v ∷ vs) =
      ap (λ o. or_keep_some o (if key v == k then some v else none)) (last_entry-entries_of k vs)

  get-index_by : (k : ℕ) (vs : List V) → get k (index_by key vs) ≡ find_last k vs
  unfolding index_by get
  get-index_by k vs =
      ground (arith, get-put_all k (entries_of key vs) [], last_entry-entries_of k vs)

  put_all-IsDistinct :
      (es d : List (ℕ × V)) → IsDistinct (keys d) → IsDistinct (keys (put_all es d))
  unfolding put_all
  put_all-IsDistinct [] d h = h
  put_all-IsDistinct ((j, v) ∷ es) d h = put_all-IsDistinct es (put j v d) (put-IsDistinct j v d h)

  put-Keyed : (v : V) (d : List (ℕ × V)) → Keyed d → Keyed (put (key v) v d)
  unfolding put
  put-Keyed v [] h = (refl, tt)
  put-Keyed v ((j, w) ∷ d) h = elim (Bool-cases (j == key v)) [
    | inl same ↦ rw same (ground arith, h.1)
    | inr differ ↦ rw differ (h.0, put-Keyed v d h.1)
  ]

  put_all-Keyed : (es d : List (ℕ × V)) → Keyed es → Keyed d → Keyed (put_all es d)
  unfolding put_all
  put_all-Keyed [] d h k = k
  put_all-Keyed ((j, v) ∷ es) d h k = put_all-Keyed es (put j v d) h.1 (rw h.0 at (put-Keyed v d k))

  entries_of-Keyed : (vs : List V) → Keyed (entries_of key vs)
  entries_of-Keyed [] = tt
  entries_of-Keyed (v ∷ vs) = (refl, entries_of-Keyed vs)

  index_by-Keyed : (vs : List V) → Keyed (index_by key vs)
  unfolding index_by
  index_by-Keyed vs = put_all-Keyed (entries_of key vs) [] (entries_of-Keyed vs) tt

  index_by-IsDistinct : (vs : List V) → IsDistinct (keys (index_by key vs))
  unfolding index_by
  index_by-IsDistinct vs = put_all-IsDistinct (entries_of key vs) [] tt

  map-values : (d : List (ℕ × V)) → Keyed d → map key (values d) ≡ keys d
  map-values [] h = refl
  map-values ((k, v) ∷ d) h = ground (arith, map-values d h.1)

  absent : (k : ℕ) (d : List (ℕ × V)) → contains k (keys d) ≡ false → last_entry k d ≡ none
  absent k [] h = refl
  absent k ((j, v) ∷ d) h = ground (arith, absent k d)

  -- with distinct keys the first entry of a key is the last
  last_entry-get : (k : ℕ) (d : List (ℕ × V)) → IsDistinct (keys d) → last_entry k d ≡ get k d
  unfolding get
  last_entry-get k [] h = refl
  last_entry-get k ((j, v) ∷ d) h = ground (arith, last_entry-get k d h.1, absent k d)

  find_last-values : (k : ℕ) (d : List (ℕ × V)) → Keyed d → find_last k (values d) ≡ last_entry k d
  find_last-values k [] h = refl
  find_last-values k ((j, v) ∷ d) h = ground (arith, find_last-values k d h.1)

  -- The merge never repeats an id, even if the models that are merged do.
  pub merge-IsDistinct : (old new : List V) → IsDistinct (map key (merge key old new))
  unfolding merge
  merge-IsDistinct old new =
      rw
        (map-values (put_all (index_by key new) (index_by key old)) (
          put_all-Keyed (index_by key new) (index_by key old) (index_by-Keyed new)
            (index_by-Keyed old)))
        (put_all-IsDistinct (index_by key new) (index_by key old) (index_by-IsDistinct old))

  -- Under each id the merge has the last new model with the id, or else the last old one.
  pub find_last-merge :
      (k : ℕ) (old new : List V)
      → find_last k (merge key old new) ≡ or_keep_some (find_last k new) (find_last k old)
  unfolding merge
  find_last-merge k old new =
      let d = put_all (index_by key new) (index_by key old) in
      ground (
        arith,
        find_last-values k d (
            put_all-Keyed (index_by key new) (index_by key old) (index_by-Keyed new)
              (index_by-Keyed old)),
        last_entry-get k d
            (put_all-IsDistinct (index_by key new) (index_by key old) (index_by-IsDistinct old)),
        get-put_all k (index_by key new) (index_by key old),
        last_entry-get k (index_by key new) (index_by-IsDistinct new),
        get-index_by k new,
        get-index_by k old,
      )

  pub merge-has_repeats : (old new : List V) → has_repeats (map key (merge key old new)) ≡ false
  merge-has_repeats old new = rw (unique_of_IsDistinct _ (merge-IsDistinct old new)) (ground arith)
