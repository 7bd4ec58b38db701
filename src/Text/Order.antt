-- ===== src/Text/Order.antt =====
-- `sorted` of texts and of pairs of texts, by code points.
use astrum_weaver.Prelude.{
  String, Bool, ◌&&◌, ◌||◌, ◌==◌, List, [], ◌∷◌, if◌then◌else◌, Within, inl, inr, Bool-cases,
}
use astrum_weaver.Text.{text_ltb}

module _ {A : Type 0} (precedes : A → A → Bool) where
  unfoldable pub insert_sorted : A → List A → List A
  insert_sorted x [] = x ∷ []
  insert_sorted x (y ∷ ys) =
      let later = insert_sorted x ys in if precedes y x then y ∷ later else x ∷ y ∷ ys

  -- `sorted(xs)` for the order
  unfoldable pub sort : List A → List A
  unfolding insert_sorted
  sort [] = []
  sort (x ∷ xs) = insert_sorted x (sort xs)

-- `a < b`, for pairs of texts
unfoldable pub pair_ltb : String × String → String × String → Bool
pair_ltb (a, b) (c, d) = text_ltb a c || (a == c && text_ltb b d)

module _ {A : Type 0} (precedes : A → A → Bool) where
  insert-Within :
      (a x : A) (ys : List A) → Within a (insert_sorted precedes x ys) → Within a (x ∷ ys)
  unfolding insert_sorted
  insert-Within a x [] h = h
  insert-Within a x (y ∷ ys) h = elim (Bool-cases (precedes y x)) [
    | inl e ↦ elim (rw e at h) [
      | inl same ↦ inr (inl same)
      | inr later ↦ elim (insert-Within a x ys later) [ inl p ↦ inl p | inr q ↦ inr (inr q) ]
    ]
    | inr e ↦ rw e at h
  ]

  Within-insert :
      (a x : A) (ys : List A) → Within a (x ∷ ys) → Within a (insert_sorted precedes x ys)
  unfolding insert_sorted
  Within-insert a x [] h = h
  Within-insert a x (y ∷ ys) h = elim (Bool-cases (precedes y x)) [
    | inl e ↦ rw e (elim h [
      | inl p ↦ inr (Within-insert a x ys (inl p))
      | inr q ↦ elim q [ inl p ↦ inl p | inr r ↦ inr (Within-insert a x ys (inr r)) ]
    ])
    | inr e ↦ rw e h
  ]

  -- Sorting keeps the items.
  pub sort-Within : (a : A) (xs : List A) → Within a (sort precedes xs) → Within a xs
  unfolding sort
  sort-Within a [] h = h
  sort-Within a (x ∷ xs) h = elim (insert-Within a x (sort precedes xs) h) [
    | inl p ↦ inl p
    | inr q ↦ inr (sort-Within a xs q)
  ]

  pub Within-sort : (a : A) (xs : List A) → Within a xs → Within a (sort precedes xs)
  unfolding sort
  Within-sort a [] h = h
  Within-sort a (x ∷ xs) h =
      Within-insert a x (sort precedes xs)
        (elim h [ inl p ↦ inl p | inr q ↦ inr (Within-sort a xs q) ])
