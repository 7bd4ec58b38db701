-- ===== src/Dict/Laws.antt =====
-- The laws of `put`: what it does to a lookup, to a count, and to predicates over the entries.
use astrum_weaver.Prelude.{
  ◌+◌, String, ◌≡◌, refl, sym, Bool, none, some, [], ◌∷◌, arith, ◌==◌, eq_iff, if◌then◌else◌, bit,
  Bool-cases, inl, inr, true, false, ◌≤◌, subst,
}
use astrum_weaver.Dict.{Dict, get, put, count, Entries, IsDict}

module _ {ℓ} {V : Type ℓ} where
  pub get-put :
      (k j : String) (v : V) (d : Dict V) → get j (put k v d) ≡ (if k == j then some v else get j d)
  unfolding get put
  get-put k j v [] = refl
  get-put k j v ((i, w) ∷ d) = ground (arith, eq_iff k j, eq_iff i k, eq_iff i j, get-put k j v d)

  pub get-put_self : (k : String) (v : V) (d : Dict V) → get k (put k v d) ≡ some v
  get-put_self k v d = ground (arith, get-put k k v d, eq_iff k k)

  -- A new key adds its value to the count.
  pub count-put_new :
      (p : V → Bool) (k : String) (v : V) (d : Dict V)
      → get k d ≡ none
      → count p (put k v d) ≡ count p d + bit (p v)
  unfolding get put count
  count-put_new p k v [] h = omega arith
  count-put_new p k v ((i, w) ∷ d) h = elim (Bool-cases (i == k)) [
    | inl e ↦ absurd (ground (arith, e, h))
    | inr e ↦ rw e (omega (arith, count-put_new p k v d (rw e at h)))
  ]

  -- A known key swaps its value's share in the count.
  pub count-put_old :
      (p : V → Bool) (k : String) (v old : V) (d : Dict V)
      → get k d ≡ some old
      → count p (put k v d) + bit (p old) ≡ count p d + bit (p v)
  unfolding get put count
  count-put_old p k v old [] h = cc
  count-put_old p k v old ((i, w) ∷ d) h = elim (Bool-cases (i == k)) [
    | inl e ↦ ground (arith, e, h)
    | inr e ↦ rw e (omega (arith, count-put_old p k v old d (rw e at h)))
  ]

  pub get-hit :
      (i k : String) (w : V) {v : V} (d : Dict V)
      → (i == k) ≡ true
      → get k ((i, w) ∷ d) ≡ some v
      → (i ≡ k) × (w ≡ v)
  unfolding get
  get-hit i k w d e h = ((eq_iff i k).0 e, ground (arith, e, h))

  pub get-miss :
      (i k : String) (w : V) {v : V} (d : Dict V)
      → (i == k) ≡ false
      → get k ((i, w) ∷ d) ≡ some v
      → get k d ≡ some v
  unfolding get
  get-miss i k w d e h = ground (arith, e, h)

module _ {ℓ κ} {V : Type ℓ} (P : String → V → Type κ) where
  pub Entries-get : (d : Dict V) (k : String) (v : V) → Entries P d → get k d ≡ some v → P k v
  unfolding get
  Entries-get [] k v all h = absurd (cc)
  Entries-get ((i, w) ∷ d) k v all h = elim (Bool-cases (i == k)) [
    | inl e ↦ let (p, q) = get-hit i k w d e h in subst (λ x. P x v) p (subst (λ x. P i x) q all.0)
    | inr e ↦ Entries-get d k v all.1 (get-miss i k w d e h)
  ]

  pub Entries-put : (d : Dict V) (k : String) (v : V) → Entries P d → P k v → Entries P (put k v d)
  unfolding put
  Entries-put [] k v all h = (h, tt)
  Entries-put ((i, w) ∷ d) k v all h = elim (Bool-cases (i == k)) [
    | inl e ↦ rw e (subst (λ x. P x v) (sym ((eq_iff i k).0 e)) h, all.1)
    | inr e ↦ rw e (all.0, Entries-put d k v all.1 h)
  ]

module _ {ℓ κ κ'} {V : Type ℓ} (P : String → V → Type κ) (Q : String → V → Type κ') where
  pub Entries-mono :
      (d : Dict V) → ((k : String) (v : V) → P k v → Q k v) → Entries P d → Entries Q d
  Entries-mono [] f all = tt
  Entries-mono ((k, v) ∷ d) f all = (f k v all.0, Entries-mono d f all.1)

module _ {ℓ} {V : Type ℓ} where
  pub IsDict-put : (d : Dict V) (k : String) (v : V) → IsDict d → IsDict (put k v d)
  unfolding put get
  IsDict-put [] k v h = (refl, tt)
  IsDict-put ((i, w) ∷ d) k v h = elim (Bool-cases (i == k)) [
    | inl e ↦ rw e h
    | inr e ↦
        rw e (ground (arith, get-put k i v d, eq_iff i k, eq_iff k i, e, h.0), IsDict-put d k v h.1)
  ]

  -- In a dictionary with distinct keys every entry is the one that its key finds.
  pub Entries-IsDict : (d : Dict V) → IsDict d → Entries (λ k v. get k d ≡ some v) d
  unfolding get
  Entries-IsDict [] h = tt
  Entries-IsDict ((i, w) ∷ d) h = (
    ground (arith, eq_iff i i),
    Entries-mono (λ k v. get k d ≡ some v) (λ k v. get k ((i, w) ∷ d) ≡ some v) d
        (λ k v g. ground (arith, eq_iff i k, h.0, g)) (Entries-IsDict d h.1),
  )

  -- What holds of all that a lookup finds holds of all entries.
  pub Entries-of_get {κ} :
      (P : String → V → Type κ) (d : Dict V)
      → IsDict d
      → ((k : String) (v : V) → get k d ≡ some v → P k v)
      → Entries P d
  Entries-of_get P d h f = Entries-mono (λ k v. get k d ≡ some v) P d f (Entries-IsDict d h)

  pub count_pos :
      (p : V → Bool) (k : String) (v : V) (d : Dict V)
      → get k d ≡ some v
      → p v ≡ true
      → 1 ≤ count p d
  unfolding get count
  count_pos p k v [] h t = absurd (cc)
  count_pos p k v ((i, w) ∷ d) h t = elim (Bool-cases (i == k)) [
    | inl e ↦ ground (arith, get-hit i k w d e h)
    | inr e ↦ omega (arith, count_pos p k v d (get-miss i k w d e h) t)
  ]

module _ {ℓ} {V : Type ℓ} (i k : String) (w : V) {v : V} (d : Dict V) where
  pub get-put_hit : (i == k) ≡ true → get k (put i w d) ≡ some v → w ≡ v
  get-put_hit e h = ground (arith, get-put i k w d, e, h)

  pub get-put_miss : (i == k) ≡ false → get k (put i w d) ≡ some v → get k d ≡ some v
  get-put_miss e h = ground (arith, get-put i k w d, e, h)
