-- ===== src/Control/Repository/Selection.antt =====
-- Which job a claim takes: the first of the eligible jobs by priority, then by number.
use astrum_weaver.Prelude.{
  ℕ, ◌≡◌, ◌≤◌, ◌≤ℤ◌, refl, sym, subst, Bool, true, false, some, List, [], ◌∷◌, arith, All, select,
  Bool-cases, inl, inr,
}
use astrum_weaver.Dict.{Dict, get, values, Entries}
use astrum_weaver.Dict.Laws.{Entries-get, Entries-of_get}
use astrum_weaver.Contracts.{WorkerSpec}
use astrum_weaver.Control.Models.{JobRecord, queued}
use astrum_weaver.Control.Repository.State.{Repository}
use astrum_weaver.Control.Repository.Jobs.{
  is_eligible, eligible, comes_before, insert_eligible, sort_eligible,
}
use astrum_weaver.Control.Repository.Lifecycle.{IsJob}
use astrum_weaver.Control.Repository.Accounting.{IsBooked}

module _ (P : JobRecord → Type 0) where
  All-insert : (j : JobRecord) (l : List JobRecord) → P j → All P l → All P (insert_eligible j l)
  unfolding insert_eligible
  All-insert j [] h all = (h, tt)
  All-insert j (i ∷ l) h all = elim (Bool-cases (comes_before i j)) [
    | inl e ↦ rw e (all.0, All-insert j l h all.1)
    | inr e ↦ rw e (h, all)
  ]

  All-sort : (l : List JobRecord) → All P l → All P (sort_eligible l)
  unfolding sort_eligible
  All-sort [] all = tt
  All-sort (j ∷ l) all = All-insert j (sort_eligible l) all.0 (All-sort l all.1)

  All-select :
      (p : JobRecord → Bool) (d : Dict JobRecord)
      → Entries (λ k j. p j ≡ true → P j) d
      → All P (select p (values d))
  unfolding values
  All-select p [] all = tt
  All-select p ((k, j) ∷ d) all = elim (Bool-cases (p j)) [
    | inl e ↦ rw e (all.0 e, All-select p d all.1)
    | inr e ↦ rw e (All-select p d all.1)
  ]

All-mono :
    (P Q : JobRecord → Type 0) (l : List JobRecord)
    → ((j : JobRecord) → P j → Q j)
    → All P l
    → All Q l
All-mono P Q [] f all = tt
All-mono P Q (j ∷ l) f all = (f j all.0, All-mono P Q l f all.1)

-- No job of the list comes before `j`.
abbrev pub IsFirst : JobRecord → List JobRecord → Type 0
IsFirst j = All (λ i. comes_before i j ≡ false)

comes_before_trans :
    (a b c : JobRecord)
    → comes_before a b ≡ false
    → comes_before b c ≡ false
    → comes_before a c ≡ false
unfolding comes_before
comes_before_trans a b c h k = ground (arith, h, k)

comes_before_irrefl : (a : JobRecord) → comes_before a a ≡ false
unfolding comes_before
comes_before_irrefl a = ground arith

comes_before_asym : (a b : JobRecord) → comes_before a b ≡ true → comes_before b a ≡ false
unfolding comes_before
comes_before_asym a b h = ground (arith, h)

-- The head of `sorted`, where there is one, is a first job of `l`.
abbrev Heads : List JobRecord → List JobRecord → Type 0
Heads l [] = l ≡ []
Heads l (j ∷ sorted) = IsFirst j l

Heads-insert :
    (j : JobRecord) (l sorted : List JobRecord)
    → Heads l sorted
    → Heads (j ∷ l) (insert_eligible j sorted)
unfolding insert_eligible
Heads-insert j l [] h = (comes_before_irrefl j, rw h tt)
Heads-insert j l (i ∷ sorted) h = elim (Bool-cases (comes_before i j)) [
  | inl e ↦ rw e (comes_before_asym i j e, h)
  | inr e ↦ rw e (
    comes_before_irrefl j,
    All-mono (λ k. comes_before k i ≡ false) (λ k. comes_before k j ≡ false) l
        (λ k f. comes_before_trans k i j f e) h,
  )
]

Heads-sort : (l : List JobRecord) → Heads l (sort_eligible l)
unfolding sort_eligible
Heads-sort [] = refl
Heads-sort (j ∷ l) = Heads-insert j l (sort_eligible l) (Heads-sort l)

-- `j` has at least the priority of `i`, and where they are equal no larger number.
abbrev pub Precedes : JobRecord → JobRecord → Type 0
Precedes j i = (i.priority ≤ℤ j.priority) × (j.priority ≤ℤ i.priority → j.sequence ≤ i.sequence)

precedes : (j i : JobRecord) → comes_before i j ≡ false → Precedes j i
unfolding comes_before
precedes j i h = (ground (arith, h), λ same. ground (arith, h, same))

All-Precedes : (j : JobRecord) (l : List JobRecord) → IsFirst j l → All (Precedes j) l
All-Precedes j [] h = tt
All-Precedes j (i ∷ l) (h, all) = (precedes j i h, All-Precedes j l all)

-- What a claim takes: a stored, eligible job that precedes all eligible jobs.
pub record IsChoice (s : Repository) (spec : WorkerSpec) (now : ℕ) (j : JobRecord) : Type 0 where
  pub stored : get j.job_id s.jobs ≡ some j
  pub fit : is_eligible spec now j ≡ true
  pub first : All (Precedes j) (eligible s spec now)

abbrev Candidate : Repository → WorkerSpec → ℕ → JobRecord → Type 0
Candidate s spec now j = (get j.job_id s.jobs ≡ some j) × (is_eligible spec now j ≡ true)

eligible-Candidate :
    (s : Repository) (spec : WorkerSpec) (now : ℕ)
    → IsBooked s
    → All (Candidate s spec now) (eligible s spec now)
unfolding eligible
eligible-Candidate s spec now b = All-select (Candidate s spec now) (is_eligible spec now) s.jobs (
    Entries-of_get (λ k j. is_eligible spec now j ≡ true → Candidate s spec now j) s.jobs b.distinct
      λ k j found e. (
        subst (λ x. get x s.jobs ≡ some j)
            (sym (Entries-get (IsJob s.sequence) s.jobs k j b.jobs found).keyed) found,
        e,
      ))

pub choice :
    (s : Repository) (spec : WorkerSpec) (now : ℕ) (j : JobRecord) (rest : List JobRecord)
    → IsBooked s
    → sort_eligible (eligible s spec now) ≡ j ∷ rest
    → IsChoice s spec now j
choice s spec now j rest b e =
    let c =
      subst (All (Candidate s spec now)) e
        (All-sort (Candidate s spec now) (eligible s spec now) (eligible-Candidate s spec now b)) in
    record {
      stored = c.0.0;
      fit = c.0.1;
      first =
          All-Precedes j (eligible s spec now)
            (subst (Heads (eligible s spec now)) e (Heads-sort (eligible s spec now)));
    }

pub sort-eq-nil : (l : List JobRecord) → sort_eligible l ≡ [] → l ≡ []
sort-eq-nil l e = subst (Heads l) e (Heads-sort l)

pub is_eligible-queued :
    (spec : WorkerSpec) (now : ℕ) (j : JobRecord)
    → is_eligible spec now j ≡ true
    → j.status ≡ queued
unfolding is_eligible
is_eligible-queued spec now j h = ground (arith, h)
