-- ===== src/GpuMapping/Nodes/Sources/Rows.antt =====
-- The rows of the command's answer, and the minors that are taken from them.
use astrum_weaver.Prelude.{
  ℕ, String, ◌≡◌, refl, sym, ◌∙◌, Bool, true, false, if◌then◌else◌, none, some, List, [], ◌∷◌, ◌==◌,
  Within, inl, inr, arith, eq_iff, Bool-cases, Option-cases, subst, ap, nat_eq, length,
}
use astrum_weaver.Text.{strip, is_blank}
use astrum_weaver.Text.Lines.{splitlines, split_at}
use astrum_weaver.Text.Number.{is_number, int_from}
use astrum_weaver.Dict.{Dict, get, put}
use astrum_weaver.Dict.Laws.{get-put}
use astrum_weaver.GpuMapping.{
  is_gpu_uuid, validate_uuid, add_minor, add_row, add_rows, parse_uuid_minor_rows,
}
use astrum_weaver.GpuMapping.Query.{
  Commands, CompletedProcess, run_nvidia_query, succeeded, query_primary_mapping,
  minor_query_is_explicitly_unsupported,
}
use astrum_weaver.GpuMapping.Nodes.{rows_of, checked_minor, as_rows}
use astrum_weaver.Result.{Error, Result, ◌>>=◌, ok, err, >>=-eq-ok, ok_inj}

-- A line of the command's answer has the UUID and the minor in its two columns.
pub record IsListed (lines : List String) (uuid : String) (minor : ℕ) : Type 0 where
  pub line : String
  pub here : Within line lines
  pub first : String
  pub second : String
  pub columns : split_at 44 line ≡ first ∷ second ∷ []
  pub named : uuid ≡ strip (strip first)
  pub digits : is_number (strip second) ≡ true
  pub value : minor ≡ int_from 0 (strip second)

validated : (value uuid : String) → validate_uuid value ≡ ok uuid → uuid ≡ strip value
unfolding validate_uuid
validated value uuid h = elim (Bool-cases (is_gpu_uuid (strip value))) [
  | inl e ↦ sym (ok_inj (rw e at h))
  | inr e ↦ absurd (cc (rw e at h))
]

added :
    (uuid minor : String) (d d' : Dict ℕ)
    → add_minor uuid minor d ≡ ok d'
    → (is_number minor ≡ true) × (put uuid (int_from 0 minor) d ≡ d')
unfolding add_minor
added uuid minor d d' h = elim (Bool-cases (is_number minor)) [
  | inl e ↦ elim (Option-cases (get uuid d)) [
    | inl n ↦ (e, ok_inj (rw (e, n) at h))
    | inr (n, f) ↦ absurd (cc (rw (e, f) at h))
  ]
  | inr e ↦ absurd (cc (rw e at h))
]

module _ (L : List String) where
  abbrev AllListed : Dict ℕ → Type 0
  AllListed d = (uuid : String) (minor : ℕ) → get uuid d ≡ some minor → IsListed L uuid minor

  put-AllListed :
      (key : String) (n : ℕ) (d : Dict ℕ) → AllListed d → IsListed L key n → AllListed (put key n d)
  put-AllListed key n d all new uuid minor h = elim (Bool-cases (key == uuid)) [
    | inl e ↦
        let same : key ≡ uuid = (eq_iff key uuid).0 e in
        let value : n ≡ minor = ground (arith, get-put key uuid n d, e, h) in
        subst (λ m. IsListed L uuid m) value (subst (λ u. IsListed L u n) same new)
    | inr e ↦ all uuid minor (ground (arith, get-put key uuid n d, e, h))
  ]

  row-AllListed :
      (line : String) (columns : List String) (d d' : Dict ℕ)
      → Within line L
      → split_at 44 line ≡ columns
      → AllListed d
      → add_row columns d ≡ ok d'
      → AllListed d'
  unfolding add_row
  row-AllListed line [] d d' here split all h = absurd (cc h)
  row-AllListed line (a ∷ []) d d' here split all h = absurd (cc h)
  row-AllListed line (a ∷ b ∷ x ∷ columns) d d' here split all h = absurd (cc h)
  row-AllListed line (first ∷ second ∷ []) d d' here split all h =
      let (uuid, valid, h1) = >>=-eq-ok (validate_uuid (strip first)) _ h in
      let (digits, same) = added uuid (strip second) d d' h1 in
      subst AllListed same (
        put-AllListed uuid (int_from 0 (strip second)) d all (record {
          line = line;
          here = here;
          first = first;
          second = second;
          columns = split;
          named = validated (strip first) uuid valid;
          digits = digits;
          value = refl;
        }))

  rows-AllListed :
      (lines : List String) (d d' : Dict ℕ)
      → ((line : String) → Within line lines → Within line L)
      → AllListed d
      → add_rows lines d ≡ ok d'
      → AllListed d'
  unfolding add_rows
  rows-AllListed [] d d' within all h = subst AllListed (ok_inj h) all
  rows-AllListed (line ∷ lines) d d' within all h = elim (Bool-cases (is_blank (strip line))) [
    | inl e ↦ rows-AllListed lines d d' (λ l p. within l (inr p)) all (rw e at h)
    | inr e ↦
        let (d1, row, h1) = >>=-eq-ok (add_row (split_at 44 line) d) _ (rw e at h) in
        rows-AllListed lines d1 d' (λ l p. within l (inr p))
          (row-AllListed line (split_at 44 line) d d1 (within line (inl refl)) refl all row) h1
  ]

  nil-AllListed : AllListed []
  unfolding get
  nil-AllListed uuid minor h = absurd (cc h)

parsed-AllListed :
    (output : String) (d : Dict ℕ)
    → parse_uuid_minor_rows output ≡ ok d
    → AllListed (splitlines output) d
unfolding parse_uuid_minor_rows
parsed-AllListed output d h =
    let (rows, read, h1) = >>=-eq-ok (add_rows (splitlines output) []) _ h in
    let same : rows ≡ d = elim (Bool-cases (nat_eq (length rows) 0)) [
      | inl e ↦ absurd (cc (rw e at h1))
      | inr e ↦ ok_inj (rw e at h1)
    ] in
    subst (AllListed (splitlines output)) same (
      rows-AllListed (splitlines output) (splitlines output) [] rows (λ l p. p)
        (nil-AllListed (splitlines output)) read)

ran :
    (c : Commands) (fields : String) (completed : CompletedProcess)
    → run_nvidia_query c fields ≡ ok completed
    → c.run fields ≡ some completed
unfolding run_nvidia_query
ran c fields completed h = elim (Option-cases (c.run fields)) [
  | inl e ↦ absurd (cc (rw (e, run_nvidia_query) at h))
  | inr (other, e) ↦ e ∙ ap some (ok_inj (rw (e, run_nvidia_query) at h))
]

rows_chosen :
    (success unsupported : Bool) (parsed : Result (Dict ℕ)) (d : Dict ℕ) (e : Error)
    → (if success
        then parsed >>= (λ rows. ok (some rows))
        else if unsupported
        then ok none
        else err e)
      ≡ ok (some d)
    → parsed ≡ ok d
rows_chosen true unsupported (ok rows) d e h = let same : some rows ≡ some d = ok_inj h in cc same
rows_chosen true unsupported (err f) d e h = absurd (cc h)
rows_chosen false true parsed d e h = let same : none ≡ some d = ok_inj h in absurd (cc same)
rows_chosen false false parsed d e h = absurd (cc h)

pub primary-source :
    (c : Commands) (d : Dict ℕ)
    → query_primary_mapping c ≡ ok (some d)
    → (completed : CompletedProcess) × (c.run "uuid,minor_number" ≡ some completed)
      × AllListed (splitlines completed.stdout) d
unfolding query_primary_mapping
primary-source c d h =
    let (completed, answered, h1) = >>=-eq-ok (run_nvidia_query c "uuid,minor_number") _ h in
    let parsed =
      rows_chosen (succeeded completed) (minor_query_is_explicitly_unsupported c completed)
        (parse_uuid_minor_rows completed.stdout) d _ h1 in
    (
      completed,
      ran c "uuid,minor_number" completed answered,
      parsed-AllListed completed.stdout d parsed,
    )

pub as_rows-minor :
    (d : Dict ℕ) (uuid : String) (minor : ℕ)
    → checked_minor (rows_of (get uuid (as_rows d))) ≡ ok minor
    → get uuid d ≡ some minor
unfolding as_rows get checked_minor
as_rows-minor [] uuid minor h = absurd (cc h)
as_rows-minor ((key, n) ∷ d) uuid minor h = elim (Bool-cases (key == uuid)) [
  | inl e ↦ rw e (ap some (ok_inj (rw e at h)))
  | inr e ↦ rw e (as_rows-minor d uuid minor (rw e at h))
]
