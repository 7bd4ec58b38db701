-- ===== src/Control/Repository/Ownership/Apart.antt =====
-- Workers whose devices are apart.
use astrum_weaver.Prelude.{
  String, ◌≡◌, sym, subst, true, false, some, arith, ◌==◌, eq_iff, Bool-cases, inl, inr,
}
use astrum_weaver.Dict.{Dict, get, put}
use astrum_weaver.Dict.Laws.{get-put_hit, get-put_miss}
use astrum_weaver.Sets.{intersects}
use astrum_weaver.Sets.Laws.{intersects_comm}
use astrum_weaver.Control.Models.{WorkerRecord}
use astrum_weaver.Control.Repository.State.{owns_resources}

-- Two workers that own resources have no device in common.
pub record IsExclusive (workers : Dict WorkerRecord) : Type 0 where
  pub apart :
      (a c : String) (v w : WorkerRecord)
      → get a workers ≡ some v
      → get c workers ≡ some w
      → (a == c) ≡ false
      → owns_resources v ≡ true
      → owns_resources w ≡ true
      → intersects v.gpu_uuids w.gpu_uuids ≡ false

-- A worker that owns resources shares no device with the others.
abbrev pub IsApart : Dict WorkerRecord → String → WorkerRecord → Type 0
IsApart workers id w =
    (k : String) (v : WorkerRecord)
    → get k workers ≡ some v
    → (id == k) ≡ false
    → owns_resources v ≡ true
    → intersects w.gpu_uuids v.gpu_uuids ≡ false

pub other_key : (a c : String) → (a == c) ≡ false → (c == a) ≡ false
other_key a c h = ground (arith, eq_iff a c, eq_iff c a, h)

one_key : (id a c : String) → (id == a) ≡ true → (id == c) ≡ true → (a == c) ≡ false → ⊥
one_key id a c ea ec ne = ground (arith, eq_iff id a, eq_iff id c, eq_iff a c, ea, ec, ne)

module _ (workers : Dict WorkerRecord) (x : IsExclusive workers) (id : String)
    (w : WorkerRecord) where
  own_side :
      (free : owns_resources w ≡ true → IsApart workers id w) (c : String) (u v : WorkerRecord)
      → w ≡ u
      → owns_resources u ≡ true
      → get c workers ≡ some v
      → (id == c) ≡ false
      → owns_resources v ≡ true
      → intersects u.gpu_uuids v.gpu_uuids ≡ false
  own_side free c u v p ou found ne ov =
      subst (λ z. intersects z.gpu_uuids v.gpu_uuids ≡ false) p
        (free (subst (λ z. owns_resources z ≡ true) (sym p) ou) c v found ne ov)

  pub put-IsExclusive :
      (owns_resources w ≡ true → IsApart workers id w) → IsExclusive (put id w workers)
  put-IsExclusive free = record {
    apart = λ a c u v ga gc ne ou ov. elim (Bool-cases (id == a)) [
      | inl ea ↦ elim (Bool-cases (id == c)) [
        | inl ec ↦ absurd (one_key id a c ea ec ne)
        | inr ec ↦
            own_side free c u v (get-put_hit id a w workers ea ga) ou
              (get-put_miss id c w workers ec gc) ec ov
      ]
      | inr ea ↦ elim (Bool-cases (id == c)) [
        | inl ec ↦ intersects_comm v.gpu_uuids u.gpu_uuids (
            own_side free a v u (get-put_hit id c w workers ec gc) ov
              (get-put_miss id a w workers ea ga) ea ou)
        | inr ec ↦
            x.apart a c u v (get-put_miss id a w workers ea ga) (get-put_miss id c w workers ec gc)
              ne ou ov
      ]
    ];
  }

  -- A worker that owns no more than it did stays apart from the others.
  pub shrink-IsExclusive :
      (old : WorkerRecord)
      → get id workers ≡ some old
      → w.gpu_uuids ≡ old.gpu_uuids
      → (owns_resources w ≡ true → owns_resources old ≡ true)
      → IsExclusive (put id w workers)
  shrink-IsExclusive old found same less = put-IsExclusive λ o k v g ne ov.
      subst (λ l. intersects l v.gpu_uuids ≡ false) (sym same)
        (x.apart id k old v found g ne (less o) ov)
