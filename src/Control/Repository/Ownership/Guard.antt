-- ===== src/Control/Repository/Ownership/Guard.antt =====
-- What passing `_assert_gpu_ownership_available` says.
use astrum_weaver.Prelude.{
  String, ◌≡◌, refl, sym, subst, Bool, true, false, ◌&&◌, Option, none, some, List, [], ◌∷◌, arith,
  ◌⊎◌, ◌==◌, Bool-cases, inl, inr, if◌then◌else◌,
}
use astrum_weaver.Dict.{Dict, get}
use astrum_weaver.Dict.Laws.{get-hit}
use astrum_weaver.Sets.{intersects}
use astrum_weaver.Control.Models.{WorkerRegistration, WorkerRecord}
use astrum_weaver.Control.Repository.State.{
  Repository, owns_resources, first_owner, owner_check, assert_gpu_ownership_available,
}
use astrum_weaver.Result.{ok}

module _ (mine owns meets : Bool) (owner : String) (later : Option String) where
  none-head :
      (if mine then later else if owns && meets then some owner else later) ≡ none
      → mine ≡ false
      → owns ≡ true
      → meets ≡ false
  none-head h m o = ground (arith, h, m, o)

  none-later :
      (if mine then later else if owns && meets then some owner else later) ≡ none → later ≡ none
  none-later h = ground (arith, h)

-- The loop found no owner, so each other owner is apart.
first_owner-none :
    (requested : List String) (ignored : String) (workers : Dict WorkerRecord) (k : String)
    (v : WorkerRecord)
    → first_owner requested ignored workers ≡ none
    → get k workers ≡ some v
    → (v.worker_id == ignored) ≡ false
    → owns_resources v ≡ true
    → intersects requested v.gpu_uuids ≡ false
unfolding first_owner get
first_owner-none requested ignored [] k v h g ne ov = absurd (cc)
first_owner-none requested ignored ((i, w) ∷ rest) k v h g ne ov = elim (Bool-cases (i == k)) [
  | inl e ↦
      let p : w ≡ v = (get-hit i k w rest e g).1 in
      none-head (v.worker_id == ignored) (owns_resources v) (intersects requested v.gpu_uuids)
        v.worker_id (first_owner requested ignored rest)
        (subst (λ z. first_owner requested ignored ((i, z) ∷ rest) ≡ none) p h) ne ov
  | inr e ↦
      first_owner-none requested ignored rest k v
        (none-later (w.worker_id == ignored) (owns_resources w) (intersects requested w.gpu_uuids)
          w.worker_id (first_owner requested ignored rest) h)
        (rw e at g) ne ov
]

owner_check-ok :
    (requested : List String) (o : Option String)
    → owner_check requested o ≡ ok tt
    → (requested ≡ []) ⊎ (o ≡ none)
unfolding owner_check
owner_check-ok [] o h = inl refl
owner_check-ok (u ∷ us) none h = inr refl
owner_check-ok (u ∷ us) (some owner) h = absurd (cc)

pub guard-apart :
    (s : Repository) (registration : WorkerRegistration) (id k : String) (v : WorkerRecord)
    → assert_gpu_ownership_available s registration id ≡ ok tt
    → get k s.workers ≡ some v
    → (v.worker_id == id) ≡ false
    → owns_resources v ≡ true
    → intersects registration.spec.gpu_uuids v.gpu_uuids ≡ false
unfolding assert_gpu_ownership_available intersects
guard-apart s registration id k v h g ne ov =
    let requested = registration.spec.gpu_uuids in
    elim (owner_check-ok requested (first_owner requested id s.workers) h) [
      | inl e ↦ subst (λ l. intersects l v.gpu_uuids ≡ false) (sym e) refl
      | inr e ↦ first_owner-none requested id s.workers k v e g ne ov
    ]
