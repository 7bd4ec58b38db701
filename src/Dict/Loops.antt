-- ===== src/Dict/Loops.antt =====
-- A loop over a copy of a dictionary that writes the entry of each round.
use astrum_weaver.Prelude.{String, ◌≡◌, false, none, some, ◌∷◌, arith, ◌==◌, eq_iff}
use astrum_weaver.Dict.{Dict, get, put, Entries, IsDict}
use astrum_weaver.Dict.Laws.{get-put, Entries-get, Entries-IsDict, Entries-of_get}

-- What is still to come stands in the dictionary as it did when the loop began.
pub record Pending {ℓ} {V : Type ℓ} (d : Dict V) (rest : Dict V) : Type ℓ where
  pub distinct : IsDict rest
  pub stored : Entries (λ k v. get k d ≡ some v) rest

module _ {ℓ} {V : Type ℓ} where
  pub Pending-start : (d : Dict V) → IsDict d → Pending d d
  Pending-start d h = record { distinct = h; stored = Entries-IsDict d h }

  apart :
      (i k : String) (rest : Dict V) (v : V)
      → get i rest ≡ none
      → get k rest ≡ some v
      → (i == k) ≡ false
  apart i k rest v h g = ground (arith, eq_iff i k, h, g)

  pub Pending-put :
      (d : Dict V) (i : String) (w x : V) (rest : Dict V)
      → Pending d ((i, w) ∷ rest)
      → Pending (put i x d) rest
  Pending-put d i w x rest p = record {
    distinct = p.distinct.1;
    stored =
        Entries-of_get (λ k v. get k (put i x d) ≡ some v) rest p.distinct.1
          λ k v g.
            rw (get-put i k x d, apart i k rest v p.distinct.0 g)
              (Entries-get (λ k v. get k d ≡ some v) rest k v p.stored.1 g);
  }

  pub Pending-skip :
      (d : Dict V) (i : String) (w : V) (rest : Dict V) → Pending d ((i, w) ∷ rest) → Pending d rest
  Pending-skip d i w rest p = record { distinct = p.distinct.1; stored = p.stored.1 }
