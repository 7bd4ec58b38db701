-- ===== src/Result.antt =====
-- What a call raises, and the two shapes of a fallible call: a pure one, and one that changes an
-- object and may raise after it has written.
use astrum_weaver.Prelude.{ℕ, String, ◌≡◌, refl, Bool, true, false, if◌then◌else◌}

-- The reason that a `ConflictError` of the control repository gives.
pub data Conflict : Type 0 where
  gpu_overlap : String → Conflict
  topology_changed concurrency_too_low offline_worker incomplete_lease idempotency_reused : Conflict
  not_running assigned_elsewhere stale_token lease_expired : Conflict

-- `ValueError`, `TypeError`, `KeyError` and `RuntimeError` of Python, and the errors of
-- control/repository.py, gpu_mapping.py and the worker package.
pub data Error : Type 0 where
  value_error : String → Error
  type_error : String → Error
  key_error : String → Error
  mapping_error : String → Error
  isolation_unavailable : String → Error
  runtime_error : String → Error
  transport_error : ℕ → Error
  runtime_unavailable : Error
  not_found : String → Error
  conflict : Conflict → Error

pub data Result {ℓ} (V : Type ℓ) : Type ℓ where
  err : Error → Result V
  ok : V → Result V

infixl 5 ◌>>=◌
infixl 5 ◌>>◌
-- Code that changes no object: the first error ends it.
abbrev pub ◌>>=◌ {κ ℓ} : {W : Type κ} {V : Type ℓ} → Result V → (V → Result W) → Result W
err raised >>= next = err raised
ok value >>= next = next value

-- A check, and what follows it.
abbrev pub ◌>>◌ {κ} : {W : Type κ} → Result (Unit {0}) → Result W → Result W
check >> rest = check >>= (λ done. rest)

-- `if not b: raise e`
abbrev pub require : Bool → Error → Result (Unit {0})
require true e = ok tt
require false e = err e

-- `if b: raise e`
abbrev pub refuse : Bool → Error → Result (Unit {0})
refuse true e = err e
refuse false e = ok tt

-- A method: the result, and the object as the call leaves it, also where it raised.
abbrev pub Method : Type 0 → Type 0 → Type 0
Method S A = S → Result A × S

-- Go on with what a check returned; where it raised, leave the object as it is.
abbrev pub checked : {S A B : Type 0} → S → Result A → (A → Result B × S) → Result B × S
checked s (ok a) k = k a
checked s (err e) k = (err e, s)

-- Inversion of a bind and of a guard that passed.
pub >>=-eq-ok {κ ℓ} :
    {V : Type κ} {W : Type ℓ} (first : Result V) (next : V → Result W) {w : W}
    → (first >>= next) ≡ ok w
    → (v : V) × (first ≡ ok v) × (next v ≡ ok w)
>>=-eq-ok (err e) next h = absurd (cc)
>>=-eq-ok (ok v) next h = (v, refl, h)

-- Inversion of a check that passed.
pub >>-eq-ok {κ} :
    {W : Type κ} (check : Result (Unit {0})) (rest : Result W) {w : W}
    → (check >> rest) ≡ ok w
    → (check ≡ ok tt) × (rest ≡ ok w)
>>-eq-ok (err e) rest h = absurd (cc)
>>-eq-ok (ok tt) rest h = (refl, h)

pub ok_inj {ℓ} : {V : Type ℓ} {v w : V} → ok v ≡ ok w → v ≡ w
ok_inj h = cc

pub require->> {κ} :
    {W : Type κ} (b : Bool) (e : Error) (rest : Result W) {w : W}
    → (require b e >> rest) ≡ ok w
    → (b ≡ true) × (rest ≡ ok w)
require->> true e rest h = (refl, h)
require->> false e rest h = absurd (cc)

pub refuse->> {κ} :
    {W : Type κ} (b : Bool) (e : Error) (rest : Result W) {w : W}
    → (refuse b e >> rest) ≡ ok w
    → (b ≡ false) × (rest ≡ ok w)
refuse->> true e rest h = absurd (cc)
refuse->> false e rest h = (refl, h)

pub require-ok : (b : Bool) (e : Error) (u : Unit {0}) → require b e ≡ ok u → b ≡ true
require-ok true e u h = refl
require-ok false e u h = absurd (cc)

pub refuse-ok : (b : Bool) (e : Error) (u : Unit {0}) → refuse b e ≡ ok u → b ≡ false
refuse-ok true e u h = absurd (cc)
refuse-ok false e u h = refl

pub checked_cases {ℓ} :
    {S A B : Type 0} (P : Result B × S → Type ℓ) (s : S) (r : Result A) (k : A → Result B × S)
    → ((e : Error) → P (err e, s))
    → ((a : A) → r ≡ ok a → P (k a))
    → P (checked s r k)
checked_cases P s (ok a) k refused passed = passed a refl
checked_cases P s (err e) k refused passed = refused e

-- Inversion of a method whose check and whose rest passed.
pub checked-eq-ok :
    {S A B : Type 0} (s : S) (r : Result A) (k : A → Result B × S) {b : B}
    → (checked s r k).0 ≡ ok b
    → (a : A) × (r ≡ ok a) × ((k a).0 ≡ ok b)
checked-eq-ok s (ok a) k h = (a, refl, h)
checked-eq-ok s (err e) k h = absurd (cc)

pub if_cases {ℓ} :
    {X : Type 0} (P : X → Type ℓ) (b : Bool) {x y : X}
    → (b ≡ true → P x)
    → (b ≡ false → P y)
    → P (if b then x else y)
if_cases P true yes' no' = yes' refl
if_cases P false yes' no' = no' refl
