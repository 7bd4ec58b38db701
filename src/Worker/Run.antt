-- ===== src/Worker/Run.antt =====
-- Code that changes a world, may raise, and may use up the fuel of a loop (`none`).
use astrum_weaver.Prelude.{◌≡◌, refl, ap, Bool, true, false, Option, none, some}
use astrum_weaver.Result.{Error, Result, ok, err, Method}

abbrev pub Run : Type 0 → Type 0 → Type 0
Run W A = W → Option (Result A × W)

-- What follows the end of a part.
abbrev pub continue :
    {W A B : Type 0} → Option (Result A × W) → (A → Run W B) → Option (Result B × W)
continue none next = none
continue (some (err e, w)) next = some (err e, w)
continue (some (ok a, w)) next = next a w

infixl 5 ◌>>=◌
infixl 5 ◌>>◌
abbrev pub ◌>>=◌ : {W A B : Type 0} → Run W A → (A → Run W B) → Run W B
◌>>=◌ first next w = continue (first w) next

abbrev pub ◌>>◌ : {W A B : Type 0} → Run W A → Run W B → Run W B
◌>>◌ first next w = continue (first w) (λ a. next)

abbrev pub call : {W A : Type 0} → Method W A → Run W A
call m w = some (m w)

abbrev pub return : {W A : Type 0} → A → Run W A
return a w = some (ok a, w)

abbrev pub raise : {W A : Type 0} → Error → Run W A
raise e w = some (err e, w)

-- `if b: m`
abbrev pub when : {W : Type 0} → Bool → Run W (Unit {0}) → Run W (Unit {0})
when true m = m
when false m = return tt

result_of : {W A : Type 0} → Option (Result A × W) → Option (Result A)
result_of none = none
result_of (some (r, w)) = some r

pub raise-ne-ok :
    {W A : Type 0} (e : Error) {w v : W} {a : A}
    → ◌≡◌ {A = Option (Result A × W)} (some (err e, w)) (some (ok a, v))
    → ⊥
unfolding result_of
raise-ne-ok e h =
    let p : ◌≡◌ {A = Option (Result _)} (some (err e)) (some (ok _)) = ap result_of h in cc (p)

-- Inversion of a part that passed.
pub continue-eq-ok :
    {W A B : Type 0} (o : Option (Result A × W)) (next : A → Run W B) {b : B} {w : W}
    → continue o next ≡ some (ok b, w)
    → (a : A) × ((w1 : W) × ((o ≡ some (ok a, w1)) × (next a w1 ≡ some (ok b, w))))
continue-eq-ok none next h = absurd (cc)
continue-eq-ok (some (err e, w1)) next h = absurd (raise-ne-ok e h)
continue-eq-ok (some (ok a, w1)) next h = (a, (w1, (refl, h)))

-- The world is left in a state that satisfies `P`, if the part ends.
abbrev pub Leaves : {W A : Type 0} → (W → Type 0) → Option (Result A × W) → Type 0
Leaves P none = Unit
Leaves P (some (r, w)) = P w

pub continue-Leaves :
    {W A B : Type 0} (P : W → Type 0) (o : Option (Result A × W)) (next : A → Run W B)
    → Leaves P o
    → ((a : A) (w1 : W) → o ≡ some (ok a, w1) → P w1 → Leaves P (next a w1))
    → Leaves P (continue o next)
continue-Leaves P none next here later = tt
continue-Leaves P (some (err e, w1)) next here later = here
continue-Leaves P (some (ok a, w1)) next here later = later a w1 refl here

-- The part ends, with a result or an error.
abbrev pub Ends : {W A : Type 0} → Option (Result A × W) → Type 0
Ends none = ⊥
Ends (some out) = Unit

pub continue-Ends :
    {W A B : Type 0} (o : Option (Result A × W)) (next : A → Run W B)
    → Ends o
    → ((a : A) (w1 : W) → o ≡ some (ok a, w1) → Ends (next a w1))
    → Ends (continue o next)
continue-Ends none next here later = here
continue-Ends (some (err e, w1)) next here later = tt
continue-Ends (some (ok a, w1)) next here later = later a w1 refl
