-- ===== src/Sets/Laws.antt =====
-- The tests on sets and optional texts say what they mean.
use astrum_weaver.Prelude.{
  String, ◌≡◌, refl, ◌↔◌, ◌==◌, true, false, Option, none, some, List, [], ◌∷◌, eq_iff, arith,
  Within, inl, inr, Bool-cases, sym,
}
use astrum_weaver.Sets.{tuple_eq, contains, subset, option_eq, intersects}

pub subset_sound :
    (a b : List String) (x : String) → subset a b ≡ true → contains x a ≡ true → contains x b ≡ true
unfolding subset contains
subset_sound [] b x h m = absurd (cc)
subset_sound (y ∷ a) b x h m = ground (arith, subset_sound a b x, eq_iff y x)

pub subset_complete :
    (a b : List String)
    → ((x : String) → contains x a ≡ true → contains x b ≡ true)
    → subset a b ≡ true
unfolding subset contains
subset_complete [] b f = refl
subset_complete (y ∷ a) b f =
    ground (arith, f y, eq_iff y y, subset_complete a b (λ x m. f x (ground (arith, m))))

pub option_eq_iff : (o : Option String) (v : String) → (option_eq o (some v) ≡ true) ↔ (o ≡ some v)
unfolding option_eq
option_eq_iff none v = (λ h. absurd (cc), λ h. absurd (cc))
option_eq_iff (some u) v = (λ h. cc ((eq_iff u v).0 h), λ h. (eq_iff u v).1 (cc))

-- Two sets that do not intersect have no item in common.
pub intersects_complete :
    (a b : List String) (x : String)
    → intersects a b ≡ false
    → contains x a ≡ true
    → contains x b ≡ false
unfolding intersects contains
intersects_complete [] b x h m = absurd (cc)
intersects_complete (y ∷ a) b x h m = ground (arith, intersects_complete a b x, eq_iff y x)

intersects-tail :
    (a b : List String) (y : String)
    → intersects a (y ∷ b) ≡ false
    → (contains y a ≡ false) × (intersects a b ≡ false)
unfolding intersects contains
intersects-tail [] b y h = (refl, refl)
intersects-tail (x ∷ a) b y h = ground (arith, intersects-tail a b y, eq_iff x y, eq_iff y x)

pub intersects_comm : (a b : List String) → intersects a b ≡ false → intersects b a ≡ false
unfolding intersects
intersects_comm a [] h = refl
intersects_comm a (y ∷ b) h =
    let (here, rest) = intersects-tail a b y h in ground (arith, here, intersects_comm a b rest)

pub tuple_eq_sound : (xs ys : List String) → tuple_eq xs ys ≡ true → xs ≡ ys
unfolding tuple_eq
tuple_eq_sound [] [] h = refl
tuple_eq_sound [] (y ∷ ys) h = absurd (cc h)
tuple_eq_sound (x ∷ xs) [] h = absurd (cc h)
tuple_eq_sound (x ∷ xs) (y ∷ ys) h =
    cc ((eq_iff x y).0 (ground (arith, h)), tuple_eq_sound xs ys (ground (arith, h)))

pub contains-Within : (x : String) (xs : List String) → contains x xs ≡ true → Within x xs
unfolding contains
contains-Within x [] h = absurd (cc)
contains-Within x (y ∷ xs) h = elim (Bool-cases (y == x)) [
  | inl e ↦ inl (sym ((eq_iff y x).0 e))
  | inr e ↦ inr (contains-Within x xs (ground (arith, e, h)))
]

pub Within-contains : (x : String) (xs : List String) → Within x xs → contains x xs ≡ true
unfolding contains
Within-contains x [] h = elim h [ ]
Within-contains x (y ∷ xs) h = elim h [
  | inl same ↦ ground (arith, same, eq_iff y x)
  | inr later ↦ ground (arith, Within-contains x xs later)
]
