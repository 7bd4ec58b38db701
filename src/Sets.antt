-- ===== src/Sets.antt =====
-- `frozenset[str]` and `dict[str, str]`, as the contracts use them. A set is a list whose order and
-- repetitions no test below can see.
pub mod Laws
use astrum_weaver.Prelude.{
  String, Bool, true, false, ◌&&◌, ◌||◌, List, [], ◌∷◌, Option, none, some, ◌==◌, length, nat_eq,
}
use astrum_weaver.Dict.{Dict, get}

-- `item in xs`
unfoldable pub contains : String → List String → Bool
contains a [] = false
contains a (x ∷ xs) = x == a || contains a xs

-- `a.issubset(b)`
unfoldable pub subset : List String → List String → Bool
subset [] b = true
subset (x ∷ a) b = contains x b && subset a b

-- `a == b`, for sets
unfoldable pub set_eq : List String → List String → Bool
unfolding subset contains
set_eq a b = subset a b && subset b a

-- `bool(a.intersection(b))`
unfoldable pub intersects : List String → List String → Bool
intersects [] b = false
intersects (x ∷ a) b = contains x b || intersects a b

-- `a == b`, for tuples
unfoldable pub tuple_eq : List String → List String → Bool
tuple_eq [] [] = true
tuple_eq [] (y ∷ ys) = false
tuple_eq (x ∷ xs) [] = false
tuple_eq (x ∷ xs) (y ∷ ys) = x == y && tuple_eq xs ys

-- `a == b`, for an optional text
unfoldable pub option_eq : Option String → Option String → Bool
option_eq none none = true
option_eq none (some t) = false
option_eq (some s) none = false
option_eq (some s) (some t) = s == t

-- every entry of `a` stands in `b`
unfoldable pub labels_in : Dict String → Dict String → Bool
unfolding option_eq
labels_in [] b = true
labels_in ((k, v) ∷ a) b = option_eq (get k b) (some v) && labels_in a b

-- `a == b`, for dictionaries of texts
unfoldable pub labels_eq : Dict String → Dict String → Bool
unfolding labels_in
labels_eq a b = nat_eq (length a) (length b) && labels_in a b
