-- ===== src/Contracts/Capability.antt =====
-- `normalize_compute_capability` and `compute_capability_key` of contracts.py: "8" and "08.60" are
-- written "8.0" and "8.60".
use Prim.Native.Char.{Char, code}
use Prim.Native.String.{[], ◌∷◌}
use astrum_weaver.Prelude.{
  ℕ, String, ◌≡◌, refl, Bool, ◌&&◌, Option, none, some, nat_eq, if◌then◌else◌,
}
use astrum_weaver.Text.{strip}
use astrum_weaver.Text.Number.{is_number, int_from, decimal}
use astrum_weaver.Result.{Result, ok, err, value_error, ◌>>=◌}

is_dot : Char → Bool
is_dot c = nat_eq (code c) 46

add_to_head : Char → String × Option String → String × Option String
add_to_head c (s, rest) = (c ∷ s, rest)

-- `text.partition(".")`: what stands before the first dot, and behind it if there is one
partition : String → String × Option String
unfolding is_dot add_to_head
partition [] = ([], none)
partition (c ∷ s) = let rest = partition s in if is_dot c then ([], some s) else add_to_head c rest

-- The numbers of a text that the pattern accepts.
numbers : String × Option String → Result (ℕ × ℕ)
unfolding is_number int_from
numbers (major, none) =
    if is_number major then ok (int_from 0 major, 0) else err (value_error "compute capability")
numbers (major, some minor) =
    if is_number major && is_number minor
    then ok (int_from 0 major, int_from 0 minor)
    else err (value_error "compute capability")

unfoldable pub normalize_compute_capability : String → Result String
unfolding numbers partition decimal strip
normalize_compute_capability value = do
  (major, minor) ← numbers (partition (strip value))
  ok (decimal major ("." ∷ decimal minor ""))

split_key : String × Option String → Result (ℕ × ℕ)
unfolding int_from
split_key (major, none) = err (value_error "not enough values to unpack")
split_key (major, some minor) = ok (int_from 0 major, int_from 0 minor)

unfoldable pub compute_capability_key : String → Result (ℕ × ℕ)
unfolding split_key normalize_compute_capability
compute_capability_key value = do
  normalized ← normalize_compute_capability value
  split_key (partition normalized)

leading_zeros : normalize_compute_capability " 08.60 " ≡ ok "8.60"
unfolding normalize_compute_capability
leading_zeros = refl

major_alone : compute_capability_key "12" ≡ ok (12, 0)
unfolding compute_capability_key
major_alone = refl

two_dots : normalize_compute_capability "8.6.1" ≡ err (value_error "compute capability")
unfolding normalize_compute_capability
two_dots = refl
