-- ===== src/GpuMapping/Review/Plain.antt =====
-- Texts with no white space, comma or equals sign, and the lines made of them.
use Prim.Native.Char.{Char, code}
use Prim.Native.String as Str
use astrum_weaver.Prelude.{
  String, ◌≡◌, refl, Bool, true, false, ◌&&◌, ◌||◌, not, Option, none, some, ◌∷◌, nat_eq,
  Bool-cases, inl, inr, arith, and-eq-true,
}
use astrum_weaver.Text.{is_space, lstrip, rstrip, strip, push_unless_blank}
use astrum_weaver.Text.Lines.{is_break, lines_from, push_line, partition_at, after_prefix, prepend}
use astrum_weaver.Text.Number.{is_digit, all_digits, is_number}
use astrum_weaver.GpuMapping.{is_plain, is_gpu_uuid, is_device_path, rest_passes}

-- The character is no white space, no comma and no equals sign.
abbrev plain : Char → Bool
plain c = not (is_space c || nat_eq (code c) 44 || nat_eq (code c) 61)

break_is_space : (c : Char) → plain c ≡ true → (is_space c ≡ false) × (is_break c ≡ false)
unfolding is_space is_break
break_is_space c h = ground (arith, h)

plain-ne : (c : Char) → plain c ≡ true → (nat_eq (code c) 61 ≡ false) × (nat_eq (code c) 13 ≡ false)
unfolding is_space
plain-ne c h = ground (arith, h)

digit_plain : (c : Char) → is_digit c ≡ true → plain c ≡ true
unfolding is_space is_digit
digit_plain c h = ground (arith, h)

plain_head :
    (c : Char) (s : String) → is_plain (Str.◌∷◌ c s) ≡ true → (plain c ≡ true) × (is_plain s ≡ true)
unfolding is_plain
plain_head c s h = and-eq-true _ _ h

-- A plain text has no white space to strip.
rstrip_plain : (s : String) → is_plain s ≡ true → rstrip s ≡ s
unfolding rstrip push_unless_blank
rstrip_plain Str.[] h = refl
rstrip_plain (Str.◌∷◌ c Str.[]) h = rw (break_is_space c (plain_head c "" h).0).0
rstrip_plain (Str.◌∷◌ c (Str.◌∷◌ d s)) h =
    rw (rstrip_plain (Str.◌∷◌ d s) (plain_head c (Str.◌∷◌ d s) h).1)

lstrip_plain : (s : String) → is_plain s ≡ true → lstrip s ≡ s
unfolding lstrip
lstrip_plain Str.[] h = refl
lstrip_plain (Str.◌∷◌ c s) h = rw (break_is_space c (plain_head c s h).0).0

pub strip_plain : (s : String) → is_plain s ≡ true → strip s ≡ s
unfolding strip
strip_plain s h = rw (rstrip_plain s h) (lstrip_plain s h)

digits_plain : (s : String) → all_digits s ≡ true → is_plain s ≡ true
unfolding is_plain all_digits
digits_plain Str.[] h = refl
digits_plain (Str.◌∷◌ c s) h =
    let (a, b) = and-eq-true _ _ h in rw (digit_plain c a, digits_plain s b)

same_plain : (c d : Char) → nat_eq (code c) (code d) ≡ true → plain c ≡ true → plain d ≡ true
unfolding is_space
same_plain c d e h = ground (arith, e, h)

plain_cons :
    (c : Char) (s : String) → plain c ≡ true → is_plain s ≡ true → is_plain (Str.◌∷◌ c s) ≡ true
unfolding is_plain
plain_cons c s h k = rw (h, k)

-- Where the prefix and the rest are plain, so is the text.
after_prefix_plain :
    (p s r : String)
    → is_plain p ≡ true
    → after_prefix p s ≡ some r
    → is_plain r ≡ true
    → is_plain s ≡ true
unfolding after_prefix
after_prefix_plain Str.[] s r h f k = let same : s ≡ r = cc (f) in rw same k
after_prefix_plain (Str.◌∷◌ c p) Str.[] r h f k = absurd (cc (f))
after_prefix_plain (Str.◌∷◌ c p) (Str.◌∷◌ d s) r h f k =
    let (a, b) = plain_head c p h in
    elim (Bool-cases (nat_eq (code c) (code d))) [
      | inl e ↦ plain_cons d s (same_plain c d e a) (after_prefix_plain p s r b (rw e at f) k)
      | inr e ↦ absurd (cc (rw e at f))
    ]

rest_plain :
    (test : String → Bool) (p s : String) (o : Option String)
    → is_plain p ≡ true
    → ((r : String) → test r ≡ true → is_plain r ≡ true)
    → after_prefix p s ≡ o
    → rest_passes test o ≡ true
    → is_plain s ≡ true
rest_plain test p s none h sound found passes = absurd (cc)
rest_plain test p s (some r) h sound found passes =
    after_prefix_plain p s r h found (sound r (and-eq-true _ _ passes).1)

pub is_gpu_uuid_plain : (s : String) → is_gpu_uuid s ≡ true → is_plain s ≡ true
unfolding is_gpu_uuid is_plain
is_gpu_uuid_plain s h = rest_plain is_plain "GPU-" s (after_prefix "GPU-" s) refl (λ r k. k) refl h

number_plain : (s : String) → is_number s ≡ true → is_plain s ≡ true
unfolding is_number
number_plain s h = digits_plain s (and-eq-true _ _ h).1

pub is_device_path_plain : (s : String) → is_device_path s ≡ true → is_plain s ≡ true
unfolding is_device_path is_plain
is_device_path_plain s h =
    rest_plain is_number "/dev/nvidia" s (after_prefix "/dev/nvidia" s) refl number_plain refl h

unfoldable pub unbroken : String → Bool
unbroken Str.[] = true
unbroken (Str.◌∷◌ c s) = not (is_break c) && unbroken s

no_return : (c : Char) → is_break c ≡ false → nat_eq (code c) 13 ≡ false
unfolding is_break
no_return c h = ground (arith, h)

pub lines_unbroken :
    (s t : String)
    → unbroken s ≡ true
    → lines_from false (prepend s (Str.◌∷◌ "\n" t)) ≡ s ∷ lines_from false t
unfolding lines_from prepend unbroken is_break push_line
lines_unbroken Str.[] t h = refl
lines_unbroken (Str.◌∷◌ c s) t h = elim (Bool-cases (is_break c)) [
  | inl e ↦ absurd (cc (rw e at h))
  | inr e ↦ rw (e, no_return c e, lines_unbroken s t (rw e at h))
]

pub unbroken_plain :
    (s t : String) → is_plain s ≡ true → unbroken t ≡ true → unbroken (prepend s t) ≡ true
unfolding unbroken prepend
unbroken_plain Str.[] t h k = k
unbroken_plain (Str.◌∷◌ c s) t h k =
    let (a, b) = plain_head c s h in rw ((break_is_space c a).1, unbroken_plain s t b k)

pub prepend-prepend : (a b c : String) → prepend (prepend a b) c ≡ prepend a (prepend b c)
unfolding prepend
prepend-prepend Str.[] b c = refl
prepend-prepend (Str.◌∷◌ x a) b c = rw (prepend-prepend a b c)

pub prepend-nil : (a : String) → prepend a "" ≡ a
unfolding prepend
prepend-nil Str.[] = refl
prepend-nil (Str.◌∷◌ x a) = rw (prepend-nil a)

pub partition-prepend :
    (u p : String) → is_plain u ≡ true → partition_at 61 (prepend u (Str.◌∷◌ "=" p)) ≡ (u, some p)
unfolding partition_at prepend
partition-prepend Str.[] p h = refl
partition-prepend (Str.◌∷◌ c u) p h =
    let (a, b) = plain_head c u h in rw ((plain-ne c a).0, partition-prepend u p b)
