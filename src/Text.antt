-- ===== src/Text.antt =====
-- `str.strip()` of the standard library, over native texts.
pub mod Lines
pub mod Number
pub mod Order
use Prim.Native.Char.{Char, code}
use Prim.Native.String.{[], ◌∷◌}
use astrum_weaver.Prelude.{
  String, ◌≡◌, refl, Bool, true, false, ◌&&◌, ◌||◌, leb, ltb, nat_eq, Bool-cases, inl, inr,
  if◌then◌else◌,
}

-- `str.isspace` of one character, by its code point.
unfoldable pub is_space : Char → Bool
is_space ch =
    let c = code ch in
    (leb 9 c && leb c 13)
    || (leb 28 c && leb c 32)
    || nat_eq c 133
    || nat_eq c 160
    || nat_eq c 5760
    || (leb 8192 c && leb c 8202)
    || nat_eq c 8232
    || nat_eq c 8233
    || nat_eq c 8239
    || nat_eq c 8287
    || nat_eq c 12288

unfoldable pub lstrip : String → String
lstrip [] = []
lstrip (c ∷ s) = if is_space c then lstrip s else c ∷ s

unfoldable pub push_unless_blank : Char → String → String
push_unless_blank c [] = if is_space c then [] else c ∷ []
push_unless_blank c (d ∷ s) = c ∷ d ∷ s

unfoldable pub rstrip : String → String
unfolding push_unless_blank
rstrip [] = []
rstrip (c ∷ s) = push_unless_blank c (rstrip s)

unfoldable pub strip : String → String
unfolding lstrip rstrip is_space push_unless_blank
strip s = lstrip (rstrip s)

-- `not s`, for a text
abbrev pub is_blank : String → Bool
is_blank [] = true
is_blank (c ∷ s) = false

-- `s < t`, by code points
unfoldable pub text_ltb : String → String → Bool
text_ltb [] [] = false
text_ltb [] (d ∷ t) = true
text_ltb (c ∷ s) [] = false
text_ltb (c ∷ s) (d ∷ t) = ltb (code c) (code d) || (nat_eq (code c) (code d) && text_ltb s t)

lstrip-lstrip : (s : String) → lstrip (lstrip s) ≡ lstrip s
unfolding lstrip
lstrip-lstrip [] = refl
lstrip-lstrip (c ∷ s) = elim (Bool-cases (is_space c)) [
  | inl e ↦ rw e (lstrip-lstrip s)
  | inr e ↦ rw e (rw e)
]

rstrip-push :
    (c : Char) (s : String) → rstrip s ≡ s → rstrip (push_unless_blank c s) ≡ push_unless_blank c s
unfolding rstrip push_unless_blank
rstrip-push c [] h = elim (Bool-cases (is_space c)) [ inl e ↦ rw e | inr e ↦ rw e (rw e) ]
rstrip-push c (d ∷ s) h = rw h

rstrip-rstrip : (s : String) → rstrip (rstrip s) ≡ rstrip s
unfolding rstrip
rstrip-rstrip [] = refl
rstrip-rstrip (c ∷ s) = rstrip-push c (rstrip s) (rstrip-rstrip s)

push-tail : (c : Char) (r s : String) → push_unless_blank c r ≡ c ∷ s → r ≡ s
unfolding push_unless_blank
push-tail c [] s h = elim (Bool-cases (is_space c)) [
  | inl e ↦ absurd (cc (rw e at h))
  | inr e ↦ cc (rw e at h)
]
push-tail c (d ∷ r) s h = cc

rstrip-tail : (c : Char) (s : String) → rstrip (c ∷ s) ≡ c ∷ s → rstrip s ≡ s
unfolding rstrip
rstrip-tail c s h = push-tail c (rstrip s) s h

rstrip-lstrip : (s : String) → rstrip s ≡ s → rstrip (lstrip s) ≡ lstrip s
unfolding lstrip
rstrip-lstrip [] h = h
rstrip-lstrip (c ∷ s) h = elim (Bool-cases (is_space c)) [
  | inl e ↦ rw e (rstrip-lstrip s (rstrip-tail c s h))
  | inr e ↦ rw e h
]

-- Stripping twice strips no more.
pub strip-strip : (s : String) → strip (strip s) ≡ strip s
unfolding strip
strip-strip s = rw (rstrip-lstrip (rstrip s) (rstrip-rstrip s)) (lstrip-lstrip (rstrip s))
