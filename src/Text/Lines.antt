-- ===== src/Text/Lines.antt =====
-- `str.splitlines`, `str.split`, `str.partition` and `in` of the standard library.
use Prim.Native.Char.{Char, code}
use Prim.Native.String as Str
use astrum_weaver.Prelude.{
  ℕ, String, ◌≡◌, refl, Bool, true, false, ◌&&◌, ◌||◌, Option, none, some, List, [], ◌∷◌, leb,
  nat_eq, if◌then◌else◌,
}
use astrum_weaver.Text.{is_space, lstrip}

-- `s + t`
unfoldable pub prepend : String → String → String
prepend Str.[] t = t
prepend (Str.◌∷◌ c s) t = Str.◌∷◌ c (prepend s t)

-- The characters at which `splitlines` ends a line.
unfoldable pub is_break : Char → Bool
is_break ch =
    let c = code ch in
    (leb 10 c && leb c 13)
    || (leb 28 c && leb c 30)
    || nat_eq c 133
    || nat_eq c 8232
    || nat_eq c 8233

-- One more character at the front of the first part.
unfoldable pub push_line : Char → List String → List String
push_line c [] = Str.◌∷◌ c Str.[] ∷ []
push_line c (l ∷ ls) = Str.◌∷◌ c l ∷ ls

-- The lines of a text; the flag tells that a carriage return stands before it.
unfoldable pub lines_from : Bool → String → List String
unfolding is_break push_line
lines_from cr Str.[] = []
lines_from cr (Str.◌∷◌ c s) =
    let rest = lines_from (nat_eq (code c) 13) s in
    if cr && nat_eq (code c) 10 then rest else if is_break c then "" ∷ rest else push_line c rest

-- `s.splitlines()`
unfoldable pub splitlines : String → List String
unfolding lines_from
splitlines s = lines_from false s

-- `s.split(k)` for one character, given by its code point
unfoldable pub split_at : ℕ → String → List String
unfolding push_line
split_at k Str.[] = "" ∷ []
split_at k (Str.◌∷◌ c s) =
    let rest = split_at k s in if nat_eq (code c) k then "" ∷ rest else push_line c rest

unfoldable pub push_first : Char → String × Option String → String × Option String
push_first c (s, rest) = (Str.◌∷◌ c s, rest)

-- `s.partition(k)`: what stands before the first `k`, and behind it if there is one
unfoldable pub partition_at : ℕ → String → String × Option String
unfolding push_first
partition_at k Str.[] = ("", none)
partition_at k (Str.◌∷◌ c s) =
    let rest = partition_at k s in if nat_eq (code c) k then ("", some s) else push_first c rest

-- `s.startswith(p)`, with what follows
unfoldable pub after_prefix : String → String → Option String
after_prefix Str.[] s = some s
after_prefix (Str.◌∷◌ c p) Str.[] = none
after_prefix (Str.◌∷◌ c p) (Str.◌∷◌ d s) =
    let rest = after_prefix p s in if nat_eq (code c) (code d) then rest else none

unfoldable pub has_prefix : Option String → Bool
has_prefix none = false
has_prefix (some s) = true

-- `p in s`
unfoldable pub occurs_in : String → String → Bool
unfolding has_prefix after_prefix
occurs_in p Str.[] = has_prefix (after_prefix p Str.[])
occurs_in p (Str.◌∷◌ c s) = has_prefix (after_prefix p (Str.◌∷◌ c s)) || occurs_in p s

first_word : String → String × String
unfolding push_first
first_word Str.[] = ("", "")
first_word (Str.◌∷◌ c s) =
    let (word, rest) = first_word s in
    if is_space c then ("", Str.◌∷◌ c s) else (Str.◌∷◌ c word, rest)

-- `s.split(None, 1)` for a stripped text: the first word, and what follows the white space behind it
unfoldable pub split_word : String → String × String
unfolding first_word lstrip is_space
split_word s = let (word, rest) = first_word s in (word, lstrip rest)

three_lines : splitlines "a\r\n\nb\n" ≡ "a" ∷ "" ∷ "b" ∷ []
unfolding splitlines
three_lines = refl

fields : split_at 44 "a,,b" ≡ "a" ∷ "" ∷ "b" ∷ []
unfolding split_at
fields = refl

words : split_word "195 nvidia-frontend" ≡ ("195", "nvidia-frontend")
unfolding split_word
words = refl

found : occurs_in "field" "a field" ≡ true
unfolding occurs_in
found = refl
