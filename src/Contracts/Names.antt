-- ===== src/Contracts/Names.antt =====
-- The names that `_unique_strings` gives: stripped, not blank, all different.
use mathlib.Core.List.{append_assoc, append-nil}
use astrum_weaver.Prelude.{String, ◌≡◌, sym, subst, ◌∙◌, List, [], ◌∷◌, ◌++◌}
use astrum_weaver.Text.{strip, is_blank, strip-strip}
use astrum_weaver.Sets.{contains}
use astrum_weaver.Contracts.{Strings, many, raw_values, collect, unique_strings}
use astrum_weaver.Result.{Result, ok, if_cases}

-- The names that a pass over the raw ones adds; a second pass over them adds the same.
record Added (field_name : String) (seen xs : List String) : Type 0 where
  names : List String
  joined : xs ≡ seen ++ names
  again : collect field_name names seen ≡ ok xs

collect-again :
    (field_name : String) (raw seen xs : List String)
    → collect field_name raw seen ≡ ok xs
    → Added field_name seen xs
unfolding collect
collect-again field_name [] seen xs =
    λ h. record { names = []; joined = cc (h, append-nil seen); again = h }
collect-again field_name (value ∷ raw) seen xs =
    let item = strip value in
    let P : Result (List String) → Type 0 = λ x. x ≡ ok xs → Added field_name seen xs in
    if_cases P (is_blank item) (λ _ h. absurd (cc h))
      λ named.
        if_cases P (contains item seen) (λ _ h. absurd (cc h))
          λ new h.
            let a = collect-again field_name raw (seen ++ item ∷ []) xs h in
            record {
              names = item ∷ a.names;
              joined = a.joined ∙ append_assoc seen (item ∷ []) a.names;
              again = rw (strip-strip value, named, new) a.again;
            }

-- Names that were accepted once are accepted again, and unchanged.
pub unique_strings-unique_strings :
    (values : Strings) (field_name : String) (xs : List String)
    → unique_strings values field_name ≡ ok xs
    → unique_strings (many xs) field_name ≡ ok xs
unfolding unique_strings raw_values
unique_strings-unique_strings values field_name xs h =
    let a = collect-again field_name (raw_values values) [] xs h in
    subst (λ l. collect field_name l [] ≡ ok xs) (sym a.joined) a.again
