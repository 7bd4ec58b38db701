-- ===== src/Value.antt =====
-- The values of `Mapping[str, Any]`: payloads, metadata, outputs and errors. They are JSON values
-- with integers; the fabric stores them, copies them and compares them, and reads none of them.
use astrum_weaver.Prelude.{
  ℕ, ◌+◌, String, Bool, true, false, ◌&&◌, Option, none, some, [], ◌∷◌, ◌==◌, nat_eq, if◌then◌else◌,
  ℤ, pos, pos_part, neg_part, bit,
}
use astrum_weaver.Dict.{Dict, put}

mutual
  pub data Value : Type 0 where
    null : Value
    bool : Bool → Value
    int : ℤ → Value
    str : String → Value
    arr : Items → Value
    obj : Fields → Value

  pub data Fields : Type 0 where
    end : Fields
    field : String → Value → Fields → Fields

  pub data Items : Type 0 where
    nil : Items
    cons : Value → Items → Items

-- `Mapping[str, Any]`
abbrev pub Mapping : Type 0
Mapping = Dict Value

find_field : String → Fields → Option Value
find_field k end = none
find_field k (field j v fs) = if j == k then some v else find_field k fs

size_fields : Fields → ℕ
size_fields end = 0
size_fields (field k v fs) = 1 + size_fields fs

-- A Boolean is equal to the integer that it stands for.
int_eq : ℤ → Value → Bool
int_eq n (int m) = nat_eq (pos_part n + neg_part m) (pos_part m + neg_part n)
int_eq n (bool b) = nat_eq (pos_part n) (bit b) && nat_eq (neg_part n) 0
int_eq n _ = false

str_eq : String → Value → Bool
str_eq s (str t) = s == t
str_eq s _ = false

is_null : Value → Bool
is_null null = true
is_null _ = false

as_items : Value → Option Items
as_items (arr xs) = some xs
as_items _ = none

as_fields : Value → Option Fields
as_fields (obj fs) = some fs
as_fields _ = none

-- `==` on values: lists in order, dictionaries by their keys in any order
mutual
  pub value_eq : Value → Value → Bool
  value_eq null w = is_null w
  value_eq (bool b) w = int_eq (pos (bit b)) w
  value_eq (int n) w = int_eq n w
  value_eq (str s) w = str_eq s w
  value_eq (arr xs) w = elim (as_items w) [ none ↦ false | some ys ↦ items_eq xs ys ]
  value_eq (obj fs) w = elim (as_fields w) [
    | none ↦ false
    | some gs ↦ nat_eq (size_fields fs) (size_fields gs) && fields_in fs gs
  ]

  items_eq : Items → Items → Bool
  items_eq nil nil = true
  items_eq nil (cons y ys) = false
  items_eq (cons x xs) nil = false
  items_eq (cons x xs) (cons y ys) = value_eq x y && items_eq xs ys

  fields_in : Fields → Fields → Bool
  fields_in end gs = true
  fields_in (field k v fs) gs =
      elim (find_field k gs) [ none ↦ false | some w ↦ value_eq v w ] && fields_in fs gs

to_fields : Mapping → Fields
to_fields [] = end
to_fields ((k, v) ∷ m) = field k v (to_fields m)

-- `dict(a) == dict(b)`
unfoldable pub mapping_eq : Mapping → Mapping → Bool
unfolding to_fields value_eq items_eq fields_in find_field size_fields int_eq str_eq is_null
    as_items as_fields
mapping_eq a b = value_eq (obj (to_fields a)) (obj (to_fields b))

-- `{**a, **b}`
unfoldable pub merge : Mapping → Mapping → Mapping
merge a [] = a
merge a ((k, v) ∷ b) = merge (put k v a) b
