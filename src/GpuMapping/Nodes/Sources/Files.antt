-- ===== src/GpuMapping/Nodes/Sources/Files.antt =====
-- The kernel's information files, and the minors that are taken from them.
use astrum_weaver.Prelude.{
  ℕ, String, ◌≡◌, refl, sym, true, Option, none, some, List, [], ◌∷◌, ◌++◌, ◌==◌, ℤ, pos, negsuc,
  Within, inl, inr, ◌⊎◌, eq_iff, Bool-cases, subst, ap,
}
use astrum_weaver.Text.Lines.{splitlines}
use astrum_weaver.Text.Number.{is_number, int_from}
use astrum_weaver.Dict.{Dict, get}
use astrum_weaver.Dict.Laws.{get-put}
use astrum_weaver.GpuMapping.Nodes.{
  Minor, integer, truth, text, absent, Kernel, field_values, entry_of, rows_of, add_entry,
  read_files, proc_mapping_rows, checked_minor,
}
use astrum_weaver.Result.{ok, ok_inj}

-- The information file has the UUID and the minor, each in one field.
pub record Informs (file uuid : String) (minor : ℕ) : Type 0 where
  pub named : field_values "GPU UUID" (splitlines file) ≡ uuid ∷ []
  pub digits : String
  pub listed : field_values "Device Minor" (splitlines file) ≡ digits ∷ []
  pub decimal : is_number digits ≡ true
  pub value : minor ≡ int_from 0 digits

-- The file of a UUID and a minor as they are read, before the check of the minor.
record Names (files : List (Option String)) (uuid : String) (minor : Minor) : Type 0 where
  file : String
  here : Within (some file) files
  entry :
      entry_of
        (field_values "GPU UUID" (splitlines file))
        (field_values "Device Minor" (splitlines file))
      ≡ some (uuid, minor)

Within-append : (x : Minor) (xs ys : List Minor) → Within x (xs ++ ys) → Within x xs ⊎ Within x ys
Within-append x [] ys h = inr h
Within-append x (y ∷ xs) ys h = elim h [
  | inl e ↦ inl (inl e)
  | inr r ↦ elim (Within-append x xs ys r) [ inl p ↦ inl (inr p) | inr p ↦ inr p ]
]

module _ (files : List (Option String)) where
  abbrev AllNamed : Dict (List Minor) → Type 0
  AllNamed d =
      (uuid : String) (minor : Minor) → Within minor (rows_of (get uuid d)) → Names files uuid minor

  entry-AllNamed :
      (o : Option (String × Minor)) (d : Dict (List Minor))
      → AllNamed d
      → ((uuid : String) (minor : Minor) → o ≡ some (uuid, minor) → Names files uuid minor)
      → AllNamed (add_entry o d)
  unfolding add_entry
  entry-AllNamed none d all new uuid minor h = all uuid minor h
  entry-AllNamed (some (key, m)) d all new uuid minor h = elim (Bool-cases (key == uuid)) [
    | inl e ↦
        let same : key ≡ uuid = (eq_iff key uuid).0 e in
        let h1 = rw (get-put key uuid (rows_of (get key d) ++ m ∷ []) d, e) at h in
        elim (Within-append minor (rows_of (get key d)) (m ∷ []) h1) [
          | inl p ↦ subst (λ u. Names files u minor) same (all key minor p)
          | inr p ↦ elim p [
            | inl q ↦
                subst (λ u. Names files u minor) same
                  (subst (λ x. Names files key x) (sym q) (new key m refl))
            | inr q ↦ absurd q
          ]
        ]
    | inr e ↦ all uuid minor (rw (get-put key uuid (rows_of (get key d) ++ m ∷ []) d, e) at h)
  ]

  files-AllNamed :
      (rest : List (Option String)) (d : Dict (List Minor))
      → ((f : Option String) → Within f rest → Within f files)
      → AllNamed d
      → AllNamed (read_files rest d)
  unfolding read_files
  files-AllNamed [] d within all = all
  files-AllNamed (none ∷ rest) d within all = files-AllNamed rest d (λ f p. within f (inr p)) all
  files-AllNamed (some file ∷ rest) d within all =
      let entry =
        entry_of (field_values "GPU UUID" (splitlines file))
          (field_values "Device Minor" (splitlines file)) in
      files-AllNamed rest (add_entry entry d) (λ f p. within f (inr p))
        (entry-AllNamed entry d all
          (λ uuid minor e. record { file = file; here = within (some file) (inl refl); entry = e }))

entry-fields :
    (uuids minors : List String) (uuid : String) (digits : String)
    → entry_of uuids minors ≡ some (uuid, text digits)
    → (uuids ≡ uuid ∷ []) × (minors ≡ digits ∷ [])
unfolding entry_of
entry-fields [] minors uuid digits h = absurd (cc h)
entry-fields (u ∷ []) [] uuid digits h = absurd (cc h)
entry-fields (u ∷ []) (m ∷ []) uuid digits h =
    let same : (u, text m) ≡ (uuid, text digits) = cc h in
    let a : u ≡ uuid = ap (λ (x : String × Minor). x.0) same in
    let b : text m ≡ text digits = ap (λ (x : String × Minor). x.1) same in
    let d : m ≡ digits = cc (b) in (ap (λ x. x ∷ []) a, ap (λ x. x ∷ []) d)
entry-fields (u ∷ []) (m ∷ n ∷ minors) uuid digits h = absurd (cc h)
entry-fields (u ∷ v ∷ uuids) minors uuid digits h = absurd (cc h)

-- The one minor that passes the check is a number or a text of digits.
checked-cases :
    (ms : List Minor) (minor : ℕ)
    → checked_minor ms ≡ ok minor
    → (ms ≡ integer (pos minor) ∷ [])
      ⊎ ((s : String) × (ms ≡ text s ∷ []) × (is_number s ≡ true) × (minor ≡ int_from 0 s))
unfolding checked_minor
checked-cases [] minor h = absurd (cc h)
checked-cases (integer (pos n) ∷ []) minor h = inl (ap (λ m. integer (pos m) ∷ []) (ok_inj h))
checked-cases (integer (negsuc n) ∷ []) minor h = absurd (cc h)
checked-cases (truth b ∷ []) minor h = absurd (cc h)
checked-cases (absent ∷ []) minor h = absurd (cc h)
checked-cases (text s ∷ []) minor h = elim (Bool-cases (is_number s)) [
  | inl e ↦ inr (s, refl, e, sym (ok_inj (rw e at h)))
  | inr e ↦ absurd (cc (rw e at h))
]
checked-cases (integer (pos i) ∷ n ∷ ms) minor h = absurd (cc h)
checked-cases (integer (negsuc i) ∷ n ∷ ms) minor h = absurd (cc h)
checked-cases (truth b ∷ n ∷ ms) minor h = absurd (cc h)
checked-cases (text s ∷ n ∷ ms) minor h = absurd (cc h)
checked-cases (absent ∷ n ∷ ms) minor h = absurd (cc h)

no_integer :
    (uuids minors : List String) (uuid : String) (n : ℤ)
    → entry_of uuids minors ≡ some (uuid, integer n)
    → ⊥
unfolding entry_of
no_integer [] minors uuid n h = cc h
no_integer (u ∷ []) [] uuid n h = cc h
no_integer (u ∷ []) (m ∷ []) uuid n h = cc h
no_integer (u ∷ []) (m ∷ k ∷ minors) uuid n h = cc h
no_integer (u ∷ v ∷ uuids) minors uuid n h = cc h

named-Informs :
    (files : List (Option String)) (ms : List Minor) (uuid : String) (minor : ℕ)
    → ((m : Minor) → Within m ms → Names files uuid m)
    → checked_minor ms ≡ ok minor
    → (file : String) × Within (some file) files × Informs file uuid minor
named-Informs files ms uuid minor all h = elim (checked-cases ms minor h) [
  | inl same ↦
      let n =
        all (integer (pos minor))
          (subst (λ l. Within (integer (pos minor)) l) (sym same) (inl refl)) in
      absurd (no_integer _ _ uuid (pos minor) n.entry)
  | inr (s, same, digits, value) ↦
      let n = all (text s) (subst (λ l. Within (text s) l) (sym same) (inl refl)) in
      let (a, b) = entry-fields _ _ uuid s n.entry in
      (
        n.file,
        n.here,
        record { named = a; digits = s; listed = b; decimal = digits; value = value },
      )
]

nil-AllNamed : (files : List (Option String)) → AllNamed files []
unfolding get
nil-AllNamed files uuid minor h = absurd h

files-AllNamed-rows :
    (files : List (Option String)) (rows : Dict (List Minor))
    → proc_mapping_rows files ≡ ok rows
    → AllNamed files rows
unfolding proc_mapping_rows
files-AllNamed-rows [] rows h = absurd (cc h)
files-AllNamed-rows (f ∷ files) rows h =
    subst (AllNamed (f ∷ files)) (ok_inj h)
      (files-AllNamed (f ∷ files) (f ∷ files) [] (λ g p. p) (nil-AllNamed (f ∷ files)))

pub kernel-source :
    (k : Kernel) (rows : Dict (List Minor)) (uuid : String) (minor : ℕ)
    → proc_mapping_rows k.information_files ≡ ok rows
    → checked_minor (rows_of (get uuid rows)) ≡ ok minor
    → (file : String) × Within (some file) k.information_files × Informs file uuid minor
kernel-source k rows uuid minor read h =
    named-Informs k.information_files (rows_of (get uuid rows)) uuid minor
      (files-AllNamed-rows k.information_files rows read uuid) h
