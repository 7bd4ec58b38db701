-- ===== src/GpuMapping/Review/RoundTrip.antt =====
-- Printing a mapping and reading it again as the reviewed map.
use Prim.Native.String as Str
use mathlib.Core.List.{append_assoc, append-nil}
use astrum_weaver.Prelude.{
  String, ◌≡◌, refl, sym, ap, ◌∙◌, subst, true, false, none, some, List, [], ◌∷◌, ◌++◌, ◌==◌,
  length, ◌<◌, Bool-cases, inl, inr, arith, eq_iff,
}
use astrum_weaver.Text.{strip}
use astrum_weaver.Text.Lines.{is_break, lines_from, splitlines, prepend}
use astrum_weaver.Text.Order.{sort, pair_ltb}
use astrum_weaver.Sets.{option_eq}
use astrum_weaver.Dict.{Dict, get, put, Entries, IsDict}
use astrum_weaver.Dict.Laws.{get-put}
use astrum_weaver.GpuMapping.{is_gpu_uuid, is_device_path, validate_uuid}
use astrum_weaver.GpuMapping.Review.{
  add_pair, add_line, add_lines, load_reviewed_gpu_map, print_map,
}
use astrum_weaver.GpuMapping.Review.Plain.{
  strip_plain, is_gpu_uuid_plain, is_device_path_plain, unbroken, unbroken_plain, lines_unbroken,
  prepend-prepend, prepend-nil, partition-prepend,
}
use astrum_weaver.Result.{ok}

put-append : (k v : String) (d : Dict String) → get k d ≡ none → put k v d ≡ d ++ (k, v) ∷ []
unfolding put get
put-append k v [] h = refl
put-append k v ((j, w) ∷ d) h = elim (Bool-cases (j == k)) [
  | inl e ↦ absurd (cc (rw e at h))
  | inr e ↦ rw (e, put-append k v d (rw e at h))
]

-- A UUID and a device path, both well formed.
abbrev pub IsPair : String → String → Type 0
IsPair uuid path = (is_gpu_uuid uuid ≡ true) × (is_device_path path ≡ true)

validate_uuid_plain :
    (uuid : String) → is_gpu_uuid uuid ≡ true → validate_uuid (strip uuid) ≡ ok uuid
unfolding validate_uuid
validate_uuid_plain uuid u =
    let bare = strip_plain uuid (is_gpu_uuid_plain uuid u) in rw (bare, bare, u)

add_pair_lem :
    (uuid path : String) (d : Dict String)
    → IsPair uuid path
    → get uuid d ≡ none
    → add_pair uuid path d ≡ ok (put uuid path d)
unfolding add_pair option_eq
add_pair_lem uuid path d (u, p) new =
    rw (validate_uuid_plain uuid u, strip_plain path (is_device_path_plain path p), p, new)

add_line_lem :
    (uuid path : String) (d : Dict String)
    → IsPair uuid path
    → get uuid d ≡ none
    → add_line (prepend uuid (Str.◌∷◌ "=" path)) d ≡ ok (put uuid path d)
unfolding add_line
add_line_lem uuid path d pair new =
    let parts = partition-prepend uuid path (is_gpu_uuid_plain uuid pair.0) in
    rw (add_line, parts, parts) (add_pair_lem uuid path d pair new)

lines_line :
    (uuid path t : String)
    → IsPair uuid path
    → lines_from false (prepend uuid (Str.◌∷◌ "=" (prepend path (Str.◌∷◌ "\n" t))))
      ≡ prepend uuid (Str.◌∷◌ "=" path) ∷ lines_from false t
unfolding prepend unbroken is_break
lines_line uuid path t (u, p) =
    let u' = is_gpu_uuid_plain uuid u in
    let p' = is_device_path_plain path p in
    let line = prepend uuid (Str.◌∷◌ "=" path) in
    let whole =
      unbroken_plain uuid (Str.◌∷◌ "=" path) u'
        (subst (λ s. unbroken s ≡ true) (prepend-nil path) (unbroken_plain path "" p' refl)) in
    ap (lines_from false) (sym (prepend-prepend uuid (Str.◌∷◌ "=" path) (Str.◌∷◌ "\n" t)))
    ∙ lines_unbroken line t whole

not_later :
    (k v : String) (rest d : Dict String)
    → get k rest ≡ none
    → Entries (λ j w. get j d ≡ none) rest
    → Entries (λ j w. get j (put k v d) ≡ none) rest
unfolding get
not_later k v [] d h all = tt
not_later k v ((j, w) ∷ rest) d h all = elim (Bool-cases (j == k)) [
  | inl e ↦ absurd (cc (rw e at h))
  | inr e ↦ (
    ground (arith, get-put k j v d, all.0, e, eq_iff k j, eq_iff j k),
    not_later k v rest d (rw e at h) all.1,
  )
]

add_lines-print :
    (mapping d : Dict String)
    → IsDict mapping
    → Entries IsPair mapping
    → Entries (λ k v. get k d ≡ none) mapping
    → add_lines (lines_from false (print_map mapping)) d ≡ ok (d ++ mapping)
unfolding add_lines print_map lines_from
add_lines-print [] d keys pairs new = rw (append-nil d)
add_lines-print ((uuid, path) ∷ mapping) d keys pairs new =
    rw (lines_line uuid path (print_map mapping) pairs.0, add_line_lem uuid path d pairs.0 new.0)
      (add_lines-print mapping (put uuid path d) keys.1 pairs.1
          (not_later uuid path mapping d keys.0 new.1)
        ∙ ap ok (rw (put-append uuid path d new.0) (append_assoc d ((uuid, path) ∷ []) mapping)))

abbrev no_entries : Dict String
no_entries = []

no_keys : (mapping : Dict String) → Entries (λ k v. get k no_entries ≡ none) mapping
unfolding get
no_keys [] = tt
no_keys ((k, v) ∷ mapping) = (refl, no_keys mapping)

-- A mapping that is not empty, whose UUIDs differ and whose entries are well formed, is read back from
-- its print, in the order of its UUIDs.
pub load_reviewed_gpu_map-print_map :
    (mapping : List (String × String))
    → 0 < length mapping
    → IsDict mapping
    → Entries IsPair mapping
    → load_reviewed_gpu_map (some (print_map mapping)) ≡ ok (sort pair_ltb mapping)
unfolding load_reviewed_gpu_map splitlines
load_reviewed_gpu_map-print_map [] some_entry keys pairs = absurd (omega arith)
load_reviewed_gpu_map-print_map (entry ∷ mapping) some_entry keys pairs =
    rw (add_lines-print (entry ∷ mapping) [] keys pairs (no_keys (entry ∷ mapping))) (ground arith)
