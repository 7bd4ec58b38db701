-- ===== src/GpuMapping/Review/Isolation.antt =====
-- What the probe of gpu_mapping.py proves, and that it closes what it opens.
use astrum_weaver.Prelude.{
  ℕ, String, ◌≡◌, refl, sym, true, false, Option, some, List, [], ◌∷◌, ◌⊎◌, inl, inr, Within,
  Bool-cases, subst,
}
use astrum_weaver.Text.{text_ltb}
use astrum_weaver.Text.Order.{sort, pair_ltb, Within-sort}
use astrum_weaver.Sets.{contains, tuple_eq}
use astrum_weaver.Sets.Laws.{option_eq_iff, contains-Within}
use astrum_weaver.GpuMapping.Review.{
  Opened, descriptor, denied, failed, Devices, open_selected, probe_unselected, probe_devices,
  verify_isolated_gpu_access, reviewed_selection, select_mapping, paths_of, set_minus, once_each,
  validate_uuids, join_comma, pairs_eq,
}
use astrum_weaver.Result.{ok, checked_cases, >>=-eq-ok, ok_inj, require->>, refuse->>}

Opened-cases : (o : Opened) → ((fd : ℕ) × (o ≡ descriptor fd)) ⊎ ((o ≡ denied) ⊎ (o ≡ failed))
Opened-cases (descriptor fd) = inl (fd, refl)
Opened-cases denied = inr (inl refl)
Opened-cases failed = inr (inr refl)

Within-once_each : (x : String) (xs : List String) → Within x xs → Within x (once_each xs)
unfolding once_each
Within-once_each x [] h = h
Within-once_each x (y ∷ xs) h = elim (Bool-cases (contains y xs)) [
  | inl e ↦ rw e (
      Within-once_each x xs (elim h [
        | inl same ↦ subst (λ z. Within z xs) (sym same) (contains-Within y xs e)
        | inr later ↦ later
      ]))
  | inr e ↦ rw e (elim h [ inl same ↦ inl same | inr later ↦ inr (Within-once_each x xs later) ])
]

Within-set_minus :
    (x : String) (a b : List String) → Within x a → contains x b ≡ false → Within x (set_minus a b)
unfolding set_minus
Within-set_minus x [] b h new = h
Within-set_minus x (y ∷ a) b h new = elim (Bool-cases (contains y b)) [
  | inl e ↦ rw e (elim h [
    | inl same ↦ absurd (
        let new' : contains y b ≡ false = subst (λ z. contains z b ≡ false) same new in
        cc (e, new'))
    | inr later ↦ Within-set_minus x a b later new
  ])
  | inr e ↦
      rw e (elim h [ inl same ↦ inl same | inr later ↦ inr (Within-set_minus x a b later new) ])
]

module _ {W : Type 0} (devices : Devices W) where
  -- A state of the world that probes reach.
  pub data Reached (w : W) : W → Type 0 where
    start : Reached w w
    after_open : (path : String) (v : W) → Reached w v → Reached w (devices.open_device path v).1
    after_close : (fd : ℕ) (v : W) → Reached w v → Reached w (devices.close_device fd v)

  -- In a state that the probes reached the device opened.
  pub record Opens (w : W) (path : String) : Type 0 where
    pub world : W
    pub reached : Reached w world
    pub fd : ℕ
    pub answer : (devices.open_device path world).0 ≡ descriptor fd

  -- In a state that the probes reached the device was denied.
  pub record Denies (w : W) (path : String) : Type 0 where
    pub world : W
    pub reached : Reached w world
    pub answer : (devices.open_device path world).0 ≡ denied

  module _ (w0 : W) where
    open_selected-Opens :
        (paths : List String) (w : W)
        → Reached w0 w
        → (open_selected devices paths w).0 ≡ ok tt
        → ((path : String) → Within path paths → Opens w0 path)
          × Reached w0 (open_selected devices paths w).1
    unfolding open_selected
    open_selected-Opens [] w r h = ((λ path p. elim p [ ]), r)
    open_selected-Opens (first ∷ paths) w r h =
        elim (Opened-cases (devices.open_device first w).0) [
          | inl (fd, e) ↦
              let (later, end) =
                open_selected-Opens paths (devices.close_device fd (devices.open_device first w).1)
                  (after_close fd _ (after_open first w r)) (rw (e, open_selected) at h) in
              (
                λ path p. elim p [
                  | inl same ↦
                      subst (Opens w0) (sym same)
                        (record { world = w; reached = r; fd = fd; answer = e })
                  | inr q ↦ later path q
                ],
                rw (e, open_selected) end,
              )
          | inr (inl e) ↦ absurd (cc (rw (e, open_selected) at h))
          | inr (inr e) ↦ absurd (cc (rw (e, open_selected) at h))
        ]

    probe_unselected-Denies :
        (paths : List String) (w : W)
        → Reached w0 w
        → (probe_unselected devices paths w).0 ≡ ok tt
        → (path : String) → Within path paths
        → Denies w0 path
    unfolding probe_unselected
    probe_unselected-Denies [] w r h path p = elim p [ ]
    probe_unselected-Denies (first ∷ paths) w r h path p =
        elim (Opened-cases (devices.open_device first w).0) [
          | inl (fd, e) ↦ absurd (cc (rw (e, probe_unselected) at h))
          | inr (inl e) ↦ elim p [
            | inl same ↦
                subst (Denies w0) (sym same) (record { world = w; reached = r; answer = e })
            | inr later ↦
                probe_unselected-Denies paths (devices.open_device first w).1 (after_open first w r)
                  (rw (e, probe_unselected) at h) path later
          ]
          | inr (inr e) ↦ absurd (cc (rw (e, probe_unselected) at h))
        ]

  -- The probes say of each path what they ought to.
  pub record Separates (w : W) (selected others : List String) : Type 0 where
    pub opens : (path : String) → Within path selected → Opens w path
    pub denies : (path : String) → Within path others → Denies w path

  probe_devices-Separates :
      (selected others : List String) (w : W)
      → (probe_devices devices selected others w).0 ≡ ok tt
      → Separates w selected others
  unfolding probe_devices
  probe_devices-Separates selected others w =
      checked_cases (λ r. r.0 ≡ ok tt → Separates w selected others)
        (open_selected devices selected w).1 (open_selected devices selected w).0
        (λ u. probe_unselected devices others (open_selected devices selected w).1)
        (λ e h. absurd (cc h))
        λ u passed h.
          let (opens, end) = open_selected-Opens w selected w start passed in
          record {
            opens = opens;
            denies = probe_unselected-Denies w others (open_selected devices selected w).1 end h;
          }

  -- What a verified isolation means: the selection is the reviewed one, the variable lists the UUIDs
  -- of the Worker, every selected device opened for the probes and every other one of the host was denied.
  pub record IsIsolated (mapping : List (String × String)) (expected : List String)
      (reviewed : List (String × String)) (order : List String) (cuda : Option String) (w : W)
      : Type 0 where
    pub selected : List (String × String)
    pub chosen : select_mapping mapping expected ≡ ok selected
    pub unchanged : pairs_eq selected (sort pair_ltb reviewed) ≡ true
    pub ordered : List String
    pub valid : validate_uuids order ≡ ok ordered
    pub same_set : tuple_eq (sort text_ltb ordered) (sort text_ltb expected) ≡ true
    pub visible : cuda ≡ some (join_comma ordered)
    pub opens : (path : String) → Within path (paths_of selected) → Opens w path
    pub denies :
        (path : String)
        → Within path (paths_of mapping)
        → contains path (paths_of selected) ≡ false
        → Denies w path

  -- A verified isolation is one: the selected mapping is the reviewed one, CUDA_VISIBLE_DEVICES lists
  -- the Worker's UUIDs in their order, each selected device has opened, and each other device of the
  -- mapping was denied.
  pub verify_isolated_gpu_access-IsIsolated :
      (mapping : List (String × String)) (expected : List String)
      (reviewed : List (String × String)) (order : List String) (cuda : Option String) (w : W)
      → (verify_isolated_gpu_access devices mapping expected reviewed order cuda w).0 ≡ ok tt
      → IsIsolated mapping expected reviewed order cuda w
  unfolding verify_isolated_gpu_access reviewed_selection
  verify_isolated_gpu_access-IsIsolated mapping expected reviewed order cuda w =
      checked_cases (λ r. r.0 ≡ ok tt → IsIsolated mapping expected reviewed order cuda w) w
        (reviewed_selection mapping expected reviewed order cuda) _ (λ e h. absurd (cc h))
        λ selected passed h.
          let (selected', chosen, h1) = >>=-eq-ok _ _ passed in
          let (unchanged, h2) = require->> _ _ _ h1 in
          let (ordered, valid, h3) = >>=-eq-ok _ _ h2 in
          let (distinct, h4) = refuse->> _ _ _ h3 in
          let (agrees, h5) = require->> _ _ _ h4 in
          let (visible, h6) = require->> _ _ (ok selected') h5 in
          let same : selected' ≡ selected = ok_inj h6 in
          let paths = paths_of selected in
          let others = set_minus (paths_of mapping) paths in
          let s =
            probe_devices-Separates (sort text_ltb (once_each paths))
              (sort text_ltb (once_each others)) w h in
          record {
            selected = selected;
            chosen = rw (sym same) chosen;
            unchanged = rw (sym same) unchanged;
            ordered = ordered;
            valid = valid;
            same_set = agrees;
            visible = (option_eq_iff cuda (join_comma ordered)).0 visible;
            opens = λ path p.
                s.opens path
                  (Within-sort text_ltb path (once_each paths) (Within-once_each path paths p));
            denies = λ path p new. s.denies path (
                Within-sort text_ltb path (once_each others) (
                  Within-once_each path others
                    (Within-set_minus path (paths_of mapping) paths p new)));
          }
