-- ===== src/GpuMapping/Nodes/Laws.antt =====
-- What a validated mapping proves: each visible GPU has a device node of its own.
use astrum_weaver.Prelude.{
  ℕ, String, ◌≡◌, refl, sym, true, false, Option, none, some, List, [], ◌∷◌, ◌==◌, ℤ, pos, negsuc,
  Within, All, inl, inr, arith, eq_iff, nat_eq_iff, Bool-cases, subst, ap, and-eq-true,
}
use astrum_weaver.Text.Order.{sort, pair_ltb, sort-Within, Within-sort}
use astrum_weaver.Sets.{contains}
use astrum_weaver.Dict.{Dict, get, put, values, IsDict}
use astrum_weaver.Dict.Laws.{get-put, IsDict-put}
use astrum_weaver.GpuMapping.Nodes.{
  Minor, NodeStat, checked_minor, node_name, device_path, check_node, is_major, rows_of, device_of,
  map_devices, validate_mapping,
}
use astrum_weaver.Result.{ok, >>=-eq-ok, >>-eq-ok, require->>, refuse->>, require-ok}

get-Within : (d : Dict String) (k v : String) → get k d ≡ some v → Within (k, v) d
unfolding get
get-Within [] k v h = absurd (cc)
get-Within ((j, w) ∷ d) k v h = elim (Bool-cases (j == k)) [
  | inl e ↦
      inl (
        let a : k ≡ j = sym ((eq_iff j k).0 e) in let b : w ≡ v = ground (arith, e, h) in cc (a, b))
  | inr e ↦ inr (get-Within d k v (rw e at h))
]

Within-get : (d : Dict String) (k v : String) → IsDict d → Within (k, v) d → get k d ≡ some v
unfolding get
Within-get [] k v i h = elim h [ ]
Within-get ((j, w) ∷ d) k v i h = elim h [
  | inl e ↦
      let same : (k, v) ≡ (j, w) = e in
      ground (
        arith,
        ap (λ (x : String × String). x.0) same,
        ap (λ (x : String × String). x.1) same,
        eq_iff j k,
      )
  | inr r ↦
      let rest = Within-get d k v i.1 r in
      elim (Bool-cases (j == k)) [
        | inl e ↦ absurd (
            let same : j ≡ k = (eq_iff j k).0 e in
            let gone : get k d ≡ none = subst (λ x. get x d ≡ none) same i.0 in cc (gone, rest))
        | inr e ↦ rw e rest
      ]
]

contains-values : (d : Dict String) (k v : String) → get k d ≡ some v → contains v (values d) ≡ true
unfolding get values contains
contains-values [] k v h = absurd (cc)
contains-values ((j, w) ∷ d) k v h = ground (arith, eq_iff w v, contains-values d k v)

module _ (device_stat : String → Option NodeStat) (nvidia_major : ℤ)
    (rows : Dict (List Minor)) where
  -- The path is that of the GPU's one minor, and the node of that minor is the driver's.
  pub record IsDevice (uuid path : String) : Type 0 where
    pub minor : ℕ
    pub node : NodeStat
    pub listed : checked_minor (rows_of (get uuid rows)) ≡ ok minor
    pub named : path ≡ device_path minor
    pub found : device_stat (node_name minor) ≡ some node
    pub is_device : node.is_character_device ≡ true
    pub major_agrees : nvidia_major ≡ pos node.major
    pub minor_agrees : node.minor ≡ minor

  record IsNode (found : Option NodeStat) (minor : ℕ) : Type 0 where
    node : NodeStat
    known : found ≡ some node
    is_device : node.is_character_device ≡ true
    major_agrees : nvidia_major ≡ pos node.major
    minor_agrees : node.minor ≡ minor

  major-eq : (n : ℤ) (major : ℕ) → is_major n major ≡ true → n ≡ pos major
  unfolding is_major
  major-eq (pos n) major h = ground (arith, h)
  major-eq (negsuc n) major h = absurd (cc)

  check_node-IsNode :
      (minor : ℕ) (o : Option NodeStat) → check_node nvidia_major minor o ≡ ok tt → IsNode o minor
  unfolding check_node
  check_node-IsNode minor none h = absurd (cc)
  check_node-IsNode minor (some node) h =
      let (is_device, h') = require->> _ _ _ h in
      let agrees = and-eq-true _ _ (require-ok _ _ tt h') in
      record {
        node = node;
        known = refl;
        is_device = is_device;
        major_agrees = major-eq nvidia_major node.major agrees.0;
        minor_agrees = (nat_eq_iff node.minor minor).0 agrees.1;
      }

  device_of-IsDevice :
      (uuid : String) (mapping : Dict String) (path : String)
      → device_of device_stat nvidia_major rows uuid mapping ≡ ok path
      → IsDevice uuid path × (contains path (values mapping) ≡ false)
  unfolding device_of
  device_of-IsDevice uuid mapping path h =
      let (minor, listed, h1) = >>=-eq-ok _ _ h in
      let (shaped, h2) = require->> _ _ _ h1 in
      let (checked, h3) = >>-eq-ok _ _ h2 in
      let (fresh, h4) = refuse->> _ _ _ h3 in
      let same : path ≡ device_path minor = cc (h4) in
      let n = check_node-IsNode minor (device_stat (node_name minor)) checked in
      (
        record {
          minor = minor;
          node = n.node;
          listed = listed;
          named = same;
          found = n.known;
          is_device = n.is_device;
          major_agrees = n.major_agrees;
          minor_agrees = n.minor_agrees;
        },
        rw same fresh,
      )

  -- The mapping while it is built: its keys differ, each entry is a device, and none shares a path.
  record IsBuilt (visible : List String) (m : Dict String) : Type 0 where
    keys : IsDict m
    each : (uuid path : String) → get uuid m ≡ some path → Within uuid visible × IsDevice uuid path
    apart : (u v path : String) → get u m ≡ some path → get v m ≡ some path → u ≡ v

  put-IsBuilt :
      (visible : List String) (m : Dict String) (uuid path : String)
      → IsBuilt visible m
      → Within uuid visible
      → IsDevice uuid path
      → contains path (values m) ≡ false
      → IsBuilt visible (put uuid path m)
  put-IsBuilt visible m uuid path b seen device fresh = record {
    keys = IsDict-put m uuid path b.keys;
    each = λ k q h. elim (Bool-cases (uuid == k)) [
      | inl e ↦
          (let same : uuid ≡ k = (eq_iff uuid k).0 e in
            let here : path ≡ q = ground (arith, get-put uuid k path m, e, h) in
            subst (λ x. Within x visible × IsDevice x q) same
              (subst (λ p. Within uuid visible × IsDevice uuid p) here (seen, device)))
      | inr e ↦ b.each k q (ground (arith, get-put uuid k path m, e, h))
    ];
    apart = λ u v q h k. ground (
      arith,
      get-put uuid u path m,
      get-put uuid v path m,
      h,
      k,
      eq_iff uuid u,
      eq_iff uuid v,
      b.apart u v q,
      contains-values m u q,
      contains-values m v q,
    );
  }

  IsBuilt-nil : (visible : List String) → IsBuilt visible []
  unfolding get
  IsBuilt-nil visible = record {
    keys = tt;
    each = λ uuid path p. absurd (cc (p));
    apart = λ u v path p q. absurd (cc (p));
  }

  record IsMapped (visible uuids : List String) (m m' : Dict String) : Type 0 where
    built : IsBuilt visible m'
    kept :
        (uuid : String) (path : String)
        → get uuid m ≡ some path
        → (q : String) × (get uuid m' ≡ some q)
    complete : (uuid : String) → Within uuid uuids → (path : String) × (get uuid m' ≡ some path)

  map_devices-IsMapped :
      (visible uuids : List String) (m m' : Dict String)
      → IsBuilt visible m
      → All (λ uuid. Within uuid visible) uuids
      → map_devices device_stat nvidia_major rows uuids m ≡ ok m'
      → IsMapped visible uuids m m'
  unfolding map_devices
  map_devices-IsMapped visible [] m m' b seen h =
      let same : m ≡ m' = cc (h) in
      subst (λ d. IsMapped visible [] m d) same
        (record { built = b; kept = λ uuid path p. (path, p); complete = λ uuid p. elim p [ ] })
  map_devices-IsMapped visible (uuid ∷ uuids) m m' b seen h =
      let (path, found, h') = >>=-eq-ok _ _ h in
      let (device, fresh) = device_of-IsDevice uuid m path found in
      let b' = put-IsBuilt visible m uuid path b seen.0 device fresh in
      let rest = map_devices-IsMapped visible uuids (put uuid path m) m' b' seen.1 h' in
      record {
        built = rest.built;
        kept = λ k q p. elim (Bool-cases (uuid == k)) [
          | inl e ↦ rest.kept k path (rw (get-put uuid k path m, e))
          | inr e ↦ rest.kept k q (rw (get-put uuid k path m, e) p)
        ];
        complete = λ k p. elim p [
          | inl same ↦ rest.kept k path (ground (arith, get-put uuid k path m, eq_iff uuid k, same))
          | inr later ↦ rest.complete k later
        ];
      }

  -- Exactly the visible GPUs are mapped, each to a device, and no two to the same one.
  pub record MapsDevices (visible : List String) (mapping : List (String × String)) : Type 0 where
    pub each :
        (uuid path : String)
        → Within (uuid, path) mapping
        → Within uuid visible × IsDevice uuid path
    pub complete :
        (uuid : String) → Within uuid visible → (path : String) × Within (uuid, path) mapping
    pub apart : (u v path : String) → Within (u, path) mapping → Within (v, path) mapping → u ≡ v

  All-Within :
      (xs ys : List String) → ((x : String) → Within x xs → Within x ys) → All (λ x. Within x ys) xs
  All-Within [] ys f = tt
  All-Within (x ∷ xs) ys f = (f x (inl refl), All-Within xs ys (λ y p. f y (inr p)))

  -- A validated mapping maps exactly the visible GPUs, each to the node of its one listed minor: a
  -- character device with the driver's major number and that minor. No two GPUs share a path.
  pub validate_mapping-MapsDevices :
      (visible : List String) (mapping : List (String × String))
      → validate_mapping device_stat nvidia_major rows visible ≡ ok mapping
      → MapsDevices visible mapping
  unfolding validate_mapping
  validate_mapping-MapsDevices visible mapping h =
      let (m, built, sorted) = >>=-eq-ok _ _ h in
      let r =
        map_devices-IsMapped visible visible [] m (IsBuilt-nil visible)
          (All-Within visible visible (λ x p. p)) built in
      let same : sort pair_ltb m ≡ mapping = cc (sorted) in
      subst (MapsDevices visible) same (record {
        each = λ uuid path p.
            r.built.each uuid path
              (Within-get m uuid path r.built.keys (sort-Within pair_ltb (uuid, path) m p));
        complete = λ uuid p.
            let (path, q) = r.complete uuid p in
            (path, Within-sort pair_ltb (uuid, path) m (get-Within m uuid path q));
        apart = λ u v path p q.
            r.built.apart u v path
              (Within-get m u path r.built.keys (sort-Within pair_ltb (u, path) m p))
              (Within-get m v path r.built.keys (sort-Within pair_ltb (v, path) m q));
      })
