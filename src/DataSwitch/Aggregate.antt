-- ===== src/DataSwitch/Aggregate.antt =====
-- The aggregation of the VLANs by switch and port in scripts/python/configure_data_switches.py
-- against a description of it.
use cluster_genesis.Base.{
  ℕ, ◌≡◌, refl, sym, ap, ◌∙◌, inl, inr, Bool, true, false, ◌&&◌, Option, none, some, List, [], ◌∷◌,
  ◌++◌, append-nil, append_assoc, if◌then◌else◌, nat_eq, ◌==◌, option_eq, Bool-cases, Option-cases,
  Text, text_beq_iff, text_eq, Dict, lookup, insert, lookup-insert,
}
use cluster_genesis.Base.Value.{Port, port_str, port_eq}
use cluster_genesis.DataSwitch.{VlanTree, PortTree}
use cluster_genesis.DataSwitch.PortVlans.{
  subtree, add_port, get_port_vlans, add_ports, add_vlans, add_switches, by_port,
}

-- More VLANs behind those of a port, which has an entry only if it has a VLAN.
unfoldable extend : Option (List ℕ) → List ℕ → Option (List ℕ)
extend o [] = o
extend none (v ∷ vs) = some (v ∷ vs)
extend (some us) (v ∷ vs) = some (us ++ v ∷ vs)

-- The VLAN once for each of the ports that is printed as `p`.
unfoldable pub port_vlans_of : Text → ℕ → List Port → List ℕ
port_vlans_of p v [] = []
port_vlans_of p v (port ∷ ports) =
    (if port_str port == p then v ∷ [] else []) ++ port_vlans_of p v ports

unfoldable pub switch_vlans_of : Text → Dict ℕ (List Port) → List ℕ
unfolding port_vlans_of
switch_vlans_of p [] = []
switch_vlans_of p ((v, ports) ∷ vs) = port_vlans_of p v ports ++ switch_vlans_of p vs

-- All VLANs that a tree lists for a port of a switch, in the order of the tree.
unfoldable pub vlans_of : Text → Text → VlanTree → List ℕ
unfolding switch_vlans_of
vlans_of sw p [] = []
vlans_of sw p ((sw', vs) ∷ tree) =
    (if sw' == sw then switch_vlans_of p vs else []) ++ vlans_of sw p tree

if_join :
    (b c : Bool) (us vs : List ℕ)
    → (if b && c then us else []) ++ (if b then vs else [])
      ≡ (if b then (if c then us else []) ++ vs else [])
if_join true c us vs = refl
if_join false c us vs = refl

extend-extend :
    (o : Option (List ℕ)) (us vs : List ℕ) → extend (extend o us) vs ≡ extend o (us ++ vs)
unfolding extend
extend-extend o [] vs = refl
extend-extend none (u ∷ us) [] = ap some (sym (append-nil (u ∷ us)))
extend-extend none (u ∷ us) (v ∷ vs) = refl
extend-extend (some ws) (u ∷ us) [] = ap (λ l. some (ws ++ l)) (sym (append-nil (u ∷ us)))
extend-extend (some ws) (u ∷ us) (v ∷ vs) = ap some (append_assoc ws (u ∷ us) (v ∷ vs))

pub subtree-insert :
    {K V : Type 0} (k j : Text) (t : Dict K V) (tree : Dict Text (Dict K V))
    → subtree j (insert k t tree) ≡ (if k == j then t else subtree j tree)
unfolding subtree
subtree-insert k j t tree = elim (Bool-cases (k == j)) [
  | inl e ↦ rw (lookup-insert k j t tree, subtree) (rw e refl)
  | inr e ↦ rw (lookup-insert k j t tree, subtree) (rw e refl)
]

-- The VLANs of the port behind the step.
with_vlan : ℕ → Option (List ℕ) → List ℕ
with_vlan v none = v ∷ []
with_vlan v (some us) = us ++ v ∷ []

some-with_vlan : (v : ℕ) (o : Option (List ℕ)) → some (with_vlan v o) ≡ extend o (v ∷ [])
unfolding with_vlan extend
some-with_vlan v none = refl
some-with_vlan v (some us) = refl

add_port-insert :
    (sw : Text) (v : ℕ) (port : Port) (tree : PortTree)
    → add_port sw v port tree
      ≡ insert sw
          (insert
            (port_str port)
            (with_vlan v (lookup (port_str port) (subtree sw tree)))
            (subtree sw tree))
          tree
unfolding add_port with_vlan
add_port-insert sw v port tree = elim (Option-cases (lookup (port_str port) (subtree sw tree))) [
  | inl e ↦ rw (e, add_port) refl
  | inr (us, e) ↦ rw (e, add_port) refl
]

lookup_same :
    (q p : Text) (v : ℕ) (d : Dict Text (List ℕ))
    → lookup p (insert q (with_vlan v (lookup q d)) d)
      ≡ extend (lookup p d) (if q == p then v ∷ [] else [])
unfolding extend
lookup_same q p v d = elim (Bool-cases (q == p)) [
  | inl e ↦
      lookup-insert q p (with_vlan v (lookup q d)) d
      ∙ rw e (
          some-with_vlan v (lookup q d)
          ∙ ap (λ t. extend (lookup t d) (v ∷ [])) ((text_beq_iff q p).0 e))
  | inr e ↦ lookup-insert q p (with_vlan v (lookup q d)) d ∙ rw e refl
]

-- One step: the VLAN comes behind those of its own port.
get-add_port :
    (sw sw' p : Text) (v : ℕ) (port : Port) (tree : PortTree)
    → get_port_vlans sw p (add_port sw' v port tree)
      ≡ extend (get_port_vlans sw p tree) (if sw' == sw && port_str port == p then v ∷ [] else [])
unfolding get_port_vlans extend
get-add_port sw sw' p v port tree =
    let q = port_str port in
    let d = subtree sw' tree in
    let inner = insert q (with_vlan v (lookup q d)) d in
    let whole : lookup p (subtree sw (add_port sw' v port tree))
        ≡ lookup p (if sw' == sw then inner else subtree sw tree) =
      ap (λ t. lookup p (subtree sw t)) (add_port-insert sw' v port tree)
      ∙ ap (lookup p) (subtree-insert sw' sw inner tree) in
    elim (Bool-cases (sw' == sw)) [
      | inl e ↦
          whole
          ∙ rw e (
              lookup_same q p v d
              ∙ ap (λ s. extend (lookup p (subtree s tree)) (if q == p then v ∷ [] else []))
                  ((text_beq_iff sw' sw).0 e))
      | inr e ↦ whole ∙ rw e refl
    ]

get-add_ports :
    (sw sw' p : Text) (v : ℕ) (ports : List Port) (tree : PortTree)
    → get_port_vlans sw p (add_ports sw' v ports tree)
      ≡ extend (get_port_vlans sw p tree) (if sw' == sw then port_vlans_of p v ports else [])
unfolding add_ports port_vlans_of extend
get-add_ports sw sw' p v [] tree = elim (Bool-cases (sw' == sw)) [
  | inl e ↦ rw e refl
  | inr e ↦ rw e refl
]
get-add_ports sw sw' p v (port ∷ ports) tree =
    get-add_ports sw sw' p v ports (add_port sw' v port tree)
    ∙ ap (λ o. extend o (if sw' == sw then port_vlans_of p v ports else []))
        (get-add_port sw sw' p v port tree)
    ∙ extend-extend (get_port_vlans sw p tree) _ _
    ∙ ap (extend (get_port_vlans sw p tree))
        (if_join (sw' == sw) (port_str port == p) (v ∷ []) (port_vlans_of p v ports))

join_if :
    (b : Bool) (us vs : List ℕ)
    → (if b then us else []) ++ (if b then vs else []) ≡ (if b then us ++ vs else [])
join_if true us vs = refl
join_if false us vs = refl

get-add_vlans :
    (sw sw' p : Text) (vs : Dict ℕ (List Port)) (tree : PortTree)
    → get_port_vlans sw p (add_vlans sw' vs tree)
      ≡ extend (get_port_vlans sw p tree) (if sw' == sw then switch_vlans_of p vs else [])
unfolding add_vlans switch_vlans_of extend
get-add_vlans sw sw' p [] tree = elim (Bool-cases (sw' == sw)) [
  | inl e ↦ rw e refl
  | inr e ↦ rw e refl
]
get-add_vlans sw sw' p ((v, ports) ∷ vs) tree =
    get-add_vlans sw sw' p vs (add_ports sw' v ports tree)
    ∙ ap (λ o. extend o (if sw' == sw then switch_vlans_of p vs else []))
        (get-add_ports sw sw' p v ports tree)
    ∙ extend-extend (get_port_vlans sw p tree) _ _
    ∙ ap (extend (get_port_vlans sw p tree))
        (join_if (sw' == sw) (port_vlans_of p v ports) (switch_vlans_of p vs))

get-add_switches :
    (sw p : Text) (vlan_list : VlanTree) (tree : PortTree)
    → get_port_vlans sw p (add_switches vlan_list tree)
      ≡ extend (get_port_vlans sw p tree) (vlans_of sw p vlan_list)
unfolding add_switches vlans_of extend
get-add_switches sw p [] tree = refl
get-add_switches sw p ((sw', vs) ∷ rest) tree =
    get-add_switches sw p rest (add_vlans sw' vs tree)
    ∙ ap (λ o. extend o (vlans_of sw p rest)) (get-add_vlans sw sw' p vs tree)
    ∙ extend-extend (get_port_vlans sw p tree) _ _

-- `None` for no VLANs.
unfoldable pub if_any : List ℕ → Option (List ℕ)
if_any [] = none
if_any (v ∷ vs) = some (v ∷ vs)

extend-none : (vs : List ℕ) → extend none vs ≡ if_any vs
unfolding extend if_any
extend-none [] = refl
extend-none (v ∷ vs) = refl

-- What the aggregated tree has for a port of a switch are the VLANs that the tree by VLAN lists for
-- a port printed like it on that switch, in their order and as often as they stand there; there is
-- no entry exactly if there are none.
pub by_port_correct :
    (sw p : Text) (vlan_list : VlanTree)
    → get_port_vlans sw p (by_port vlan_list) ≡ if_any (vlans_of sw p vlan_list)
unfolding by_port get_port_vlans subtree
by_port_correct sw p vlan_list =
    get-add_switches sw p vlan_list [] ∙ extend-none (vlans_of sw p vlan_list)
