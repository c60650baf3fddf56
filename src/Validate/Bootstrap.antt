-- ===== src/Validate/Bootstrap.antt =====
-- The check of the software bootstrap and the nodes that are made from the same configuration.
-- A text equals itself; a list or a dict is not compared.
use cluster_genesis.Base.{
  ok-injective, ℕ, zero, suc, ◌+◌, ◌≡◌, refl, sym, ap, ◌∙◌, subst, inl, inr, true, ◌||◌, none, List,
  [], ◌∷◌, ◌++◌, nat_eq, option_eq, Bool-cases, length, All, Text, codes, text_beq_iff, text_eq,
  Result, ◌>>=◌, >>=-eq-ok, each, ok,
}
use cluster_genesis.Base.Value.{Value, show_nat, port_eq, str}
use cluster_genesis.Items.Named.{inventory_hosts, create_templates-Appends}
use cluster_genesis.Config.Members.{each-length, of_values-to_values}
use cluster_genesis.Config.Templates.Lists.{
  get_ntmpl_cnt, yield_ntmpl_ind, get_ntmpl_label, yield_ntmpl_label,
}
use cluster_genesis.Items.Build.{create_nodes}
use cluster_genesis.Items.Create.{create_templates}
use cluster_genesis.Items.Pools.{gen_interface_ip_lists}
use cluster_genesis.Items.Filled.{lift-runs, bind-runs}
use cluster_genesis.Inventory.Columns.{Columns, no_nodes}
use cluster_genesis.Reserve.Manager.{Netaddr}
use cluster_genesis.Config.Access.{
  iterate, as_text, len, path, member_value, get_members, range_from, range,
}
use cluster_genesis.Config.Templates.Ipmi.{yield_ntmpl_phyintf_ipmi_pt_ind}
use cluster_genesis.Config.Templates.Settings.{get_ntmpl_roles_cnt, get_ntmpl_roles, same_scalar}
use cluster_genesis.Config.Switches.Mlag.{in_values}
use cluster_genesis.Items.PortRows.{host_name}
use cluster_genesis.Validate.Hosts.{
  port_hosts, prefix_or_label, template_hosts, with_roles, add_hosts, get_valid_hosts,
}

abbrev pub Comparable : Value → Type 0
Comparable v = same_scalar v v ≡ true

abbrev pub Known : List Value → Value → Type 0
Known hosts v = in_values v hosts ≡ true

All-imp : (P Q : Value → Type 0) (vs : List Value) → ((v : Value) → P v → Q v) → All P vs → All Q vs
All-imp P Q [] f h = tt
All-imp P Q (v ∷ vs) f h = (f v h.0, All-imp P Q vs f h.1)

All-append : (P : Value → Type 0) (vs ws : List Value) → All P vs → All P ws → All P (vs ++ ws)
All-append P [] ws g h = h
All-append P (v ∷ vs) ws g h = (g.0, All-append P vs ws g.1 h)

in_values-left :
    (v : Value) (xs ys : List Value) → in_values v xs ≡ true → in_values v (xs ++ ys) ≡ true
unfolding in_values
in_values-left v [] ys h = cc
in_values-left v (x ∷ xs) ys h = elim (Bool-cases (same_scalar v x)) [
  | inl e ↦ rw e refl
  | inr e ↦ rw e (in_values-left v xs ys (sym (ap (λ b. b || in_values v xs) e) ∙ h))
]

in_values-right :
    (v : Value) (xs ys : List Value) → in_values v ys ≡ true → in_values v (xs ++ ys) ≡ true
unfolding in_values
in_values-right v [] ys h = h
in_values-right v (x ∷ xs) ys h = elim (Bool-cases (same_scalar v x)) [
  | inl e ↦ rw e refl
  | inr e ↦ rw e (in_values-right v xs ys h)
]

in_values-own : (vs : List Value) → All Comparable vs → All (Known vs) vs
unfolding in_values
in_values-own [] h = tt
in_values-own (v ∷ vs) h = (
  rw h.0 refl,
  All-imp (Known vs) (Known (v ∷ vs)) vs (λ w. in_values-right w (v ∷ []) vs)
      (in_values-own vs h.1),
)

host_name-Comparable : (hostname v : Value) (k : ℕ) → host_name hostname k ≡ ok v → Comparable v
unfolding host_name same_scalar
host_name-Comparable hostname v k h =
    let (prefix, _, e) = >>=-eq-ok (as_text hostname) _ h in
    let name = prefix ++ (codes "-" ++ show_nat (k + 1)) in
    subst Comparable (ok-injective e) ((text_beq_iff name name).1 refl)

port_hosts-Comparable :
    (hostname : Value) (k : ℕ) (ports : List ℕ) (vs : List Value)
    → port_hosts hostname k ports ≡ ok vs
    → All Comparable vs
unfolding port_hosts
port_hosts-Comparable hostname k [] vs h = subst (All Comparable) (ok-injective h) tt
port_hosts-Comparable hostname k (port ∷ ports) vs h =
    let (v, e, h1) = >>=-eq-ok (host_name hostname k) _ h in
    let (ws, e', h2) = >>=-eq-ok (port_hosts hostname (k + 1) ports) _ h1 in
    subst (All Comparable) (ok-injective h2)
      (host_name-Comparable hostname v k e, port_hosts-Comparable hostname (k + 1) ports ws e')

template_hosts-Comparable :
    (cfg : Value) (i : ℕ) (vs : List Value) → template_hosts cfg i ≡ ok vs → All Comparable vs
unfolding template_hosts
template_hosts-Comparable cfg i vs h =
    let (prefix, _, h1) = >>=-eq-ok (prefix_or_label cfg i) _ h in
    let (ports, _, h2) = >>=-eq-ok (yield_ntmpl_phyintf_ipmi_pt_ind cfg i 0) _ h1 in
    port_hosts-Comparable prefix 0 ports vs h2

with_roles-keeps :
    (cfg : Value) (i : ℕ) (valid hosts : List Value) (v : Value)
    → with_roles cfg i valid ≡ ok hosts
    → Known valid v
    → Known hosts v
unfolding with_roles
with_roles-keeps cfg i valid hosts v h known =
    let (n, _, h1) = >>=-eq-ok (get_ntmpl_roles_cnt cfg i) _ h in of_count n h1
  where
    of_count :
        (n : ℕ)
        → elim n [
          | zero ↦ ok valid
          | suc m ↦ do
            found ← get_ntmpl_roles cfg i none
            roles ← iterate found
            ok (valid ++ roles)
        ]
          ≡ ok hosts
        → Known hosts v
    of_count zero k = subst (λ l. Known l v) (ok-injective k) known
    of_count (suc m) k =
        let (found, _, k1) = >>=-eq-ok (get_ntmpl_roles cfg i none) _ k in
        let (roles, _, k2) = >>=-eq-ok (iterate found) _ k1 in
        subst (λ l. Known l v) (ok-injective k2) (in_values-left v valid roles known)

add_hosts-keeps :
    (cfg : Value) (i : ℕ) (valid labels hosts : List Value) (v : Value)
    → add_hosts cfg i valid labels ≡ ok hosts
    → Known valid v
    → Known hosts v
unfolding add_hosts
add_hosts-keeps cfg i valid [] hosts v h known = subst (λ l. Known l v) (ok-injective h) known
add_hosts-keeps cfg i valid (label ∷ labels) hosts v h known =
    let (names, _, h1) = >>=-eq-ok (template_hosts cfg i) _ h in
    let (valid', r, h2) = >>=-eq-ok (with_roles cfg i (valid ++ label ∷ names)) _ h1 in
    add_hosts-keeps cfg (i + 1) valid' labels hosts v h2 (
      with_roles-keeps cfg i (valid ++ label ∷ names) valid' v r
        (in_values-left v valid (label ∷ names) known))

add_hosts-Known :
    (cfg : Value) (i : ℕ) (valid labels hosts names : List Value)
    → add_hosts cfg i valid labels ≡ ok hosts
    → inventory_hosts cfg (range_from (length labels) i) ≡ ok names
    → All (Known hosts) names
unfolding add_hosts inventory_hosts
add_hosts-Known cfg i valid [] hosts names h k = subst (All (Known hosts)) (ok-injective k) tt
add_hosts-Known cfg i valid (label ∷ labels) hosts names h k =
    let (own, e, h1) = >>=-eq-ok (template_hosts cfg i) _ h in
    let (valid', r, h2) = >>=-eq-ok (with_roles cfg i (valid ++ label ∷ own)) _ h1 in
    let (own', e', k1) = >>=-eq-ok (template_hosts cfg i) _ k in
    let (rest, e'', k2) =
      >>=-eq-ok (inventory_hosts cfg (range_from (length labels) (i + 1))) _ k1 in
    subst (All (Known hosts)) (ap (λ l. l ++ rest) (ok-injective (sym e ∙ e')) ∙ ok-injective k2) (
      All-append (Known hosts) own rest
        (All-imp (Known own) (Known hosts) own
          (λ v known. add_hosts-keeps cfg (i + 1) valid' labels hosts v h2 (
            with_roles-keeps cfg i (valid ++ label ∷ own) valid' v r
              (in_values-right v valid (label ∷ own) (in_values-right v (label ∷ []) own known))))
          (in_values-own own (template_hosts-Comparable cfg i own e)))
        (add_hosts-Known cfg (i + 1) valid' labels hosts rest h2 e''))

-- As many labels of templates as templates.
labels-count :
    (cfg : Value) (labels : List Value)
    → yield_ntmpl_label cfg ≡ ok labels
    → yield_ntmpl_ind cfg ≡ ok (range (length labels))
unfolding yield_ntmpl_label yield_ntmpl_ind get_ntmpl_label get_ntmpl_cnt get_members len iterate
labels-count cfg labels h =
    let (found, l, h1) = >>=-eq-ok (get_ntmpl_label cfg none) _ h in
    let (members, p, l1) = >>=-eq-ok (path cfg (codes "node_templates" ∷ [])) _ l in
    let (ms, it, l2) = >>=-eq-ok (iterate members) _ l1 in
    let (vs, ea, l3) = >>=-eq-ok (each (member_value (codes "label")) ms) _ l2 in
    let same : vs ≡ labels =
      sym (of_values-to_values vs) ∙ ok-injective (ap (λ v. iterate v) (ok-injective l3) ∙ h1) in
    rw p (
      rw it (
        ap (λ n. ok (range n))
          (sym (each-length (member_value (codes "label")) ms vs ea) ∙ ap length same)))

module _ (net : Netaddr) (ip_range : Text → Text → Result (List net.Ip))
    (ip_address : Value → Result net.Ip) where
  -- If `create_nodes` returns and, on the same configuration, the check of the software bootstrap
  -- has its list of valid hosts, then the host names of the inventory's nodes are, for each node
  -- template in order, the prefix of the template, or its label, with the numbers from one to the
  -- number of ports, as the check has them too; and each of them is in the list of valid hosts.
  pub create_nodes-Known :
      (cfg : Value) (c : Columns) (hosts : List Value)
      → create_nodes net ip_range ip_address cfg no_nodes ≡ (ok tt, c)
      → get_valid_hosts cfg ≡ ok hosts
      → (names : List Value) × ((yield_ntmpl_ind cfg >>= inventory_hosts cfg) ≡ ok names)
        × (c.hostname ≡ names)
        × All (Known hosts) names
  unfolding create_nodes get_valid_hosts
  create_nodes-Known cfg c hosts h k =
      let (pools, _, h1) =
        lift-runs (gen_interface_ip_lists net ip_range ip_address cfg) _ no_nodes h in
      let (inds, e, h2) = lift-runs (yield_ntmpl_ind cfg) _ no_nodes h1 in
      let (left, c', run, h3) = bind-runs (create_templates net cfg inds pools) _ no_nodes h2 in
      let (names, n, a) = create_templates-Appends net cfg inds pools left no_nodes c' run in
      let (labels, l, k1) = >>=-eq-ok (yield_ntmpl_label cfg) _ k in
      let counted = ok-injective (sym e ∙ labels-count cfg labels l) in
      (
        names,
        ap (λ r. r >>= inventory_hosts cfg) e ∙ n,
        sym (ap (λ p. p.1.hostname) h3) ∙ a,
        add_hosts-Known cfg 0 (str (codes "all") ∷ []) labels hosts names k1
            (ap (inventory_hosts cfg) (sym counted) ∙ n),
      )
