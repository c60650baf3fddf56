-- ===== src/Items/Named.antt =====
-- The host names that `create_nodes` gives to the nodes are those that the check of the software
-- bootstrap has for the node templates.
-- The host names of the node templates, in their order.
use cluster_genesis.Base.{
  ℕ, ◌+◌, ◌≡◌, refl, sym, ap, ◌∙◌, none, some, List, [], ◌∷◌, ◌++◌, append-nil, append_assoc,
  nat_eq, option_eq, text_eq, Result, ◌>>=◌, ok,
}
use cluster_genesis.Base.Value.{Value, port_eq, null, bool, int, str, list, dict}
use cluster_genesis.Config.Access.{as_text}
use cluster_genesis.Config.Templates.Lists.{get_ntmpl_label}
use cluster_genesis.Config.Templates.Ipmi.{
  get_ntmpl_phyintf_ipmi_switch, yield_ntmpl_phyintf_ipmi_pt_ind,
}
use cluster_genesis.Config.Templates.Settings.{
  get_ntmpl_bmc_type, get_ntmpl_os_dict, get_ntmpl_os_hostname_prefix, get_ntmpl_roles,
}
use cluster_genesis.Config.Switches.Labels.{get_sw_mgmt_index_by_label}
use cluster_genesis.Inventory.Columns.{Columns}
use cluster_genesis.Items.{Pools}
use cluster_genesis.Items.Create.{
  add_identity, add_port_lists, add_ports, add_data_lists, add_data, create_node, create_hosts,
  or_label, create_template, create_templates,
}
use cluster_genesis.Items.PortRows.{host_name, rack_of}
use cluster_genesis.Items.Filled.{lift-runs, bind-runs, with_ports, add_ports-runs, add_data-runs}
use cluster_genesis.Items.Complete.{add_interfaces-runs}
use cluster_genesis.Validate.Hosts.{port_hosts, prefix_or_label, template_hosts}
use cluster_genesis.Reserve.Manager.{Netaddr}

unfoldable pub inventory_hosts : Value → List ℕ → Result (List Value)
unfolding template_hosts
inventory_hosts cfg [] = ok []
inventory_hosts cfg (i ∷ inds) = do
  hosts ← template_hosts cfg i
  rest ← inventory_hosts cfg inds
  ok (hosts ++ rest)

abbrev pub Appends : Columns → Columns → List Value → Type 0
Appends c c' vs = c'.hostname ≡ c.hostname ++ vs

Appends-trans :
    (c c1 c' : Columns) (vs ws : List Value)
    → Appends c c1 vs
    → Appends c1 c' ws
    → Appends c c' (vs ++ ws)
Appends-trans c c1 c' vs ws h h' = h' ∙ ap (λ l. l ++ ws) h ∙ append_assoc c.hostname vs ws

add_identity-Appends :
    (cfg : Value) (i : ℕ) (label hostname bmc_type : Value) (k : ℕ) (c c' : Columns)
    → add_identity cfg i label hostname bmc_type k c ≡ (ok tt, c')
    → (v : Value) × (host_name hostname k ≡ ok v) × Appends c c' (v ∷ [])
unfolding add_identity
add_identity-Appends cfg i label hostname bmc_type k c c' h =
    let (host, e, h1) = lift-runs (host_name hostname k) _ _ h in
    let (rack, _, h2) = lift-runs (rack_of cfg i) _ _ h1 in
    let (os, _, h3) = lift-runs (get_ntmpl_os_dict cfg (some i)) _ _ h2 in
    let (roles, _, h4) = lift-runs (get_ntmpl_roles cfg i none) _ _ h3 in
    (host, e, sym (ap (λ p. p.1.hostname) h4))

port_hosts-cons :
    (hostname : Value) (k port : ℕ) (ports : List ℕ) (v : Value) (vs : List Value)
    → host_name hostname k ≡ ok v
    → port_hosts hostname (k + 1) ports ≡ ok vs
    → port_hosts hostname k (port ∷ ports) ≡ ok (v ∷ vs)
unfolding port_hosts
port_hosts-cons hostname k port ports v vs e e' = rw e (rw e' refl)

template_hosts-runs :
    (cfg : Value) (i : ℕ) (hostname : Value) (ports : List ℕ) (vs : List Value)
    → prefix_or_label cfg i ≡ ok hostname
    → yield_ntmpl_phyintf_ipmi_pt_ind cfg i 0 ≡ ok ports
    → port_hosts hostname 0 ports ≡ ok vs
    → template_hosts cfg i ≡ ok vs
unfolding template_hosts
template_hosts-runs cfg i hostname ports vs e e' e'' = rw e (rw e' e'')

inventory_hosts-cons :
    (cfg : Value) (i : ℕ) (inds : List ℕ) (vs ws : List Value)
    → template_hosts cfg i ≡ ok vs
    → inventory_hosts cfg inds ≡ ok ws
    → inventory_hosts cfg (i ∷ inds) ≡ ok (vs ++ ws)
unfolding inventory_hosts
inventory_hosts-cons cfg i inds vs ws e e' = rw e (rw e' refl)

module _ (net : Netaddr) where
  prefix_or_label-runs :
      (cfg : Value) (i : ℕ) (hostname label : Value)
      → get_ntmpl_os_hostname_prefix cfg (some i) ≡ ok hostname
      → get_ntmpl_label cfg (some i) ≡ ok label
      → prefix_or_label cfg i ≡ ok (or_label net hostname label)
  unfolding prefix_or_label
  prefix_or_label-runs cfg i null label e e' = rw e e'
  prefix_or_label-runs cfg i (bool b) label e e' = rw e refl
  prefix_or_label-runs cfg i (int n) label e e' = rw e refl
  prefix_or_label-runs cfg i (str s) label e e' = rw e refl
  prefix_or_label-runs cfg i (list vs) label e e' = rw e refl
  prefix_or_label-runs cfg i (dict fs) label e e' = rw e refl

  create_node-Appends :
      (cfg : Value) (i : ℕ) (label hostname bmc_type : Value) (host port : ℕ)
      (pools pools' : Pools net) (c c' : Columns)
      → create_node net cfg i label hostname bmc_type host port pools c ≡ (ok pools', c')
      → (v : Value) × (host_name hostname host ≡ ok v) × Appends c c' (v ∷ [])
  unfolding create_node with_ports add_port_lists add_data_lists
  create_node-Appends cfg i label hostname bmc_type host port pools pools' c c' h =
      let (_, c1, run1, h1) = bind-runs (add_identity cfg i label hostname bmc_type host) _ c h in
      let (_, c2, run2, h2) = bind-runs (add_ports cfg i port) _ c1 h1 in
      let (_, c3, run3, h3) = bind-runs (add_data cfg i port) _ c2 h2 in
      let (v, e, e1) = add_identity-Appends cfg i label hostname bmc_type host c c1 run1 in
      let (_, rows, _, _, userid, password, e2) = add_ports-runs cfg i port c1 c2 run2 in
      let (_, ds, _, _, e3) = add_data-runs cfg i port c2 c3 run3 in
      let (interfaces, e4) = add_interfaces-runs net cfg i pools pools' c3 c' h3 in
      let names = λ (d : Columns). d.hostname in
      (v, e, sym (ap names e2 ∙ ap names e3 ∙ ap names e4) ∙ e1)

  create_hosts-Appends :
      (cfg : Value) (i : ℕ) (label hostname bmc_type : Value) (host : ℕ) (ports : List ℕ)
      (pools pools' : Pools net) (c c' : Columns)
      → create_hosts net cfg i label hostname bmc_type host ports pools c ≡ (ok pools', c')
      → (vs : List Value) × (port_hosts hostname host ports ≡ ok vs) × Appends c c' vs
  unfolding create_hosts port_hosts
  create_hosts-Appends cfg i label hostname bmc_type host [] pools pools' c c' h =
      ([], refl, sym (ap (λ p. p.1.hostname) h) ∙ sym (append-nil c.hostname))
  create_hosts-Appends cfg i label hostname bmc_type host (port ∷ ports) pools pools' c c' h =
      let (pools1, c1, run, h1) =
        bind-runs (create_node net cfg i label hostname bmc_type host port pools) _ c h in
      let (v, e, a) =
        create_node-Appends cfg i label hostname bmc_type host port pools pools1 c c1 run in
      let (vs, e', a') =
        create_hosts-Appends cfg i label hostname bmc_type (host + 1) ports pools1 pools' c1 c'
          h1 in
      (
        v ∷ vs,
        port_hosts-cons hostname host port ports v vs e e',
        Appends-trans c c1 c' (v ∷ []) vs a a',
      )

  create_template-Appends :
      (cfg : Value) (i : ℕ) (pools pools' : Pools net) (c c' : Columns)
      → create_template net cfg i pools c ≡ (ok pools', c')
      → (vs : List Value) × (template_hosts cfg i ≡ ok vs) × Appends c c' vs
  unfolding create_template
  create_template-Appends cfg i pools pools' c c' h =
      let (label, l, h1) = lift-runs (get_ntmpl_label cfg (some i)) _ c h in
      let (hostname, p, h2) = lift-runs (get_ntmpl_os_hostname_prefix cfg (some i)) _ c h1 in
      let (bmc_type, _, h3) = lift-runs (get_ntmpl_bmc_type cfg (some i)) _ c h2 in
      let (switch, _, h4) = lift-runs (get_ntmpl_phyintf_ipmi_switch cfg i (some 0)) _ c h3 in
      let (switch_label, _, h5) = lift-runs (as_text switch) _ c h4 in
      let (_, _, h6) = lift-runs (get_sw_mgmt_index_by_label cfg switch_label) _ c h5 in
      let (ports, e, h7) = lift-runs (yield_ntmpl_phyintf_ipmi_pt_ind cfg i 0) _ c h6 in
      let name = or_label net hostname label in
      let (vs, e', a) =
        create_hosts-Appends cfg i label name bmc_type 0 ports pools pools' c c' h7 in
      (
        vs,
        template_hosts-runs cfg i name ports vs (prefix_or_label-runs cfg i hostname label p l) e
            e',
        a,
      )

  pub create_templates-Appends :
      (cfg : Value) (inds : List ℕ) (pools pools' : Pools net) (c c' : Columns)
      → create_templates net cfg inds pools c ≡ (ok pools', c')
      → (vs : List Value) × (inventory_hosts cfg inds ≡ ok vs) × Appends c c' vs
  unfolding create_templates inventory_hosts
  create_templates-Appends cfg [] pools pools' c c' h =
      ([], refl, sym (ap (λ p. p.1.hostname) h) ∙ sym (append-nil c.hostname))
  create_templates-Appends cfg (i ∷ inds) pools pools' c c' h =
      let (pools1, c1, run, h1) = bind-runs (create_template net cfg i pools) _ c h in
      let (vs, e, a) = create_template-Appends cfg i pools pools1 c c1 run in
      let (ws, e', a') = create_templates-Appends cfg inds pools1 pools' c1 c' h1 in
      (vs ++ ws, inventory_hosts-cons cfg i inds vs ws e e', Appends-trans c c1 c' vs ws a a')
