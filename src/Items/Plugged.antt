-- ===== src/Items/Plugged.antt =====
-- Each node of `create_nodes` is wired as the configuration says for its port.
use cluster_genesis.Base.{
  ℕ, ◌+◌, ◌≡◌, refl, sym, ap, subst, some, List, [], ◌∷◌, ◌++◌, map, append-nil, append_assoc,
  nat_eq, option_eq, text_eq, Result, each, ok,
}
use cluster_genesis.Base.Value.{Value, port_eq}
use cluster_genesis.Config.Access.{as_text}
use cluster_genesis.Config.Templates.Lists.{get_ntmpl_label}
use cluster_genesis.Config.Templates.Ipmi.{
  get_ntmpl_phyintf_ipmi_switch, yield_ntmpl_phyintf_ipmi_pt_ind,
}
use cluster_genesis.Config.Templates.Settings.{get_ntmpl_bmc_type, get_ntmpl_os_hostname_prefix}
use cluster_genesis.Config.Switches.Labels.{get_sw_mgmt_index_by_label}
use cluster_genesis.Inventory.Columns.{Columns}
use cluster_genesis.Items.{Pools}
use cluster_genesis.Items.Create.{
  add_port_lists, add_data_lists, create_node, create_hosts, or_label, create_template,
  create_templates,
}
use cluster_genesis.Items.Filled.{lift-runs, bind-runs, with_identity, with_ports}
use cluster_genesis.Items.Complete.{NodeRun, create_node-runs}
use cluster_genesis.Items.Wired.{
  Wiring, Wired, wiring, template_wirings, all_wirings, map-append-one, wiring_of, wiring-runs,
}
use cluster_genesis.Reserve.Manager.{Netaddr}

appended-map :
    {A B : Type 0} (f : A → B) (xs : List A) (x : A) (ys : List B) (y : B)
    → ys ≡ map f xs
    → y ≡ f x
    → ys ++ y ∷ [] ≡ map f (xs ++ x ∷ [])
appended-map f xs x ys y h e = rw h (rw e (sym (map-append-one f xs x)))

each-cons :
    {A B : Type 0} (f : A → Result B) (x : A) (xs : List A) (y : B) (ys : List B)
    → f x ≡ ok y
    → each f xs ≡ ok ys
    → each f (x ∷ xs) ≡ ok (y ∷ ys)
each-cons f x xs y ys e e' = rw e (rw e' refl)

template_wirings-runs :
    (cfg : Value) (i : ℕ) (ports : List ℕ) (ws : List Wiring)
    → yield_ntmpl_phyintf_ipmi_pt_ind cfg i 0 ≡ ok ports
    → each (wiring cfg i) ports ≡ ok ws
    → template_wirings cfg i ≡ ok ws
unfolding template_wirings
template_wirings-runs cfg i ports ws e e' = rw e e'

all_wirings-cons :
    (cfg : Value) (i : ℕ) (inds : List ℕ) (ws vs : List Wiring)
    → template_wirings cfg i ≡ ok ws
    → all_wirings cfg inds ≡ ok vs
    → all_wirings cfg (i ∷ inds) ≡ ok (ws ++ vs)
unfolding all_wirings
all_wirings-cons cfg i inds ws vs e e' = rw e (rw e' refl)

module _ (net : Netaddr) where
  node-Wired :
      (cfg : Value) (i k : ℕ) (label : Value) (c c' : Columns) (ws : List Wiring)
      → NodeRun net cfg i k label c c'
      → get_ntmpl_label cfg (some i) ≡ ok label
      → Wired c ws
      → (w : Wiring) × (wiring cfg i k ≡ ok w) × Wired c' (ws ++ w ∷ [])
  unfolding with_identity with_ports add_port_lists add_data_lists
  node-Wired cfg i k label c c' ws r l wired =
      let w = wiring_of label r.rows r.data_rows in
      (
        w,
        wiring-runs cfg i k label r.ipmi_inds r.rows r.data_inds r.data_rows l r.ipmi_read
            r.rows_read r.data_read r.data_rows_read,
        subst (λ d. Wired d (ws ++ w ∷ [])) r.built
            record {
              labels = appended-map (λ (v : Wiring). v.label) ws w _ _ wired.labels r.labelled;
              ipmi_switches =
                  appended-map (λ (v : Wiring). v.ipmi_switches) ws w _ _ wired.ipmi_switches refl;
              ipmi_ports =
                  appended-map (λ (v : Wiring). v.ipmi_ports) ws w _ _ wired.ipmi_ports refl;
              pxe_switches =
                  appended-map (λ (v : Wiring). v.pxe_switches) ws w _ _ wired.pxe_switches refl;
              pxe_ports = appended-map (λ (v : Wiring). v.pxe_ports) ws w _ _ wired.pxe_ports refl;
              data_switches =
                  appended-map (λ (v : Wiring). v.data_switches) ws w _ _ wired.data_switches refl;
              data_ports =
                  appended-map (λ (v : Wiring). v.data_ports) ws w _ _ wired.data_ports refl;
            },
      )

  create_hosts-Wired :
      (cfg : Value) (i : ℕ) (label hostname bmc_type : Value) (host : ℕ) (ports : List ℕ)
      (pools pools' : Pools net) (c c' : Columns) (ws : List Wiring)
      → create_hosts net cfg i label hostname bmc_type host ports pools c ≡ (ok pools', c')
      → get_ntmpl_label cfg (some i) ≡ ok label
      → Wired c ws
      → (vs : List Wiring) × (each (wiring cfg i) ports ≡ ok vs) × Wired c' (ws ++ vs)
  unfolding create_hosts
  create_hosts-Wired cfg i label hostname bmc_type host [] pools pools' c c' ws h l wired = (
    [],
    refl,
    subst (λ d. Wired d (ws ++ [])) (ap (λ p. p.1) h) (subst (Wired c) (sym (append-nil ws)) wired),
  )
  create_hosts-Wired cfg i label hostname bmc_type host (port ∷ ports) pools pools' c c' ws h l
        wired =
      let (pools1, c1, run, h1) =
        bind-runs (create_node net cfg i label hostname bmc_type host port pools) _ c h in
      let r = create_node-runs net cfg i label hostname bmc_type host port pools pools1 c c1 run in
      let (w, e, wired1) = node-Wired cfg i port label c c1 ws r l wired in
      let (vs, e', wired') =
        create_hosts-Wired cfg i label hostname bmc_type (host + 1) ports pools1 pools' c1 c'
          (ws ++ w ∷ []) h1 l wired1 in
      (
        w ∷ vs,
        each-cons (wiring cfg i) port ports w vs e e',
        subst (Wired c') (append_assoc ws (w ∷ []) vs) wired',
      )

  create_template-Wired :
      (cfg : Value) (i : ℕ) (pools pools' : Pools net) (c c' : Columns) (ws : List Wiring)
      → create_template net cfg i pools c ≡ (ok pools', c')
      → Wired c ws
      → (vs : List Wiring) × (template_wirings cfg i ≡ ok vs) × Wired c' (ws ++ vs)
  unfolding create_template
  create_template-Wired cfg i pools pools' c c' ws h wired =
      let (label, l, h1) = lift-runs (get_ntmpl_label cfg (some i)) _ c h in
      let (hostname, _, h2) = lift-runs (get_ntmpl_os_hostname_prefix cfg (some i)) _ c h1 in
      let (bmc_type, _, h3) = lift-runs (get_ntmpl_bmc_type cfg (some i)) _ c h2 in
      let (switch, _, h4) = lift-runs (get_ntmpl_phyintf_ipmi_switch cfg i (some 0)) _ c h3 in
      let (switch_label, _, h5) = lift-runs (as_text switch) _ c h4 in
      let (_, _, h6) = lift-runs (get_sw_mgmt_index_by_label cfg switch_label) _ c h5 in
      let (ports, e, h7) = lift-runs (yield_ntmpl_phyintf_ipmi_pt_ind cfg i 0) _ c h6 in
      let (vs, e', wired') =
        create_hosts-Wired cfg i label (or_label net hostname label) bmc_type 0 ports pools pools' c
          c' ws h7 l wired in
      (vs, template_wirings-runs cfg i ports vs e e', wired')

  pub create_templates-Wired :
      (cfg : Value) (inds : List ℕ) (pools pools' : Pools net) (c c' : Columns) (ws : List Wiring)
      → create_templates net cfg inds pools c ≡ (ok pools', c')
      → Wired c ws
      → (vs : List Wiring) × (all_wirings cfg inds ≡ ok vs) × Wired c' (ws ++ vs)
  unfolding create_templates all_wirings
  create_templates-Wired cfg [] pools pools' c c' ws h wired = (
    [],
    refl,
    subst (λ d. Wired d (ws ++ [])) (ap (λ p. p.1) h) (subst (Wired c) (sym (append-nil ws)) wired),
  )
  create_templates-Wired cfg (i ∷ inds) pools pools' c c' ws h wired =
      let (pools1, c1, run, h1) = bind-runs (create_template net cfg i pools) _ c h in
      let (us, e, wired1) = create_template-Wired cfg i pools pools1 c c1 ws run wired in
      let (vs, e', wired') =
        create_templates-Wired cfg inds pools1 pools' c1 c' (ws ++ us) h1 wired1 in
      (
        us ++ vs,
        all_wirings-cons cfg i inds us vs e e',
        subst (Wired c') (append_assoc ws us vs) wired',
      )
