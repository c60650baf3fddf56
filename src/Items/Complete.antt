-- ===== src/Items/Complete.antt =====
-- The inventory that is built has a node for each port of the first IPMI interface of each node
-- template, and each node has all its values.
use cluster_genesis.Base.{
  ℕ, zero, suc, ◌+◌, ◌≡◌, refl, sym, ap, ◌∙◌, subst, some, List, [], ◌∷◌, arith, nat_eq, option_eq,
  length, text_eq, Result, ◌>>=◌, >>=-eq-ok, ok-injective, each, ok,
}
use cluster_genesis.Base.Value.{Value, port_eq}
use cluster_genesis.Items.PortRows.{PortRow, DataRow, port_row, data_row}
use cluster_genesis.Config.Templates.Ifcs.{yield_ntmpl_phyintf_data_ind}
use cluster_genesis.Config.Access.{range_from, as_text}
use cluster_genesis.Config.Templates.Ipmi.{
  get_ntmpl_phyintf_ipmi_switch, get_ntmpl_phyintf_ipmi_pt_cnt, yield_ntmpl_phyintf_ipmi_pt_ind,
  yield_ntmpl_phyintf_ipmi_ind,
}
use cluster_genesis.Config.Templates.Lists.{get_ntmpl_label}
use cluster_genesis.Config.Templates.Read.{labelled, ntmpl_interfaces}
use cluster_genesis.Config.Templates.Settings.{get_ntmpl_bmc_type, get_ntmpl_os_hostname_prefix}
use cluster_genesis.Config.Switches.Labels.{get_sw_mgmt_index_by_label}
use cluster_genesis.Inventory.Columns.{Columns, add_nodes_interfaces}
use cluster_genesis.Items.{Pools, assign_interface_ips}
use cluster_genesis.Items.Create.{
  add_identity, add_ports, add_data_lists, add_data, add_interfaces, create_node, create_hosts,
  or_label, create_template, create_templates,
}
use cluster_genesis.Items.Filled.{
  lift-runs, bind-runs, Filled, add_identity-runs, with_ports, add_ports-runs, add_data-runs,
  whole_node-Filled, Identity, with_identity,
}
use cluster_genesis.Reserve.Manager.{Netaddr}

-- The ports of the first IPMI interface of the templates.
unfoldable pub host_count : Value → List ℕ → Result ℕ
unfolding get_ntmpl_phyintf_ipmi_pt_cnt
host_count cfg [] = ok 0
host_count cfg (i ∷ inds) = do
  hosts ← get_ntmpl_phyintf_ipmi_pt_cnt cfg i 0
  rest ← host_count cfg inds
  ok (hosts + rest)

length-range_from : (n i : ℕ) → length (range_from n i) ≡ n
length-range_from zero i = refl
length-range_from (suc n) i = ap suc (length-range_from n (i + 1))

host_count-cons :
    (cfg : Value) (i : ℕ) (inds : List ℕ) (hosts rest : ℕ)
    → get_ntmpl_phyintf_ipmi_pt_cnt cfg i 0 ≡ ok hosts
    → host_count cfg inds ≡ ok rest
    → host_count cfg (i ∷ inds) ≡ ok (hosts + rest)
unfolding host_count
host_count-cons cfg i inds hosts rest e e' = rw e (rw e' refl)

yield-length :
    (cfg : Value) (i : ℕ) (ports : List ℕ)
    → yield_ntmpl_phyintf_ipmi_pt_ind cfg i 0 ≡ ok ports
    → get_ntmpl_phyintf_ipmi_pt_cnt cfg i 0 ≡ ok (length ports)
unfolding yield_ntmpl_phyintf_ipmi_pt_ind
yield-length cfg i ports h =
    let (n, e, k) = >>=-eq-ok (get_ntmpl_phyintf_ipmi_pt_cnt cfg i 0) _ h in
    e ∙ ap ok (sym (length-range_from n 0) ∙ ap length (ok-injective k))

module _ (net : Netaddr) where
  pub add_interfaces-runs :
      (cfg : Value) (i : ℕ) (pools pools' : Pools net) (c c' : Columns)
      → add_interfaces net cfg i pools c ≡ (ok pools', c')
      → (interfaces : Value) × (add_nodes_interfaces interfaces c ≡ c')
  unfolding add_interfaces
  add_interfaces-runs cfg i pools pools' c c' h =
      let (interfaces, _, h1) = lift-runs (ntmpl_interfaces cfg i) _ _ h in
      let (entries, _, h2) = lift-runs (each labelled interfaces) _ _ h1 in
      let ((assigned, left), _, h3) = lift-runs (assign_interface_ips net entries pools) _ _ h2 in
      (_, ap (λ p. p.1) h3)

  -- What a node appends, and what it was read from.
  pub record NodeRun (cfg : Value) (i k : ℕ) (label : Value) (c c' : Columns) : Type 0 where
    pub identity : Identity
    pub labelled : identity.label ≡ label
    pub ipmi_inds : List ℕ
    pub rows : List PortRow
    pub ipmi_read : yield_ntmpl_phyintf_ipmi_ind cfg i ≡ ok ipmi_inds
    pub rows_read : each (port_row cfg i k) ipmi_inds ≡ ok rows
    pub userid : Value
    pub password : Value
    pub data_inds : List ℕ
    pub data_rows : List DataRow
    pub data_read : yield_ntmpl_phyintf_data_ind cfg i ≡ ok data_inds
    pub data_rows_read : each (data_row cfg i k) data_inds ≡ ok data_rows
    pub interfaces : Value
    pub built :
        add_nodes_interfaces interfaces
          (add_data_lists data_rows (with_ports rows userid password (with_identity identity c)))
        ≡ c'

  pub create_node-runs :
      (cfg : Value) (i : ℕ) (label hostname bmc_type : Value) (host port : ℕ)
      (pools pools' : Pools net) (c c' : Columns)
      → create_node net cfg i label hostname bmc_type host port pools c ≡ (ok pools', c')
      → NodeRun cfg i port label c c'
  unfolding create_node
  create_node-runs cfg i label hostname bmc_type host port pools pools' c c' h =
      let (_, c1, run1, h1) = bind-runs (add_identity cfg i label hostname bmc_type host) _ c h in
      let (_, c2, run2, h2) = bind-runs (add_ports cfg i port) _ c1 h1 in
      let (_, c3, run3, h3) = bind-runs (add_data cfg i port) _ c2 h2 in
      let (v, l, e1) = add_identity-runs cfg i label hostname bmc_type host c c1 run1 in
      let (inds, rows, is, rs, userid, password, e2) = add_ports-runs cfg i port c1 c2 run2 in
      let (inds', ds, is', rs', e3) = add_data-runs cfg i port c2 c3 run3 in
      let (interfaces, e4) = add_interfaces-runs cfg i pools pools' c3 c' h3 in
      record {
        identity = v;
        labelled = l;
        ipmi_inds = inds;
        rows = rows;
        ipmi_read = is;
        rows_read = rs;
        userid = userid;
        password = password;
        data_inds = inds';
        data_rows = ds;
        data_read = is';
        data_rows_read = rs';
        interfaces = interfaces;
        built =
            ap
              (λ d.
                add_nodes_interfaces interfaces
                  (add_data_lists ds (with_ports rows userid password d)))
              e1
            ∙ ap (λ d. add_nodes_interfaces interfaces (add_data_lists ds d)) e2
            ∙ ap (add_nodes_interfaces interfaces) e3
            ∙ e4;
      }

  create_node-Filled :
      (cfg : Value) (i : ℕ) (label hostname bmc_type : Value) (host port : ℕ)
      (pools pools' : Pools net) (n : ℕ) (c c' : Columns)
      → create_node net cfg i label hostname bmc_type host port pools c ≡ (ok pools', c')
      → Filled n c
      → Filled (n + 1) c'
  create_node-Filled cfg i label hostname bmc_type host port pools pools' n c c' h f =
      let r = create_node-runs cfg i label hostname bmc_type host port pools pools' c c' h in
      subst (Filled (n + 1)) r.built
        (whole_node-Filled r.identity r.rows r.userid r.password r.data_rows r.interfaces n c f)

  create_hosts-Filled :
      (cfg : Value) (i : ℕ) (label hostname bmc_type : Value) (host : ℕ) (ports : List ℕ)
      (pools pools' : Pools net) (n : ℕ) (c c' : Columns)
      → create_hosts net cfg i label hostname bmc_type host ports pools c ≡ (ok pools', c')
      → Filled n c
      → Filled (n + length ports) c'
  unfolding create_hosts
  create_hosts-Filled cfg i label hostname bmc_type host [] pools pools' n c c' h f =
      subst (Filled (n + 0)) (ap (λ p. p.1) h) (subst (λ k. Filled k c) (omega arith) f)
  create_hosts-Filled cfg i label hostname bmc_type host (port ∷ ports) pools pools' n c c' h f =
      let (pools1, c1, run, h1) =
        bind-runs (create_node net cfg i label hostname bmc_type host port pools) _ c h in
      subst (λ k. Filled k c') (omega arith)
        (create_hosts-Filled cfg i label hostname bmc_type (host + 1) ports pools1 pools' (n + 1) c1
          c' h1
          (create_node-Filled cfg i label hostname bmc_type host port pools pools1 n c c1 run f))

  create_template-Filled :
      (cfg : Value) (i : ℕ) (pools pools' : Pools net) (n : ℕ) (c c' : Columns)
      → create_template net cfg i pools c ≡ (ok pools', c')
      → Filled n c
      → (hosts : ℕ) × (get_ntmpl_phyintf_ipmi_pt_cnt cfg i 0 ≡ ok hosts) × Filled (n + hosts) c'
  unfolding create_template
  create_template-Filled cfg i pools pools' n c c' h f =
      let (label, _, h1) = lift-runs (get_ntmpl_label cfg (some i)) _ c h in
      let (hostname, _, h2) = lift-runs (get_ntmpl_os_hostname_prefix cfg (some i)) _ c h1 in
      let (bmc_type, _, h3) = lift-runs (get_ntmpl_bmc_type cfg (some i)) _ c h2 in
      let (switch, _, h4) = lift-runs (get_ntmpl_phyintf_ipmi_switch cfg i (some 0)) _ c h3 in
      let (switch_label, _, h5) = lift-runs (as_text switch) _ c h4 in
      let (_, _, h6) = lift-runs (get_sw_mgmt_index_by_label cfg switch_label) _ c h5 in
      let (ports, e, h7) = lift-runs (yield_ntmpl_phyintf_ipmi_pt_ind cfg i 0) _ c h6 in
      (
        length ports,
        yield-length cfg i ports e,
        create_hosts-Filled cfg i label (or_label net hostname label) bmc_type 0 ports pools pools'
            n c c' h7 f,
      )

  pub create_templates-Filled :
      (cfg : Value) (inds : List ℕ) (pools pools' : Pools net) (n : ℕ) (c c' : Columns)
      → create_templates net cfg inds pools c ≡ (ok pools', c')
      → Filled n c
      → (hosts : ℕ) × (host_count cfg inds ≡ ok hosts) × Filled (n + hosts) c'
  unfolding create_templates host_count
  create_templates-Filled cfg [] pools pools' n c c' h f =
      (0, refl, subst (Filled (n + 0)) (ap (λ p. p.1) h) (subst (λ k. Filled k c) (omega arith) f))
  create_templates-Filled cfg (i ∷ inds) pools pools' n c c' h f =
      let (pools1, c1, run, h1) = bind-runs (create_template net cfg i pools) _ c h in
      let (hosts, e, f1) = create_template-Filled cfg i pools pools1 n c c1 run f in
      let (rest, e', f') = create_templates-Filled cfg inds pools1 pools' (n + hosts) c1 c' h1 f1 in
      (
        hosts + rest,
        host_count-cons cfg i inds hosts rest e e',
        subst (λ k. Filled k c') (omega arith) f',
      )
