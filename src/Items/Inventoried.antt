-- ===== src/Items/Inventoried.antt =====
-- What `create_nodes` and `update_nodes` make of a configuration together.
use cluster_genesis.Base.{
  ℕ, ◌≡◌, ap, ◌∙◌, subst, List, [], ◌∷◌, arith, if◌then◌else◌, nat_eq, option_eq, length, get_elem?,
  All, Text, codes, text_beq, text_eq, Result, ◌>>=◌, ok,
}
use cluster_genesis.Base.Value.{Value, Fields, port_eq}
use cluster_genesis.Items.Wired.{Wiring, Wired, all_wirings, no_nodes-Wired}
use cluster_genesis.Items.Plugged.{create_templates-Wired}
use cluster_genesis.Config.Templates.Lists.{yield_ntmpl_ind}
use cluster_genesis.Inventory.Columns.{no_nodes, Columns, update_nodes}
use cluster_genesis.Inventory.Columns.Places.{Place, places, same, below}
use cluster_genesis.Inventory.Columns.Update.{longest}
use cluster_genesis.Inventory.Columns.Written.{read_at}
use cluster_genesis.Inventory.Columns.Transposed.{update_nodes_correct}
use cluster_genesis.Items.Create.{create_templates}
use cluster_genesis.Items.Filled.{lift-runs, bind-runs, Filled}
use cluster_genesis.Items.Complete.{host_count, create_templates-Filled}
use cluster_genesis.Items.Build.{create_nodes, create}
use cluster_genesis.Items.Pools.{gen_interface_ip_lists}
use cluster_genesis.Reserve.Manager.{Netaddr}

-- The place that no method fills.
abbrev pub unfilled : Place
unfilled = below (codes "data") (codes "ipaddrs")

Filled-lengths :
    (hosts : ℕ) (c : Columns)
    → Filled hosts c
    → All (λ e. length e.1 ≡ (if same unfilled e.0 then 0 else hosts)) (places c)
unfolding text_beq
Filled-lengths hosts c f = omega arith

Filled-longest : (hosts : ℕ) (c : Columns) → Filled hosts c → longest (places c) ≡ hosts
Filled-longest hosts c f = omega arith

both_All :
    {A : Type 0} (P Q : A → Type 0) (xs : List A) → All P xs → All Q xs → All (λ x. P x × Q x) xs
both_All P Q [] p q = tt
both_All P Q (x ∷ xs) p q = ((p.0, q.0), both_All P Q xs p.1 q.1)

module _ (net : Netaddr) (ip_range : Text → Text → Result (List net.Ip))
    (ip_address : Value → Result net.Ip) where
  create_nodes-runs :
      (cfg : Value) (c : Columns)
      → create_nodes net ip_range ip_address cfg no_nodes ≡ (ok tt, c)
      → (hosts : ℕ) × ((yield_ntmpl_ind cfg >>= host_count cfg) ≡ ok hosts)
        × Filled hosts c
        × (ws : List Wiring) × ((yield_ntmpl_ind cfg >>= all_wirings cfg) ≡ ok ws)
        × Wired c ws
  unfolding create_nodes
  create_nodes-runs cfg c h =
      let (pools, _, h1) =
        lift-runs (gen_interface_ip_lists net ip_range ip_address cfg) _ no_nodes h in
      let (inds, e, h2) = lift-runs (yield_ntmpl_ind cfg) _ no_nodes h1 in
      let (left, c', run, h3) = bind-runs (create_templates net cfg inds pools) _ no_nodes h2 in
      let (hosts, n, f) =
        create_templates-Filled net cfg inds pools left 0 no_nodes c' run (omega arith) in
      let (ws, a, wired) =
        create_templates-Wired net cfg inds pools left no_nodes c' [] run no_nodes-Wired in
      (
        hosts,
        ap (λ r. r >>= host_count cfg) e ∙ n,
        subst (Filled hosts) (ap (λ p. p.1) h3) (subst (λ k. Filled k c') (omega arith) f),
        ws,
        ap (λ r. r >>= all_wirings cfg) e ∙ a,
        subst (λ d. Wired d ws) (ap (λ p. p.1) h3) wired,
      )

  -- If `create_nodes` returns, then the inventory is written with as many nodes as the first IPMI
  -- interfaces of the node templates have ports; each list of the inventory has one value for each
  -- node, but that of the addresses of the data interfaces, which is empty; and each node has under
  -- its keys the values of the lists at its index. The nodes stand in the order of the templates
  -- and of those ports, and a node has the label of its template and, of each of its IPMI and data
  -- interfaces, the switch and the port at the index of the node's port, and of the PXE interfaces
  -- those with the indices of the IPMI interfaces.
  pub create_nodes_correct :
      (cfg : Value) (c : Columns)
      → create_nodes net ip_range ip_address cfg no_nodes ≡ (ok tt, c)
      → (hosts : ℕ) × ((yield_ntmpl_ind cfg >>= host_count cfg) ≡ ok hosts)
        × (nodes : List Fields) × (create net ip_range ip_address cfg ≡ (ok tt, ok nodes))
        × (length nodes ≡ hosts)
        × All
            (λ e.
              (length e.1 ≡ (if same unfilled e.0 then 0 else hosts))
              × ((i : ℕ) → read_at nodes e.0 i ≡ get_elem? e.1 i))
            (places c)
        × (ws : List Wiring) × ((yield_ntmpl_ind cfg >>= all_wirings cfg) ≡ ok ws)
        × Wired c ws
  unfolding create
  create_nodes_correct cfg c h =
      let (hosts, e, f, ws, a, wired) = create_nodes-runs cfg c h in
      let (nodes, run, n, reads) = update_nodes_correct c in
      (
        hosts,
        e,
        nodes,
        ap (λ p. (p.0, update_nodes p.1)) h ∙ ap (λ r. (ok tt, r)) run,
        n ∙ Filled-longest hosts c f,
        both_All (λ e. length e.1 ≡ (if same unfilled e.0 then 0 else hosts))
            (λ e. (i : ℕ) → read_at nodes e.0 i ≡ get_elem? e.1 i) (places c)
            (Filled-lengths hosts c f) reads,
        ws,
        a,
        wired,
      )
