-- ===== src/Items/Filled.antt =====
-- `create_nodes` fills the lists of the inventory evenly: each node gives a value to each list.
use cluster_genesis.Base.{
  ℕ, ◌+◌, ◌≡◌, refl, ap, none, some, List, [], ◌∷◌, arith, nat_eq, option_eq, length, length-append,
  All, text_eq, Result, err-ne-ok, each, ok, err,
}
use cluster_genesis.Base.Value.{Value, port_eq}
use cluster_genesis.Config.Templates.Ifcs.{yield_ntmpl_phyintf_data_ind}
use cluster_genesis.Config.Templates.Ipmi.{yield_ntmpl_phyintf_ipmi_ind}
use cluster_genesis.Config.Templates.Settings.{
  get_ntmpl_ipmi_userid, get_ntmpl_ipmi_password, get_ntmpl_os_dict, get_ntmpl_roles,
}
use cluster_genesis.Inventory.Columns.{
  Columns, add_nodes_hostname, add_nodes_label, add_nodes_os_dict, add_nodes_rack_id,
  add_nodes_bmc_type, add_nodes_userid_ipmi, add_nodes_password_ipmi, add_nodes_devices_pxe,
  add_nodes_roles, add_nodes_interfaces,
}
use cluster_genesis.Items.Create.{add_identity, add_port_lists, add_ports, add_data_lists, add_data}
use cluster_genesis.Items.PortRows.{
  PortRow, DataRow, port_row, data_row, column_of, host_name, rack_of,
}
use cluster_genesis.Exec.{Exec, lift, continue, ◌>>=◌}

-- `modify` and `lift` at the head of a method that returns.
pub lift-runs :
    {S A B : Type 0} (r : Result A) (k : A → Exec S B) (s : S) {b : B} {s' : S}
    → (lift r >>= k) s ≡ (ok b, s')
    → (a : A) × (r ≡ ok a) × (k a s ≡ (ok b, s'))
lift-runs (ok a) k s h = (a, refl, h)
lift-runs (err e) k s h = err-ne-ok (ap (λ p. p.0) h)

continue-runs :
    {S A B : Type 0} (m : Exec S A) (k : A → Exec S B) (s : S) (p : Result A × S) {b : B} {s' : S}
    → m s ≡ p
    → continue p.0 k p.1 ≡ (ok b, s')
    → (a : A) × (t : S) × (m s ≡ (ok a, t)) × (k a t ≡ (ok b, s'))
continue-runs m k s (ok a, t) e run = (a, t, e, run)
continue-runs m k s (err x, t) e run = err-ne-ok (ap (λ q. q.0) run)

pub bind-runs :
    {S A B : Type 0} (m : Exec S A) (k : A → Exec S B) (s : S) {b : B} {s' : S}
    → (m >>= k) s ≡ (ok b, s')
    → (a : A) × (t : S) × (m s ≡ (ok a, t)) × (k a t ≡ (ok b, s'))
bind-runs m k s h = continue-runs m k s (m s) refl h

-- The lists that every node fills; no method fills the addresses of the data interfaces.
abbrev pub filled_lists : Columns → List (List Value)
filled_lists c =
    c.label ∷ c.hostname ∷ c.rack_id ∷ c.bmc_type ∷ c.ipmi.switches ∷ c.ipmi.ports ∷ c.ipmi.macs
    ∷ c.ipmi.ipaddrs ∷ c.ipmi.userid ∷ c.ipmi.password ∷ c.pxe.ports ∷ c.pxe.macs ∷ c.pxe.ipaddrs
    ∷ c.pxe.devices ∷ c.pxe.switches ∷ c.pxe.rename ∷ c.data'.switches ∷ c.data'.ports
    ∷ c.data'.macs ∷ c.data'.devices ∷ c.data'.rename ∷ c.os ∷ c.roles ∷ c.interfaces ∷ []

abbrev pub Filled : ℕ → Columns → Type 0
Filled n c = All (λ vs. length vs ≡ n) (filled_lists c) × (length c.data'.ipaddrs ≡ 0)

-- What the parts of a node append.
pub record Identity : Type 0 where
  pub label : Value
  hostname : Value
  bmc_type : Value
  rack_id : Value
  os_dict : Value
  roles : Value

unfoldable pub with_identity : Identity → Columns → Columns
with_identity v c = add_nodes_roles v.roles (
    add_nodes_os_dict v.os_dict (
      add_nodes_rack_id v.rack_id (
        add_nodes_bmc_type v.bmc_type (add_nodes_hostname v.hostname (add_nodes_label v.label c)))))

pub add_identity-runs :
    (cfg : Value) (i : ℕ) (label hostname bmc_type : Value) (k : ℕ) (c c' : Columns)
    → add_identity cfg i label hostname bmc_type k c ≡ (ok tt, c')
    → (v : Identity) × (v.label ≡ label) × (with_identity v c ≡ c')
unfolding add_identity with_identity
add_identity-runs cfg i label hostname bmc_type k c c' h =
    let (host, _, h1) = lift-runs (host_name hostname k) _ _ h in
    let (rack, _, h2) = lift-runs (rack_of cfg i) _ _ h1 in
    let (os, _, h3) = lift-runs (get_ntmpl_os_dict cfg (some i)) _ _ h2 in
    let (roles, _, h4) = lift-runs (get_ntmpl_roles cfg i none) _ _ h3 in
    (
      record {
        label = label;
        hostname = host;
        bmc_type = bmc_type;
        rack_id = rack;
        os_dict = os;
        roles = roles;
      },
      refl,
      ap (λ p. p.1) h4,
    )

unfoldable pub with_ports : List PortRow → Value → Value → Columns → Columns
unfolding add_port_lists
with_ports rows userid password c =
    add_nodes_devices_pxe (column_of (λ (r : PortRow). r.device_pxe) rows)
      (add_nodes_password_ipmi password (add_nodes_userid_ipmi userid (add_port_lists rows c)))

pub add_ports-runs :
    (cfg : Value) (i port : ℕ) (c c' : Columns)
    → add_ports cfg i port c ≡ (ok tt, c')
    → (inds : List ℕ) × (rows : List PortRow) × (yield_ntmpl_phyintf_ipmi_ind cfg i ≡ ok inds)
      × (each (port_row cfg i port) inds ≡ ok rows)
      × (userid : Value) × (password : Value) × (with_ports rows userid password c ≡ c')
unfolding add_ports with_ports
add_ports-runs cfg i port c c' h =
    let (inds, is, h1) = lift-runs (yield_ntmpl_phyintf_ipmi_ind cfg i) _ _ h in
    let (rows, rs, h2) = lift-runs (each (port_row cfg i port) inds) _ _ h1 in
    let (userid, _, h3) = lift-runs (get_ntmpl_ipmi_userid cfg (some i)) _ _ h2 in
    let (password, _, h4) = lift-runs (get_ntmpl_ipmi_password cfg (some i)) _ _ h3 in
    (inds, rows, is, rs, userid, password, ap (λ p. p.1) h4)

pub add_data-runs :
    (cfg : Value) (i port : ℕ) (c c' : Columns)
    → add_data cfg i port c ≡ (ok tt, c')
    → (inds : List ℕ) × (rows : List DataRow) × (yield_ntmpl_phyintf_data_ind cfg i ≡ ok inds)
      × (each (data_row cfg i port) inds ≡ ok rows)
      × (add_data_lists rows c ≡ c')
unfolding add_data
add_data-runs cfg i port c c' h =
    let (inds, is, h1) = lift-runs (yield_ntmpl_phyintf_data_ind cfg i) _ _ h in
    let (rows, rs, h2) = lift-runs (each (data_row cfg i port) inds) _ _ h1 in
    (inds, rows, is, rs, ap (λ p. p.1) h2)

-- A node adds one value to each list.
pub whole_node-Filled :
    (v : Identity) (rows : List PortRow) (userid password : Value) (ds : List DataRow)
    (interfaces : Value) (n : ℕ) (c : Columns)
    → Filled n c
    → Filled (n + 1) (
        add_nodes_interfaces interfaces
          (add_data_lists ds (with_ports rows userid password (with_identity v c))))
unfolding with_identity with_ports add_data_lists
whole_node-Filled v rows userid password ds interfaces n c h = omega (arith, length-append {0})
