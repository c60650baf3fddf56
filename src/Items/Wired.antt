-- ===== src/Items/Wired.antt =====
-- Which ports of the configuration the nodes of `create_nodes` have.
-- The switches and ports of a node, a list for each interface type.
use cluster_genesis.Base.{
  ℕ, ◌≡◌, refl, ap, ◌∙◌, some, List, [], ◌∷◌, ◌++◌, map, nat_eq, option_eq, text_eq, Result, ◌>>=◌,
  >>=-eq-ok, ok-injective, each, ok,
}
use cluster_genesis.Base.Value.{Value, port_eq, list}
use cluster_genesis.Config.Templates.Settings.{
  get_ntmpl_phyintf_data_dev, get_ntmpl_phyintf_pxe_dev, get_ntmpl_phyintf_pxe_rename,
  get_ntmpl_phyintf_data_rename,
}
use cluster_genesis.Config.Access.{to_values}
use cluster_genesis.Config.Templates.Lists.{get_ntmpl_label}
use cluster_genesis.Config.Templates.Ifcs.{yield_ntmpl_phyintf_data_ind}
use cluster_genesis.Config.Templates.Ipmi.{
  yield_ntmpl_phyintf_ipmi_ind, get_ntmpl_phyintf_ipmi_switch, yield_ntmpl_phyintf_ipmi_pt_ind,
  get_ntmpl_phyintf_ipmi_ports,
}
use cluster_genesis.Config.Templates.Pxe.{get_ntmpl_phyintf_pxe_switch, get_ntmpl_phyintf_pxe_ports}
use cluster_genesis.Config.Templates.Data.{
  get_ntmpl_phyintf_data_switch, get_ntmpl_phyintf_data_ports,
}
use cluster_genesis.Inventory.Columns.{Columns, no_nodes}
use cluster_genesis.Items.PortRows.{column_of, PortRow, DataRow, port_row, data_row}

pub record Wiring : Type 0 where
  pub label : Value
  pub ipmi_switches : Value
  pub ipmi_ports : Value
  pub pxe_switches : Value
  pub pxe_ports : Value
  pub data_switches : Value
  pub data_ports : Value

-- The values of the interfaces at the indices.
unfoldable pub values_at : (ℕ → Result Value) → List ℕ → Result Value
values_at f inds = do vs ← each f inds; ok (list (to_values vs))

-- The node at the port with index `k` of a node template: of each IPMI interface and each data
-- interface the switch and the port with that index, and the same of the PXE interface that has the
-- index of the IPMI interface.
unfoldable pub wiring : Value → ℕ → ℕ → Result Wiring
unfolding values_at
wiring cfg i k = do
  label ← get_ntmpl_label cfg (some i)
  ipmi ← yield_ntmpl_phyintf_ipmi_ind cfg i
  data' ← yield_ntmpl_phyintf_data_ind cfg i
  ipmi_switches ← values_at (λ j. get_ntmpl_phyintf_ipmi_switch cfg i (some j)) ipmi
  ipmi_ports ← values_at (λ j. get_ntmpl_phyintf_ipmi_ports cfg i j (some k)) ipmi
  pxe_switches ← values_at (λ j. get_ntmpl_phyintf_pxe_switch cfg i (some j)) ipmi
  pxe_ports ← values_at (λ j. get_ntmpl_phyintf_pxe_ports cfg i j (some k)) ipmi
  data_switches ← values_at (λ j. get_ntmpl_phyintf_data_switch cfg i (some j)) data'
  data_ports ← values_at (λ j. get_ntmpl_phyintf_data_ports cfg i j (some k)) data'
  ok (record {
    label = label;
    ipmi_switches = ipmi_switches;
    ipmi_ports = ipmi_ports;
    pxe_switches = pxe_switches;
    pxe_ports = pxe_ports;
    data_switches = data_switches;
    data_ports = data_ports;
  })

-- The nodes of the ports of the first IPMI interface of a template, in their order.
unfoldable pub template_wirings : Value → ℕ → Result (List Wiring)
unfolding wiring
template_wirings cfg i = do
  ports ← yield_ntmpl_phyintf_ipmi_pt_ind cfg i 0
  each (wiring cfg i) ports

unfoldable pub all_wirings : Value → List ℕ → Result (List Wiring)
unfolding template_wirings
all_wirings cfg [] = ok []
all_wirings cfg (i ∷ inds) = do
  ws ← template_wirings cfg i
  rest ← all_wirings cfg inds
  ok (ws ++ rest)

-- The lists of the inventory that the wiring of the nodes makes.
pub record Wired (c : Columns) (ws : List Wiring) : Type 0 where
  pub labels : c.label ≡ map (λ (w : Wiring). w.label) ws
  pub ipmi_switches : c.ipmi.switches ≡ map (λ (w : Wiring). w.ipmi_switches) ws
  pub ipmi_ports : c.ipmi.ports ≡ map (λ (w : Wiring). w.ipmi_ports) ws
  pub pxe_switches : c.pxe.switches ≡ map (λ (w : Wiring). w.pxe_switches) ws
  pub pxe_ports : c.pxe.ports ≡ map (λ (w : Wiring). w.pxe_ports) ws
  pub data_switches : c.data'.switches ≡ map (λ (w : Wiring). w.data_switches) ws
  pub data_ports : c.data'.ports ≡ map (λ (w : Wiring). w.data_ports) ws

pub no_nodes-Wired : Wired no_nodes []
no_nodes-Wired = record {
  labels = refl;
  ipmi_switches = refl;
  ipmi_ports = refl;
  pxe_switches = refl;
  pxe_ports = refl;
  data_switches = refl;
  data_ports = refl;
}

pub map-append-one :
    {A B : Type 0} (f : A → B) (xs : List A) (x : A) → map f (xs ++ x ∷ []) ≡ map f xs ++ f x ∷ []
map-append-one f [] x = refl
map-append-one f (y ∷ xs) x = ap (λ l. f y ∷ l) (map-append-one f xs x)

-- A call for each index that gives a part of what another call gives.
each-map :
    {A B C : Type 0} (f : A → Result B) (g : A → Result C) (p : B → C) (xs : List A) (ys : List B)
    → ((x : A) (y : B) → f x ≡ ok y → g x ≡ ok (p y))
    → each f xs ≡ ok ys
    → each g xs ≡ ok (map p ys)
each-map f g p [] ys part h = ap (λ l. ok (map p l)) (ok-injective h)
each-map f g p (x ∷ xs) ys part h =
    let (y, e, h1) = >>=-eq-ok (f x) _ h in
    let (zs, e', h2) = >>=-eq-ok (each f xs) _ h1 in
    rw (part x y e) (rw (each-map f g p xs zs part e') (ap (λ l. ok (map p l)) (ok-injective h2)))

values-map :
    {B : Type 0} (f : ℕ → Result B) (g : ℕ → Result Value) (p : B → Value) (inds : List ℕ)
    (rows : List B)
    → ((j : ℕ) (r : B) → f j ≡ ok r → g j ≡ ok (p r))
    → each f inds ≡ ok rows
    → values_at g inds ≡ ok (column_of p rows)
unfolding values_at
values-map f g p inds rows part h = rw (each-map f g p inds rows part h) refl

-- What a row of a local list was read from.
port_row-parts :
    (cfg : Value) (i k j : ℕ) (r : PortRow)
    → port_row cfg i k j ≡ ok r
    → (get_ntmpl_phyintf_ipmi_switch cfg i (some j) ≡ ok r.switch_ipmi)
      × (get_ntmpl_phyintf_pxe_switch cfg i (some j) ≡ ok r.switch_pxe)
      × (get_ntmpl_phyintf_ipmi_ports cfg i j (some k) ≡ ok r.port_ipmi)
      × (get_ntmpl_phyintf_pxe_ports cfg i j (some k) ≡ ok r.port_pxe)
unfolding port_row
port_row-parts cfg i k j r h =
    let (a, ea, h1) = >>=-eq-ok (get_ntmpl_phyintf_ipmi_switch cfg i (some j)) _ h in
    let (b, eb, h2) = >>=-eq-ok (get_ntmpl_phyintf_pxe_switch cfg i (some j)) _ h1 in
    let (p, ep, h3) = >>=-eq-ok (get_ntmpl_phyintf_ipmi_ports cfg i j (some k)) _ h2 in
    let (q, eq, h4) = >>=-eq-ok (get_ntmpl_phyintf_pxe_ports cfg i j (some k)) _ h3 in
    let (d, _, h5) = >>=-eq-ok (get_ntmpl_phyintf_pxe_dev cfg i 0) _ h4 in
    let (n, _, h6) = >>=-eq-ok (get_ntmpl_phyintf_pxe_rename cfg i 0) _ h5 in
    let same = ok-injective h6 in
    (
      ea ∙ ap (λ x. ok x.switch_ipmi) same,
      eb ∙ ap (λ x. ok x.switch_pxe) same,
      ep ∙ ap (λ x. ok x.port_ipmi) same,
      eq ∙ ap (λ x. ok x.port_pxe) same,
    )

data_row-parts :
    (cfg : Value) (i k j : ℕ) (r : DataRow)
    → data_row cfg i k j ≡ ok r
    → (get_ntmpl_phyintf_data_switch cfg i (some j) ≡ ok r.switch)
      × (get_ntmpl_phyintf_data_ports cfg i j (some k) ≡ ok r.port)
unfolding data_row
data_row-parts cfg i k j r h =
    let (a, ea, h1) = >>=-eq-ok (get_ntmpl_phyintf_data_switch cfg i (some j)) _ h in
    let (p, ep, h2) = >>=-eq-ok (get_ntmpl_phyintf_data_ports cfg i j (some k)) _ h1 in
    let (d, _, h3) = >>=-eq-ok (get_ntmpl_phyintf_data_dev cfg i j) _ h2 in
    let (n, _, h4) = >>=-eq-ok (get_ntmpl_phyintf_data_rename cfg i j) _ h3 in
    let same = ok-injective h4 in (ea ∙ ap (λ x. ok x.switch) same, ep ∙ ap (λ x. ok x.port) same)

-- The wiring that the rows of a node give.
abbrev pub wiring_of : Value → List PortRow → List DataRow → Wiring
wiring_of label rows ds = record {
  label = label;
  ipmi_switches = column_of (λ (r : PortRow). r.switch_ipmi) rows;
  ipmi_ports = column_of (λ (r : PortRow). r.port_ipmi) rows;
  pxe_switches = column_of (λ (r : PortRow). r.switch_pxe) rows;
  pxe_ports = column_of (λ (r : PortRow). r.port_pxe) rows;
  data_switches = column_of (λ (r : DataRow). r.switch) ds;
  data_ports = column_of (λ (r : DataRow). r.port) ds;
}

pub wiring-runs :
    (cfg : Value) (i k : ℕ) (label : Value) (inds : List ℕ) (rows : List PortRow) (inds' : List ℕ)
    (ds : List DataRow)
    → get_ntmpl_label cfg (some i) ≡ ok label
    → yield_ntmpl_phyintf_ipmi_ind cfg i ≡ ok inds
    → each (port_row cfg i k) inds ≡ ok rows
    → yield_ntmpl_phyintf_data_ind cfg i ≡ ok inds'
    → each (data_row cfg i k) inds' ≡ ok ds
    → wiring cfg i k ≡ ok (wiring_of label rows ds)
unfolding wiring
wiring-runs cfg i k label inds rows inds' ds l is rs is' rs' =
    let part = port_row-parts cfg i k in
    let part' = data_row-parts cfg i k in
    rw l (
      rw is (
        rw is' (
          rw
            (values-map (port_row cfg i k) (λ j. get_ntmpl_phyintf_ipmi_switch cfg i (some j))
              (λ r. r.switch_ipmi) inds rows (λ j r e. (part j r e).0) rs)
            (rw
              (values-map (port_row cfg i k) (λ j. get_ntmpl_phyintf_ipmi_ports cfg i j (some k))
                (λ r. r.port_ipmi) inds rows (λ j r e. (part j r e).2) rs)
              (rw
                (values-map (port_row cfg i k) (λ j. get_ntmpl_phyintf_pxe_switch cfg i (some j))
                  (λ r. r.switch_pxe) inds rows (λ j r e. (part j r e).1) rs)
                (rw
                  (values-map (port_row cfg i k) (λ j. get_ntmpl_phyintf_pxe_ports cfg i j (some k))
                    (λ r. r.port_pxe) inds rows (λ j r e. (part j r e).3) rs)
                  (rw
                    (values-map (data_row cfg i k)
                      (λ j. get_ntmpl_phyintf_data_switch cfg i (some j)) (λ r. r.switch) inds' ds
                      (λ j r e. (part' j r e).0) rs')
                    (rw
                      (values-map (data_row cfg i k)
                        (λ j. get_ntmpl_phyintf_data_ports cfg i j (some k)) (λ r. r.port) inds' ds
                        (λ j r e. (part' j r e).1) rs')
                      refl))))))))
