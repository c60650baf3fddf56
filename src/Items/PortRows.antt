-- ===== src/Items/PortRows.antt =====
-- scripts/python/lib/inv_items.py: what `create_nodes` reads for a node, and its local lists.
-- What one round over the IPMI interfaces appends to the local lists.
use cluster_genesis.Base.{
  ℕ, ◌+◌, some, List, ◌++◌, map, nat_eq, option_eq, codes, text_eq, Result, ◌>>=◌, ok,
}
use cluster_genesis.Base.Value.{Value, show_nat, port_eq, str, list}
use cluster_genesis.Config.Access.{to_values, as_text}
use cluster_genesis.Config.Templates.Pxe.{get_ntmpl_phyintf_pxe_switch, get_ntmpl_phyintf_pxe_ports}
use cluster_genesis.Config.Templates.Ipmi.{
  get_ntmpl_phyintf_ipmi_switch, get_ntmpl_phyintf_ipmi_ports,
}
use cluster_genesis.Config.Templates.Data.{
  get_ntmpl_phyintf_data_switch, get_ntmpl_phyintf_data_ports,
}
use cluster_genesis.Config.Templates.Settings.{
  get_ntmpl_phyintf_data_dev, get_ntmpl_phyintf_pxe_dev, get_ntmpl_phyintf_pxe_rename,
  get_ntmpl_phyintf_data_rename,
}
use cluster_genesis.Config.Switches.Labels.{get_sw_mgmt_index_by_label}
use cluster_genesis.Config.Switches.Mgmt.{get_sw_mgmt_rack_id}

pub record PortRow : Type 0 where
  pub switch_ipmi : Value
  pub switch_pxe : Value
  pub port_ipmi : Value
  pub port_pxe : Value
  pub device_pxe : Value
  pub rename_pxe : Value

pub record DataRow : Type 0 where
  pub switch : Value
  pub port : Value
  pub device : Value
  pub rename : Value

-- The device and `rename` are those of the first PXE interface in every round.
unfoldable pub port_row : Value → ℕ → ℕ → ℕ → Result PortRow
unfolding get_ntmpl_phyintf_ipmi_switch get_ntmpl_phyintf_pxe_switch get_ntmpl_phyintf_ipmi_ports
    get_ntmpl_phyintf_pxe_ports get_ntmpl_phyintf_pxe_dev get_ntmpl_phyintf_pxe_rename
port_row cfg index_ntmplt index_port index_ipmi = do
  switch_ipmi ← get_ntmpl_phyintf_ipmi_switch cfg index_ntmplt (some index_ipmi)
  switch_pxe ← get_ntmpl_phyintf_pxe_switch cfg index_ntmplt (some index_ipmi)
  port_ipmi ← get_ntmpl_phyintf_ipmi_ports cfg index_ntmplt index_ipmi (some index_port)
  port_pxe ← get_ntmpl_phyintf_pxe_ports cfg index_ntmplt index_ipmi (some index_port)
  device_pxe ← get_ntmpl_phyintf_pxe_dev cfg index_ntmplt 0
  rename_pxe ← get_ntmpl_phyintf_pxe_rename cfg index_ntmplt 0
  ok (record {
    switch_ipmi = switch_ipmi;
    switch_pxe = switch_pxe;
    port_ipmi = port_ipmi;
    port_pxe = port_pxe;
    device_pxe = device_pxe;
    rename_pxe = rename_pxe;
  })

unfoldable pub data_row : Value → ℕ → ℕ → ℕ → Result DataRow
unfolding get_ntmpl_phyintf_data_switch get_ntmpl_phyintf_data_ports get_ntmpl_phyintf_data_dev
    get_ntmpl_phyintf_data_rename
data_row cfg index_ntmplt index_port index_data = do
  switch ← get_ntmpl_phyintf_data_switch cfg index_ntmplt (some index_data)
  port ← get_ntmpl_phyintf_data_ports cfg index_ntmplt index_data (some index_port)
  device ← get_ntmpl_phyintf_data_dev cfg index_ntmplt index_data
  rename ← get_ntmpl_phyintf_data_rename cfg index_ntmplt index_data
  ok (record { switch = switch; port = port; device = device; rename = rename })

-- A local list, with the value of each round.
abbrev pub column_of : {A : Type 0} → (A → Value) → List A → Value
column_of f rows = list (to_values (map f rows))

-- `hostname + '-' + str(index_host + 1)`
unfoldable pub host_name : Value → ℕ → Result Value
unfolding as_text show_nat
host_name hostname index_host = do
  prefix ← as_text hostname
  ok (str (prefix ++ (codes "-" ++ show_nat (index_host + 1))))

-- `get_sw_mgmt_rack_id(None)`, where no switch has the label, is the list of all.
unfoldable pub rack_of : Value → ℕ → Result Value
unfolding as_text get_ntmpl_phyintf_ipmi_switch get_sw_mgmt_index_by_label get_sw_mgmt_rack_id
rack_of cfg index_ntmplt = do
  found ← get_ntmpl_phyintf_ipmi_switch cfg index_ntmplt (some 0)
  switch_label ← as_text found
  switch_index ← get_sw_mgmt_index_by_label cfg switch_label
  get_sw_mgmt_rack_id cfg switch_index
