-- ===== src/Config/Switches/MgmtPorts.antt =====
-- scripts/python/lib/config.py: the getters of the interfaces and links of a management switch.
use cluster_genesis.Base.{
  ℕ, Option, none, List, [], ◌∷◌, nat_eq, option_eq, codes, text_eq, Result, ◌>>=◌,
}
use cluster_genesis.Base.Value.{Value, port_eq}
use cluster_genesis.Config.Access.{path, iterate, get_index, get_members, except_attribute_error}

unfoldable get_sw_mgmt_interfaces_ip : Value → ℕ → Option ℕ → Result Value
get_sw_mgmt_interfaces_ip cfg switch_index index = do
  switches ← path cfg (codes "switches" ∷ codes "mgmt" ∷ [])
  switch ← get_index switches switch_index
  obj_list ← path switch (codes "interfaces" ∷ [])
  get_members obj_list (codes "ipaddr") index

unfoldable yield_sw_mgmt_interfaces_ip : Value → ℕ → Result (List Value)
yield_sw_mgmt_interfaces_ip cfg switch_index =
    except_attribute_error
      (do members ← get_sw_mgmt_interfaces_ip cfg switch_index none; iterate members)

unfoldable get_sw_mgmt_interfaces_vlan : Value → ℕ → Option ℕ → Result Value
get_sw_mgmt_interfaces_vlan cfg switch_index index = do
  switches ← path cfg (codes "switches" ∷ codes "mgmt" ∷ [])
  switch ← get_index switches switch_index
  obj_list ← path switch (codes "interfaces" ∷ [])
  get_members obj_list (codes "vlan") index

unfoldable get_sw_mgmt_interfaces_netmask : Value → ℕ → Option ℕ → Result Value
get_sw_mgmt_interfaces_netmask cfg switch_index index = do
  switches ← path cfg (codes "switches" ∷ codes "mgmt" ∷ [])
  switch ← get_index switches switch_index
  obj_list ← path switch (codes "interfaces" ∷ [])
  get_members obj_list (codes "netmask") index

unfoldable get_sw_mgmt_interfaces_port : Value → ℕ → Option ℕ → Result Value
get_sw_mgmt_interfaces_port cfg switch_index index = do
  switches ← path cfg (codes "switches" ∷ codes "mgmt" ∷ [])
  switch ← get_index switches switch_index
  obj_list ← path switch (codes "interfaces" ∷ [])
  get_members obj_list (codes "port") index

unfoldable get_sw_mgmt_links_ip : Value → ℕ → Option ℕ → Result Value
get_sw_mgmt_links_ip cfg switch_index index = do
  switches ← path cfg (codes "switches" ∷ codes "mgmt" ∷ [])
  switch ← get_index switches switch_index
  obj_list ← path switch (codes "links" ∷ [])
  get_members obj_list (codes "ipaddr") index

unfoldable yield_sw_mgmt_links_ip : Value → ℕ → Result (List Value)
yield_sw_mgmt_links_ip cfg switch_index =
    except_attribute_error
      (do members ← get_sw_mgmt_links_ip cfg switch_index none; iterate members)

unfoldable get_sw_mgmt_links_target : Value → ℕ → Option ℕ → Result Value
get_sw_mgmt_links_target cfg switch_index index = do
  switches ← path cfg (codes "switches" ∷ codes "mgmt" ∷ [])
  switch ← get_index switches switch_index
  obj_list ← path switch (codes "links" ∷ [])
  get_members obj_list (codes "target") index

unfoldable yield_sw_mgmt_links_target : Value → ℕ → Result (List Value)
yield_sw_mgmt_links_target cfg switch_index =
    except_attribute_error
      (do members ← get_sw_mgmt_links_target cfg switch_index none; iterate members)

unfoldable get_sw_mgmt_links_port : Value → ℕ → Option ℕ → Result Value
get_sw_mgmt_links_port cfg switch_index index = do
  switches ← path cfg (codes "switches" ∷ codes "mgmt" ∷ [])
  switch ← get_index switches switch_index
  obj_list ← path switch (codes "links" ∷ [])
  get_members obj_list (codes "ports") index

unfoldable get_sw_mgmt_links_vlan : Value → ℕ → Option ℕ → Result Value
get_sw_mgmt_links_vlan cfg switch_index index = do
  switches ← path cfg (codes "switches" ∷ codes "mgmt" ∷ [])
  switch ← get_index switches switch_index
  obj_list ← path switch (codes "links" ∷ [])
  get_members obj_list (codes "vlan") index
