-- ===== src/Config/Switches/DataPorts.antt =====
-- scripts/python/lib/config.py: the getters of the interfaces and links of a data switch.
use cluster_genesis.Base.{
  ℕ, Option, none, List, [], ◌∷◌, nat_eq, option_eq, codes, text_eq, Result, ◌>>=◌,
}
use cluster_genesis.Base.Value.{Value, port_eq}
use cluster_genesis.Config.Access.{
  path, iterate, get_index, get_members, except_attribute_error, except_type_error,
}
use cluster_genesis.Config.Masks.{Netaddr, netmasks, prefixes}

unfoldable get_sw_data_interfaces_ip : Value → ℕ → Option ℕ → Result Value
get_sw_data_interfaces_ip cfg switch_index index = do
  switches ← path cfg (codes "switches" ∷ codes "data" ∷ [])
  switch ← get_index switches switch_index
  obj_list ← path switch (codes "interfaces" ∷ [])
  get_members obj_list (codes "ipaddr") index

unfoldable yield_sw_data_interfaces_ip : Value → ℕ → Result (List Value)
yield_sw_data_interfaces_ip cfg switch_index =
    except_attribute_error
      (do members ← get_sw_data_interfaces_ip cfg switch_index none; iterate members)

unfoldable pub get_sw_data_links_target : Value → ℕ → Option ℕ → Result Value
get_sw_data_links_target cfg switch_index index = do
  switches ← path cfg (codes "switches" ∷ codes "data" ∷ [])
  switch ← get_index switches switch_index
  obj_list ← path switch (codes "links" ∷ [])
  get_members obj_list (codes "target") index

unfoldable pub yield_sw_data_links_target : Value → ℕ → Result (List Value)
yield_sw_data_links_target cfg switch_index =
    except_type_error (do members ← get_sw_data_links_target cfg switch_index none; iterate members)

unfoldable get_sw_data_links_port : Value → ℕ → Option ℕ → Result Value
get_sw_data_links_port cfg switch_index index = do
  switches ← path cfg (codes "switches" ∷ codes "data" ∷ [])
  switch ← get_index switches switch_index
  obj_list ← path switch (codes "links" ∷ [])
  get_members obj_list (codes "ports") index

unfoldable pub get_sw_data_links_ip : Value → ℕ → Option ℕ → Result Value
get_sw_data_links_ip cfg switch_index index = do
  switches ← path cfg (codes "switches" ∷ codes "data" ∷ [])
  switch ← get_index switches switch_index
  obj_list ← path switch (codes "links" ∷ [])
  get_members obj_list (codes "ipaddr") index

unfoldable get_sw_data_links_prefix : Netaddr → Value → ℕ → Option ℕ → Result Value
get_sw_data_links_prefix net cfg switch_index index = do
  switches ← path cfg (codes "switches" ∷ codes "data" ∷ [])
  switch ← get_index switches switch_index
  members ← path switch (codes "links" ∷ [])
  prefixes net members index

unfoldable get_sw_data_links_netmask : Netaddr → Value → ℕ → Option ℕ → Result Value
get_sw_data_links_netmask net cfg switch_index index = do
  switches ← path cfg (codes "switches" ∷ codes "data" ∷ [])
  switch ← get_index switches switch_index
  members ← path switch (codes "links" ∷ [])
  netmasks net members index

unfoldable pub get_sw_data_links_vlan : Value → ℕ → Option ℕ → Result Value
get_sw_data_links_vlan cfg switch_index index = do
  switches ← path cfg (codes "switches" ∷ codes "data" ∷ [])
  switch ← get_index switches switch_index
  obj_list ← path switch (codes "links" ∷ [])
  get_members obj_list (codes "vlan") index

unfoldable get_sw_data_links_vip : Value → ℕ → Option ℕ → Result Value
get_sw_data_links_vip cfg switch_index index = do
  switches ← path cfg (codes "switches" ∷ codes "data" ∷ [])
  switch ← get_index switches switch_index
  obj_list ← path switch (codes "links" ∷ [])
  get_members obj_list (codes "vip") index

unfoldable yield_sw_data_links_prefix : Netaddr → Value → ℕ → Result (List Value)
yield_sw_data_links_prefix net cfg switch_index = do
  members ← get_sw_data_links_netmask net cfg switch_index none
  iterate members

unfoldable yield_sw_data_links_netmask : Netaddr → Value → ℕ → Result (List Value)
yield_sw_data_links_netmask net cfg switch_index = do
  members ← get_sw_data_links_netmask net cfg switch_index none
  iterate members
