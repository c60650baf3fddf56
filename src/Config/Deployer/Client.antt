-- ===== src/Config/Deployer/Client.antt =====
-- scripts/python/lib/config.py: the getters of `deployer: networks: client`.
use cluster_genesis.Base.{
  ℕ, Option, none, List, [], ◌∷◌, nat_eq, option_eq, codes, text_eq, Result, ◌>>=◌,
}
use cluster_genesis.Base.Value.{Value, port_eq}
use cluster_genesis.Config.Access.{path, iterate, len, get_members}
use cluster_genesis.Config.Masks.{Netaddr, netmasks, prefixes}

unfoldable get_depl_netw_client_cnt : Value → Result ℕ
get_depl_netw_client_cnt cfg = do
  members ← path cfg (codes "deployer" ∷ codes "networks" ∷ codes "client" ∷ [])
  len members

unfoldable get_depl_netw_client_type : Value → Option ℕ → Result Value
get_depl_netw_client_type cfg index = do
  obj_list ← path cfg (codes "deployer" ∷ codes "networks" ∷ codes "client" ∷ [])
  get_members obj_list (codes "type") index

unfoldable yield_depl_netw_client_type : Value → Result (List Value)
yield_depl_netw_client_type cfg = do members ← get_depl_netw_client_type cfg none; iterate members

unfoldable get_depl_netw_client_device : Value → Option ℕ → Result Value
get_depl_netw_client_device cfg index = do
  obj_list ← path cfg (codes "deployer" ∷ codes "networks" ∷ codes "client" ∷ [])
  get_members obj_list (codes "device") index

unfoldable yield_depl_netw_client_device : Value → Result (List Value)
yield_depl_netw_client_device cfg = do
  members ← get_depl_netw_client_device cfg none
  iterate members

unfoldable get_depl_netw_client_intf_ip : Value → Option ℕ → Result Value
get_depl_netw_client_intf_ip cfg index = do
  obj_list ← path cfg (codes "deployer" ∷ codes "networks" ∷ codes "client" ∷ [])
  get_members obj_list (codes "interface_ipaddr") index

unfoldable yield_depl_netw_client_intf_ip : Value → Result (List Value)
yield_depl_netw_client_intf_ip cfg = do
  members ← get_depl_netw_client_intf_ip cfg none
  iterate members

unfoldable pub get_depl_netw_client_cont_ip : Value → Option ℕ → Result Value
get_depl_netw_client_cont_ip cfg index = do
  obj_list ← path cfg (codes "deployer" ∷ codes "networks" ∷ codes "client" ∷ [])
  get_members obj_list (codes "container_ipaddr") index

unfoldable pub yield_depl_netw_client_cont_ip : Value → Result (List Value)
yield_depl_netw_client_cont_ip cfg = do
  members ← get_depl_netw_client_cont_ip cfg none
  iterate members

unfoldable pub get_depl_netw_client_brg_ip : Value → Option ℕ → Result Value
get_depl_netw_client_brg_ip cfg index = do
  obj_list ← path cfg (codes "deployer" ∷ codes "networks" ∷ codes "client" ∷ [])
  get_members obj_list (codes "bridge_ipaddr") index

unfoldable yield_depl_netw_client_brg_ip : Value → Result (List Value)
yield_depl_netw_client_brg_ip cfg = do
  members ← get_depl_netw_client_brg_ip cfg none
  iterate members

unfoldable get_depl_netw_client_netmask : Netaddr → Value → Option ℕ → Result Value
get_depl_netw_client_netmask net cfg index = do
  members ← path cfg (codes "deployer" ∷ codes "networks" ∷ codes "client" ∷ [])
  netmasks net members index

unfoldable pub get_depl_netw_client_prefix : Netaddr → Value → Option ℕ → Result Value
get_depl_netw_client_prefix net cfg index = do
  members ← path cfg (codes "deployer" ∷ codes "networks" ∷ codes "client" ∷ [])
  prefixes net members index

unfoldable yield_depl_netw_client_netmask : Netaddr → Value → Result (List Value)
yield_depl_netw_client_netmask net cfg = do
  members ← get_depl_netw_client_netmask net cfg none
  iterate members

unfoldable yield_depl_netw_client_prefix : Netaddr → Value → Result (List Value)
yield_depl_netw_client_prefix net cfg = do
  members ← get_depl_netw_client_prefix net cfg none
  iterate members
