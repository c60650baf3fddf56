-- ===== src/Config/Globals.antt =====
-- scripts/python/lib/config.py: the `globals` section, the deployer's gateway and container address,
-- and the software that is installed at the end.
use cluster_genesis.Base.{
  ℕ, Bool, true, false, Option, none, some, List, [], ◌∷◌, if◌then◌else◌, nat_eq, option_eq, Text,
  codes, text_eq, Result, ◌>>=◌, attribute_error, type_error, ok, err,
}
use cluster_genesis.Base.Value.{
  Value, show_nat, port_eq, null, bool, int, str, list, dict, nil, end,
}
use cluster_genesis.Config.Access.{
  to_values, attr, get_key, iterate, is_str, key_in, path, get_members,
}
use cluster_genesis.Config.Deployer.Mgmt.{yield_depl_netw_mgmt_cont_ip}
use cluster_genesis.Config.Deployer.Client.{yield_depl_netw_client_cont_ip}

-- `except AttributeError: return default`
unfoldable pub otherwise : {A : Type 0} → A → Result A → Result A
otherwise default (err attribute_error) = ok default
otherwise default r = r

unfoldable pub get_globals_env_variables : Value → Result Value
unfolding otherwise
get_globals_env_variables cfg =
    otherwise (dict end) (path cfg (codes "globals" ∷ codes "env_variables" ∷ []))

-- `str(v)` of a scalar; the schema of the configuration has no list or dict where it is used.
unfoldable pub value_str : Value → Result Text
unfolding show_nat
value_str null = ok (codes "None")
value_str (bool true) = ok (codes "True")
value_str (bool false) = ok (codes "False")
value_str (int n) = ok (show_nat n)
value_str (str s) = ok s
value_str _ = err type_error

unfoldable pub get_globals_dhcp_lease_time : Value → Result Text
unfolding otherwise value_str
get_globals_dhcp_lease_time cfg =
    otherwise (codes "1h") (path cfg (codes "globals" ∷ codes "dhcp_lease_time" ∷ []) >>= value_str)

-- `if mode == 'passive'` behind the read of the mode.
unfoldable pub passive_mode : Value → Text → Result Bool
unfolding otherwise
passive_mode cfg key =
    otherwise false
      (path cfg (codes "globals" ∷ key ∷ []) >>= λ mode. ok (is_str (codes "passive") mode))

unfoldable pub is_passive_mgmt_switches : Value → Result Bool
unfolding passive_mode
is_passive_mgmt_switches cfg = passive_mode cfg (codes "switch_mode_mgmt")

unfoldable pub is_passive_data_switches : Value → Result Bool
unfolding passive_mode
is_passive_data_switches cfg = passive_mode cfg (codes "switch_mode_data")

unfoldable pub get_depl_gateway : Value → Result Value
unfolding otherwise
get_depl_gateway cfg = otherwise (bool false) (path cfg (codes "deployer" ∷ codes "gateway" ∷ []))

-- The first address that is not `None`, or no return.
unfoldable pub first_ip : List Value → Value
first_ip [] = null
first_ip (null ∷ ips) = first_ip ips
first_ip (ip ∷ ips) = ip

-- The generator over the client networks runs only if the management networks have no address.
unfoldable pub get_depl_netw_cont_ip : Value → Result Value
unfolding yield_depl_netw_mgmt_cont_ip yield_depl_netw_client_cont_ip first_ip
get_depl_netw_cont_ip cfg = yield_depl_netw_mgmt_cont_ip cfg >>= λ mgmt. elim (first_ip mgmt) [
  | null ↦ yield_depl_netw_client_cont_ip cfg >>= λ client. ok (first_ip client)
  | ip ↦ ok ip
]

-- The networks of a type, in their order.
unfoldable pub of_type : Text → List Value → Result (List Value)
of_type if_type [] = ok []
of_type if_type (network ∷ networks) = do
  type' ← attr network (codes "type")
  rest ← of_type if_type networks
  ok (if is_str if_type type' then network ∷ rest else rest)

unfoldable pub get_depl_netw_client_vlan : Value → Option ℕ → Option Text → Result Value
unfolding of_type
get_depl_netw_client_vlan cfg index none = do
  network_list ← path cfg (codes "deployer" ∷ codes "networks" ∷ codes "client" ∷ [])
  get_members network_list (codes "vlan") index
get_depl_netw_client_vlan cfg index (some if_type) = do
  client ← path cfg (codes "deployer" ∷ codes "networks" ∷ codes "client" ∷ [])
  networks ← iterate client
  network_list ← of_type if_type networks
  get_members (list (to_values network_list)) (codes "vlan") index

unfoldable pub yield_depl_netw_client_vlan : Value → Option Text → Result (List Value)
unfolding get_depl_netw_client_vlan
yield_depl_netw_client_vlan cfg if_type = do
  members ← get_depl_netw_client_vlan cfg none if_type
  iterate members

unfoldable pub get_software_bootstrap : Value → Result Value
get_software_bootstrap cfg = do
  found ← key_in (codes "software_bootstrap") cfg
  elim found [ true ↦ get_key cfg (codes "software_bootstrap") | false ↦ ok (list nil) ]
