-- ===== src/Validate/Hosts.antt =====
-- scripts/python/lib/validate_config_logic.py: the lease time, the labels, the hosts that the
-- software bootstrap names and the operating systems' profiles. Labels and names are texts, and
-- roles a list, as the schema of the configuration has it. Digits are the ASCII ones.
-- `$` behind the optional unit: the end, or a line feed at the end.
use cluster_genesis.Base.{
  ℕ, zero, suc, ◌+◌, Bool, true, false, ◌&&◌, ◌||◌, none, some, List, [], ◌∷◌, ◌++◌, if◌then◌else◌,
  nat_eq, ◌==◌, option_eq, Text, codes, text_eq, Result, ◌>>=◌, user_exception, ok, err,
}
use cluster_genesis.Base.Value.{Value, port_eq, null, str}
use cluster_genesis.Base.Strings.{occurs, is_digit}
use cluster_genesis.Config.Access.{attr, iterate, as_text}
use cluster_genesis.Config.Globals.{get_globals_dhcp_lease_time, get_software_bootstrap}
use cluster_genesis.Config.Racks.{get_loc_racks_label}
use cluster_genesis.Config.Switches.Data.{get_sw_data_label}
use cluster_genesis.Config.Switches.Mgmt.{get_sw_mgmt_label}
use cluster_genesis.Config.Switches.Mlag.{in_values}
use cluster_genesis.Config.Templates.Lists.{get_ntmpl_label, yield_ntmpl_label}
use cluster_genesis.Config.Templates.Ifcs.{get_interfaces}
use cluster_genesis.Config.Templates.Ipmi.{yield_ntmpl_phyintf_ipmi_pt_ind}
use cluster_genesis.Config.Templates.Settings.{
  hostname_prefix, get_ntmpl_os_hostname_prefix, get_ntmpl_roles_cnt, get_ntmpl_roles,
}
use cluster_genesis.Items.PortRows.{host_name}
use cluster_genesis.Validate.Networks.{Message, gather, has_dash, undefined_host}

abbrev pub at_end : Text → Bool
at_end t = (t == []) || (t == (10 ∷ []))

-- `[mh]{0,1}$`
unfoldable pub unit_end : Text → Bool
unit_end [] = true
unit_end (c ∷ t) = if c == 109 || c == 104 then at_end t else at_end (c ∷ t)

-- `\d*[mh]{0,1}$`
unfoldable pub digits_end : Text → Bool
unfolding unit_end
digits_end [] = true
digits_end (c ∷ t) = let rest = digits_end t in if is_digit c then rest else unit_end (c ∷ t)

-- `\d+[mh]{0,1}$`, or "infinite".
unfoldable pub lease_time_ok : Text → Bool
unfolding digits_end
lease_time_ok [] = false
lease_time_ok (c ∷ t) = (is_digit c && digits_end t) || (c ∷ t) == codes "infinite"

unfoldable pub validate_dhcp_lease_time : Value → Result (Unit {0})
unfolding get_globals_dhcp_lease_time lease_time_ok
validate_dhcp_lease_time cfg = do
  dhcp_lease_time ← get_globals_dhcp_lease_time cfg
  if lease_time_ok dhcp_lease_time then ok tt else err user_exception

unfoldable pub dash_in : Value → Result (List Message)
unfolding as_text occurs
dash_in v = do label ← as_text v; ok (if occurs (codes "-") label then has_dash label ∷ [] else [])

unfoldable pub check_for_dashes : Value → Result (List Message)
unfolding gather dash_in
check_for_dashes labels = do members ← iterate labels; gather dash_in members

unfoldable pub check_interface_label : Value → Result (List Message)
unfolding gather dash_in
check_interface_label ifc = do label ← attr ifc (codes "label"); gather dash_in (label ∷ [])

unfoldable pub validate_labels : Value → Result (List Message)
unfolding get_ntmpl_label get_sw_data_label get_sw_mgmt_label get_loc_racks_label get_interfaces
    check_for_dashes check_interface_label gather
validate_labels cfg = do
  ntmpls ← get_ntmpl_label cfg none
  m1 ← check_for_dashes ntmpls
  data_switches ← get_sw_data_label cfg none
  m2 ← check_for_dashes data_switches
  mgmt_switches ← get_sw_mgmt_label cfg none
  m3 ← check_for_dashes mgmt_switches
  racks ← get_loc_racks_label cfg none
  m4 ← check_for_dashes racks
  found ← get_interfaces cfg
  ifcs ← iterate found
  m5 ← gather check_interface_label ifcs
  ok (m1 ++ m2 ++ m3 ++ m4 ++ m5)

-- The names of the hosts at the ports, which are counted from an index on.
unfoldable pub port_hosts : Value → ℕ → List ℕ → Result (List Value)
unfolding host_name
port_hosts hostname_prefix index_host [] = ok []
port_hosts hostname_prefix index_host (index_port ∷ ports) = do
  host ← host_name hostname_prefix index_host
  rest ← port_hosts hostname_prefix (index_host + 1) ports
  ok (host ∷ rest)

-- The prefix of the host names, or the label of the template.
unfoldable pub prefix_or_label : Value → ℕ → Result Value
unfolding get_ntmpl_os_hostname_prefix get_ntmpl_label
prefix_or_label cfg ntmpl_ind = get_ntmpl_os_hostname_prefix cfg (some ntmpl_ind) >>= λ v. elim v [
  | null ↦ get_ntmpl_label cfg (some ntmpl_ind)
  | w ↦ ok w
]

unfoldable pub template_hosts : Value → ℕ → Result (List Value)
unfolding prefix_or_label yield_ntmpl_phyintf_ipmi_pt_ind port_hosts
template_hosts cfg ntmpl_ind = do
  hostname_prefix ← prefix_or_label cfg ntmpl_ind
  ports ← yield_ntmpl_phyintf_ipmi_pt_ind cfg ntmpl_ind 0
  port_hosts hostname_prefix 0 ports

-- `valid_hosts + get_ntmpl_roles(ntmpl_ind)` if there are roles. That the sum becomes a set shows
-- only in the message.
unfoldable pub with_roles : Value → ℕ → List Value → Result (List Value)
unfolding get_ntmpl_roles_cnt get_ntmpl_roles
with_roles cfg ntmpl_ind valid_hosts = get_ntmpl_roles_cnt cfg ntmpl_ind >>= λ n. elim n [
  | zero ↦ ok valid_hosts
  | suc m ↦ do
    found ← get_ntmpl_roles cfg ntmpl_ind none
    roles ← iterate found
    ok (valid_hosts ++ roles)
]

unfoldable pub add_hosts : Value → ℕ → List Value → List Value → Result (List Value)
unfolding template_hosts with_roles
add_hosts cfg ntmpl_ind valid_hosts [] = ok valid_hosts
add_hosts cfg ntmpl_ind valid_hosts (ntmpl_label ∷ labels) = do
  hosts ← template_hosts cfg ntmpl_ind
  valid_hosts' ← with_roles cfg ntmpl_ind (valid_hosts ++ ntmpl_label ∷ hosts)
  add_hosts cfg (ntmpl_ind + 1) valid_hosts' labels

unfoldable pub get_valid_hosts : Value → Result (List Value)
unfolding yield_ntmpl_label add_hosts
get_valid_hosts cfg = do
  labels ← yield_ntmpl_label cfg
  add_hosts cfg 0 (str (codes "all") ∷ []) labels

unfoldable pub check_bootstrap : List Value → Value → Result (List Message)
unfolding in_values
check_bootstrap valid_hosts item' = do
  hosts ← attr item' (codes "hosts")
  ok (if in_values hosts valid_hosts then [] else undefined_host hosts valid_hosts ∷ [])

unfoldable pub validate_software_bootstrap : Value → Result (List Message)
unfolding get_valid_hosts get_software_bootstrap gather check_bootstrap
validate_software_bootstrap cfg = do
  valid_hosts ← get_valid_hosts cfg
  bs ← get_software_bootstrap cfg
  items ← iterate bs
  gather (check_bootstrap valid_hosts) items
