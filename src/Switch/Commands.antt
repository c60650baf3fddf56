-- ===== src/Switch/Commands.antt =====
-- The command texts of scripts/python/lib/switch_common.py, and the values of its enumerations.
use cluster_genesis.Base.{
  ℕ, zero, suc, Option, none, some, [], ◌++◌, nat_eq, option_eq, Text, codes, text_eq,
}
use cluster_genesis.Base.Value.{show_nat, Port, port_str, port_eq}

pub data PortMode : Type 0 where
  access fex_fabric trunk hybrid trunk_native : PortMode

unfoldable pub mode_value : PortMode → Text
mode_value access = codes "access"
mode_value fex_fabric = codes "fex-fabric"
mode_value trunk = codes "trunk"
mode_value hybrid = []
mode_value trunk_native = []

pub data AllowOp : Type 0 where
  add all except none_allowed remove : AllowOp

unfoldable pub op_value : AllowOp → Text
op_value add = codes "add"
op_value all = codes "all"
op_value except = codes "except"
op_value none_allowed = codes "none"
op_value remove = codes "remove"

-- The command texts.
unfoldable pub ifc_eth_cfg : Port → Text
unfolding port_str
ifc_eth_cfg port = codes "interface ethernet " ++ port_str port ++ codes " "

unfoldable pub switchport_mode : PortMode → Text
unfolding mode_value
switchport_mode mode = codes "switchport mode " ++ mode_value mode ++ codes " "

unfoldable pub switchport_access_vlan : ℕ → Text
unfolding show_nat
switchport_access_vlan vlan = codes "switchport access vlan " ++ show_nat vlan ++ codes " "

unfoldable pub switchport_trunk_native_vlan : ℕ → Text
unfolding show_nat
switchport_trunk_native_vlan vlan =
    codes "switchport trunk native vlan " ++ show_nat vlan ++ codes " "

unfoldable pub switchport_trunk_allowed_vlan : AllowOp → Text → Text
unfolding op_value
switchport_trunk_allowed_vlan op vlans =
    codes "switchport trunk allowed vlan " ++ op_value op ++ codes " " ++ vlans

-- The part of a mode's command that sets the native VLAN.
unfoldable pub vlan_cmd : PortMode → Option ℕ → Text
unfolding switchport_trunk_native_vlan switchport_access_vlan
vlan_cmd mode none = []
vlan_cmd mode (some zero) = []
vlan_cmd trunk (some (suc vlan)) = codes ";" ++ switchport_trunk_native_vlan (suc vlan)
vlan_cmd access (some (suc vlan)) = codes ";" ++ switchport_access_vlan (suc vlan)
vlan_cmd mode (some (suc vlan)) = []

-- `NO_MTU` or `SET_MTU`
unfoldable pub set_mtu : ℕ → Text
unfolding show_nat
set_mtu zero = codes "no mtu"
set_mtu (suc mtu) = codes "mtu " ++ show_nat (suc mtu)

unfoldable pub ifc_port_ch_cfg : Port → Text
unfolding port_str
ifc_port_ch_cfg port = codes "interface port-channel " ++ port_str port ++ codes " "

unfoldable pub channel_group_mode : Port → Text → Text
unfolding port_str
channel_group_mode lag mode =
    codes "channel-group " ++ port_str lag ++ codes " mode " ++ mode ++ codes " "

-- The commands of `set_switchport_mode`; the VLANs `None` and 0 leave the native VLAN as it is.
unfoldable pub mode_cmd : Port → PortMode → Option ℕ → Text
unfolding ifc_eth_cfg switchport_mode vlan_cmd
mode_cmd port mode vlan =
    ifc_eth_cfg port ++ codes ";" ++ switchport_mode mode ++ vlan_cmd mode vlan

-- The part of a port channel's command that sets the native VLAN.
unfoldable pub native_cmd : Option ℕ → Text
unfolding switchport_trunk_native_vlan
native_cmd none = []
native_cmd (some zero) = []
native_cmd (some (suc nvlan)) = codes ";" ++ switchport_trunk_native_vlan (suc nvlan)
