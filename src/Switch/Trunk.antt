-- ===== src/Switch/Trunk.antt =====
-- The commands on the VLANs of a trunk port of scripts/python/lib/switch_common.py. What the
-- methods only log is left out.
use cluster_genesis.Base.{Bool, Option, none, ◌++◌, nat_eq, option_eq, Text, codes, text_eq}
use cluster_genesis.Base.Value.{Port, port_str, port_eq}
use cluster_genesis.Exec.{Exec, ◌>>=◌, ◌>>◌, pure, lift}
use cluster_genesis.Switch.{Session, Remote}
use cluster_genesis.Switch.Send.{send_cmd, if_passive}
use cluster_genesis.Switch.Commands.{AllowOp, ifc_eth_cfg, switchport_trunk_allowed_vlan}
use cluster_genesis.Switch.Allowed.{VlansArg, vlans_text, allowed_in}
use cluster_genesis.Switch.Ports.{show_ports}

module _ {D : Type 0} (remote : Remote D) where
  unfoldable pub is_vlan_allowed_for_port : Text → Port → Exec (Session D) (Option Bool)
  unfolding if_passive show_ports allowed_in port_str
  is_vlan_allowed_for_port vlans port =
      if_passive none
        ((do ports ← show_ports remote; lift (allowed_in vlans (port_str port) ports)))

  -- Only the log depends on the answer of the check.
  unfoldable pub allowed_vlans_port : Port → AllowOp → VlansArg → Exec (Session D) (Unit {0})
  unfolding send_cmd ifc_eth_cfg switchport_trunk_allowed_vlan vlans_text is_vlan_allowed_for_port
  allowed_vlans_port port operation vlans = do
    send_cmd remote (
        ifc_eth_cfg port ++ codes ";" ++ switchport_trunk_allowed_vlan operation (vlans_text vlans))
    is_vlan_allowed_for_port (vlans_text vlans) port
    pure tt
