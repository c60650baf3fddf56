-- ===== src/Switch/Channels.antt =====
-- The port channels of scripts/python/lib/switch_common.py. What the methods only log is left out.
use cluster_genesis.Base.{
  ℕ, Option, List, [], ◌∷◌, ◌++◌, nat_eq, option_eq, Text, codes, text_eq, attribute_error,
}
use cluster_genesis.Base.Value.{Port, port_eq}
use cluster_genesis.Exec.{Exec, ◌>>=◌, ◌>>◌, pure, lift, raise}
use cluster_genesis.Switch.{Session, Remote}
use cluster_genesis.Switch.Send.{send_cmd}
use cluster_genesis.Switch.Commands.{
  PortMode, AllowOp, ifc_eth_cfg, switchport_mode, switchport_trunk_allowed_vlan, ifc_port_ch_cfg,
  channel_group_mode, native_cmd,
}
use cluster_genesis.Switch.Summary.{search_all, check_added}
use cluster_genesis.Switch.Allowed.{VlansArg, vlans_text}

module _ {D : Type 0} (remote : Remote D) where
  unfoldable pub enable_lacp : Exec (Session D) (Unit {0})
  unfolding send_cmd
  enable_lacp = send_cmd remote (codes "feature lacp") >> pure tt

  unfoldable pub clear_mac_address_table : Exec (Session D) (Unit {0})
  unfolding send_cmd
  clear_mac_address_table = send_cmd remote (codes "clear mac address-table dynamic") >> pure tt

  unfoldable pub show_port_channel_interfaces : Exec (Session D) (Option Text)
  unfolding send_cmd
  show_port_channel_interfaces = send_cmd remote (codes "show port-channel summary")

  unfoldable pub send_for_each : (Port → Text) → List Port → Exec (Session D) (Unit {0})
  unfolding send_cmd
  send_for_each f [] = pure tt
  send_for_each f (port ∷ ports) = send_cmd remote (f port) >> send_for_each f ports

  unfoldable pub remove_ports_from_port_channel_ifc : List Port → Exec (Session D) (Unit {0})
  unfolding send_for_each show_port_channel_interfaces ifc_eth_cfg search_all
  remove_ports_from_port_channel_ifc ports =
      send_for_each (λ port. ifc_eth_cfg port ++ codes ";no channel-group") ports
      >> (show_port_channel_interfaces >>= λ summary. lift (search_all ports summary))

  unfoldable pub remove_port_channel_ifc : Port → Exec (Session D) (Unit {0})
  unfolding send_cmd ifc_port_ch_cfg
  remove_port_channel_ifc lag = send_cmd remote (codes "no " ++ ifc_port_ch_cfg lag) >> pure tt

  unfoldable pub create_port_channel_ifc : Port → Exec (Session D) (Unit {0})
  unfolding send_cmd ifc_port_ch_cfg
  create_port_channel_ifc lag = send_cmd remote (ifc_port_ch_cfg lag) >> pure tt

  unfoldable pub set_port_channel_mode : Port → PortMode → Option ℕ → Exec (Session D) (Unit {0})
  unfolding send_cmd ifc_port_ch_cfg switchport_mode native_cmd
  set_port_channel_mode port_ch mode nvlan =
      send_cmd remote
        (ifc_port_ch_cfg port_ch ++ codes ";" ++ switchport_mode mode ++ native_cmd nvlan)
      >> pure tt

  unfoldable pub add_ports_to_port_channel_ifc :
      List Port → Port → Text → Exec (Session D) (Unit {0})
  unfolding send_for_each show_port_channel_interfaces ifc_eth_cfg channel_group_mode check_added
  add_ports_to_port_channel_ifc ports lag mode =
      send_for_each (λ port. ifc_eth_cfg port ++ codes ";" ++ channel_group_mode lag mode) ports
      >> (show_port_channel_interfaces >>= λ summary. lift (check_added ports summary))

  unfoldable pub allowed_vlans_port_channel :
      Port → AllowOp → VlansArg → Exec (Session D) (Unit {0})
  unfolding send_cmd ifc_port_ch_cfg switchport_trunk_allowed_vlan vlans_text
  allowed_vlans_port_channel port operation vlans =
      send_cmd remote (
        ifc_port_ch_cfg port
        ++ codes ";"
        ++ switchport_trunk_allowed_vlan operation (vlans_text vlans))
      >> pure tt

  -- The method needs the attribute LAG_PORT_CHANNEL, which the class and its subclasses lack.
  unfoldable pub set_mtu_for_port_channel : Port → ℕ → Exec (Session D) (Unit {0})
  set_mtu_for_port_channel port mtu = raise attribute_error
