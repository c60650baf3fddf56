-- ===== src/Switch/Ports.antt =====
-- The port operations of scripts/python/lib/switch_common.py.
use cluster_genesis.Base.{
  ℕ, Bool, Option, none, some, ◌++◌, nat_eq, option_eq, Text, codes, text_eq, Dict,
}
use cluster_genesis.Base.Value.{Port, port_str, port_eq}
use cluster_genesis.Base.Strings.{occurs}
use cluster_genesis.Exec.{Exec, ◌>>=◌, ◌>>◌, pure, lift}
use cluster_genesis.Switch.{Session, Remote}
use cluster_genesis.Switch.Send.{send_cmd, if_passive, unless}
use cluster_genesis.Switch.Commands.{
  PortMode, mode_value, ifc_eth_cfg, set_mtu, access, trunk, mode_cmd,
}
use cluster_genesis.Switch.Answers.{
  PortInfo, answered, port_info, is_missing, port_table, verify_mode,
}

module _ {D : Type 0} (remote : Remote D) where
  unfoldable pub show_ports_raw : Exec (Session D) (Option Text)
  unfolding if_passive send_cmd
  show_ports_raw = if_passive none (send_cmd remote (codes "show interface brief"))

  -- `show_ports(format='std')`
  unfoldable pub show_ports : Exec (Session D) (Option (Dict Text PortInfo))
  unfolding if_passive send_cmd answered port_table
  show_ports = if_passive none (do
    brief ← send_cmd remote (codes "show interface brief")
    lines ← lift (answered brief)
    trunks ← send_cmd remote (codes "show interface trunk")
    items ← lift (answered trunks)
    lift (port_table lines items))

  unfoldable pub show_native_vlan : Port → Exec (Session D) (Option Text)
  unfolding if_passive show_ports port_info port_str
  show_native_vlan port =
      if_passive none (do
        ports ← show_ports
        info ← lift (port_info (port_str port) ports)
        pure (some info.nvlan))

  -- Whether a port's mode contains the text of a mode.
  unfoldable pub is_port_in : PortMode → Port → Exec (Session D) (Option Bool)
  unfolding if_passive show_ports port_info port_str mode_value occurs
  is_port_in mode port = if_passive none (do
    ports ← show_ports
    info ← lift (port_info (port_str port) ports)
    pure (some (occurs (mode_value mode) info.port_mode)))

  unfoldable pub is_port_in_trunk_mode : Port → Exec (Session D) (Option Bool)
  unfolding is_port_in
  is_port_in_trunk_mode port = is_port_in trunk port

  unfoldable pub is_port_in_access_mode : Port → Exec (Session D) (Option Bool)
  unfolding is_port_in
  is_port_in_access_mode port = is_port_in access port

  unfoldable pub set_switchport_mode : Port → PortMode → Option ℕ → Exec (Session D) (Unit {0})
  unfolding send_cmd mode_cmd show_ports is_missing port_info verify_mode port_str unless
  set_switchport_mode port mode vlan = do
    send_cmd remote (mode_cmd port mode vlan)
    ports ← show_ports
    missing ← lift (is_missing (port_str port) ports)
    unless missing
        (lift (port_info (port_str port) ports) >>= λ info. lift (verify_mode mode vlan info))

  unfoldable pub set_mtu_for_port : Port → ℕ → Exec (Session D) (Option Text)
  unfolding send_cmd ifc_eth_cfg set_mtu
  set_mtu_for_port port mtu = do
    send_cmd remote (ifc_eth_cfg port ++ codes ";shutdown")
    send_cmd remote (ifc_eth_cfg port ++ codes ";" ++ set_mtu mtu)
    send_cmd remote (ifc_eth_cfg port ++ codes ";no shutdown")
