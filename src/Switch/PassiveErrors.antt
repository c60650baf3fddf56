-- ===== src/Switch/PassiveErrors.antt =====
-- The methods of scripts/python/lib/switch_common.py that cannot work in passive mode: they use
-- the answer of an information request, which is None there.
use cluster_genesis.Base.{
  ℕ, ◌≡◌, refl, true, Option, none, [], ◌∷◌, ◌++◌, nat_eq, option_eq, Text, text_eq, type_error, ok,
  err,
}
use cluster_genesis.Base.Value.{Port, port_eq}
use cluster_genesis.Switch.{Session, Remote}
use cluster_genesis.Switch.Send.{is_passive, if_passive, send_cmd}
use cluster_genesis.Switch.Ports.{show_ports, set_switchport_mode}
use cluster_genesis.Switch.Interfaces.{last_item, show_interfaces, state_of, configure_interface}
use cluster_genesis.Switch.Commands.{PortMode, mode_cmd}
use cluster_genesis.Switch.Answers.{is_missing}

module _ {D : Type 0} (remote : Remote D) where
  written : Text → Session D → Session D
  written cmd s = record s { outfile = s.outfile ++ cmd ++ 10 ∷ [] }

  send_cmd_passive :
      (cmd : Text) (s : Session D)
      → is_passive s ≡ true
      → send_cmd remote cmd s ≡ (ok none, written cmd s)
  unfolding send_cmd written
  send_cmd_passive cmd s p = rw (p, send_cmd) refl

  show_ports_passive : (s : Session D) → is_passive s ≡ true → show_ports remote s ≡ (ok none, s)
  unfolding show_ports if_passive
  show_ports_passive s p = rw (p, if_passive) refl

  show_interfaces_passive :
      (netmask_of : Text → Text) (vlan host netmask : Text) (s : Session D)
      → is_passive s ≡ true
      → show_interfaces remote netmask_of vlan host netmask s ≡ (ok none, s)
  unfolding show_interfaces if_passive
  show_interfaces_passive netmask_of vlan host netmask s p = rw (p, if_passive) refl

  set_switchport_mode_passive :
      (port : Port) (mode : PortMode) (vlan : Option ℕ) (s : Session D)
      → is_passive s ≡ true
      → set_switchport_mode remote port mode vlan s
        ≡ (err type_error, written (mode_cmd port mode vlan) s)
  unfolding set_switchport_mode is_missing written is_passive
  set_switchport_mode_passive port mode vlan s p =
      rw
        (
          send_cmd_passive (mode_cmd port mode vlan) s p,
          show_ports_passive (written (mode_cmd port mode vlan) s) p,
        )
        refl

  configure_interface_passive :
      (netmask_of : Text → Text) (host netmask vlan : Text) (s : Session D)
      → is_passive s ≡ true
      → configure_interface remote netmask_of host netmask vlan s ≡ (err type_error, s)
  unfolding configure_interface state_of last_item
  configure_interface_passive netmask_of host netmask vlan s p =
      rw (show_interfaces_passive netmask_of vlan host netmask s p) refl

  -- In passive mode `set_switchport_mode` writes its command to the output file and then always
  -- raises a TypeError, and `configure_interface` raises a TypeError before it writes anything.
  pub passive_type_errors :
      (s : Session D) (port : Port) (mode : PortMode) (vlan : Option ℕ) (netmask_of : Text → Text)
      (host netmask number : Text)
      → is_passive s ≡ true
      → (set_switchport_mode remote port mode vlan s ≡ (
        err type_error,
        record s { outfile = s.outfile ++ mode_cmd port mode vlan ++ 10 ∷ [] },
      ))
        × (configure_interface remote netmask_of host netmask number s ≡ (err type_error, s))
  unfolding written
  passive_type_errors s port mode vlan netmask_of host netmask number p = (
    set_switchport_mode_passive port mode vlan s p,
    configure_interface_passive netmask_of host netmask number s p,
  )
