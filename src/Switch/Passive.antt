-- ===== src/Switch/Passive.antt =====
-- Every method of scripts/python/lib/switch_common.py in passive mode.
use cluster_genesis.Base.{nat_eq, option_eq, text_eq}
use cluster_genesis.Base.Value.{Port, port_eq}
use cluster_genesis.Switch.{Remote}
use cluster_genesis.Switch.Dry.{dry, Dry}
use cluster_genesis.Switch.Ports.{show_ports, show_native_vlan}

module _ {D : Type 0} (remote : Remote D) where
  show_ports-Dry : Dry (show_ports remote)
  unfolding show_ports
  show_ports-Dry = search dry

  show_native_vlan-Dry : (port : Port) → Dry (show_native_vlan remote port)
  unfolding show_native_vlan
  show_native_vlan-Dry port = search dry
