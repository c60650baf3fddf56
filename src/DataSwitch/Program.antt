-- ===== src/DataSwitch/Program.antt =====
-- How scripts/python/configure_data_switches.py programs the VLANs and the MTUs.
use cluster_genesis.Base.{
  ℕ, true, false, List, [], ◌∷◌, ◌++◌, nat_eq, option_eq, contains, Text, text_eq, Dict, Result,
}
use cluster_genesis.Base.Value.{Port, port_eq}
use cluster_genesis.Exec.{Exec, ◌>>=◌, ◌>>◌, pure}
use cluster_genesis.DataSwitch.{
  Call, World, PortTree, MtuTree, creates_vlan, sets_mode, allows_vlans, sets_mtu,
}
use cluster_genesis.DataSwitch.Calls.{perform, try_switch}
use cluster_genesis.Switch.Commands.{trunk, add}

module _ {S : Type 0} (handle : Call → S → Result (Unit {0}) × S) where
  -- The VLANs of a port that were not created yet; returns all that were.
  unfoldable pub create_new : Text → List ℕ → List ℕ → Exec (World S) (List ℕ)
  unfolding perform
  create_new switch vlans [] = pure vlans
  create_new switch vlans (vlan ∷ rest) = elim (contains vlans vlan) [
    | true ↦ create_new switch vlans rest
    | false ↦
        perform handle (creates_vlan switch vlan) >> create_new switch (vlans ++ vlan ∷ []) rest
  ]

  unfoldable pub program_ports : Text → List ℕ → Dict Text (List ℕ) → Exec (World S) (Unit {0})
  unfolding create_new try_switch perform
  program_ports switch vlans [] = pure tt
  program_ports switch vlans ((port, port_vlans) ∷ rest) = do
    vlans' ← create_new switch vlans port_vlans
    try_switch (perform handle (sets_mode switch port trunk))
    try_switch (perform handle (allows_vlans switch port add port_vlans))
    program_ports switch vlans' rest

  -- `Program switch vlans`
  unfoldable pub program_vlans : PortTree → Exec (World S) (Unit {0})
  unfolding program_ports
  program_vlans [] = pure tt
  program_vlans ((switch, ports) ∷ rest) = program_ports switch [] ports >> program_vlans rest

  unfoldable pub set_mtus : Text → ℕ → List Port → Exec (World S) (Unit {0})
  unfolding perform
  set_mtus switch mtu [] = pure tt
  set_mtus switch mtu (port ∷ ports) =
      perform handle (sets_mtu switch port mtu) >> set_mtus switch mtu ports

  unfoldable pub set_switch_mtus : Text → Dict ℕ (List Port) → Exec (World S) (Unit {0})
  unfolding set_mtus
  set_switch_mtus switch [] = pure tt
  set_switch_mtus switch ((mtu, ports) ∷ rest) =
      set_mtus switch mtu ports >> set_switch_mtus switch rest

  -- `Program switch mtu`
  unfoldable pub program_mtus : MtuTree → Exec (World S) (Unit {0})
  unfolding set_switch_mtus
  program_mtus [] = pure tt
  program_mtus ((switch, mtus) ∷ rest) = set_switch_mtus switch mtus >> program_mtus rest
