-- ===== src/DataSwitch/Deconfigure.antt =====
-- How scripts/python/configure_data_switches.py takes the VLANs and the MTUs back.
use cluster_genesis.Base.{
  ℕ, true, false, List, [], ◌∷◌, ◌++◌, nat_eq, option_eq, contains, Text, text_eq, Dict, Result,
}
use cluster_genesis.Base.Value.{Port, port_eq}
use cluster_genesis.Exec.{Exec, ◌>>=◌, ◌>>◌, pure}
use cluster_genesis.DataSwitch.{
  PortTree, MtuTree, Call, World, deletes_vlan, sets_mode, allows_vlans,
}
use cluster_genesis.DataSwitch.Calls.{perform}
use cluster_genesis.DataSwitch.Program.{set_mtus}
use cluster_genesis.Switch.Commands.{access, remove}

module _ {S : Type 0} (handle : Call → S → Result (Unit {0}) × S) where
  unfoldable pub clear_ports : Text → Dict Text (List ℕ) → Exec (World S) (Unit {0})
  unfolding perform
  clear_ports switch [] = pure tt
  clear_ports switch ((port, vlans) ∷ rest) = do
    perform handle (allows_vlans switch port remove vlans)
    perform handle (sets_mode switch port access)
    clear_ports switch rest

  -- `Deconfigure switch vlans - first remove from ports`
  unfoldable pub clear_switches : PortTree → Exec (World S) (Unit {0})
  unfolding clear_ports
  clear_switches [] = pure tt
  clear_switches ((switch, ports) ∷ rest) = clear_ports switch ports >> clear_switches rest

  unfoldable pub delete_new : Text → List ℕ → List ℕ → Exec (World S) (List ℕ)
  unfolding perform
  delete_new switch vlans [] = pure vlans
  delete_new switch vlans (vlan ∷ rest) = elim (contains vlans vlan) [
    | true ↦ delete_new switch vlans rest
    | false ↦
        perform handle (deletes_vlan switch vlan) >> delete_new switch (vlans ++ vlan ∷ []) rest
  ]

  unfoldable pub delete_ports : Text → List ℕ → Dict Text (List ℕ) → Exec (World S) (Unit {0})
  unfolding delete_new
  delete_ports switch vlans [] = pure tt
  delete_ports switch vlans ((port, port_vlans) ∷ rest) =
      delete_new switch vlans port_vlans >>= λ vlans'. delete_ports switch vlans' rest

  -- `Delete the vlans`
  unfoldable pub delete_vlans : PortTree → Exec (World S) (Unit {0})
  unfolding delete_ports
  delete_vlans [] = pure tt
  delete_vlans ((switch, ports) ∷ rest) = delete_ports switch [] ports >> delete_vlans rest

  unfoldable pub reset_mtus : Text → Dict ℕ (List Port) → Exec (World S) (Unit {0})
  unfolding set_mtus
  reset_mtus switch [] = pure tt
  reset_mtus switch ((mtu, ports) ∷ rest) = set_mtus handle switch 0 ports >> reset_mtus switch rest

  -- `Deconfigure switch mtu`
  unfoldable pub clear_mtus : MtuTree → Exec (World S) (Unit {0})
  unfolding reset_mtus
  clear_mtus [] = pure tt
  clear_mtus ((switch, mtus) ∷ rest) = reset_mtus switch mtus >> clear_mtus rest
