-- ===== src/DataSwitch/Traces.antt =====
-- The order of the calls that program the VLANs in scripts/python/configure_data_switches.py.
use cluster_genesis.Base.{
  ℕ, ◌≡◌, Bool, true, false, ◌&&◌, ◌||◌, List, [], ◌∷◌, nat_eq, ◌==◌, option_eq, All, Text, text_eq,
}
use cluster_genesis.Base.Value.{port_eq}
use cluster_genesis.DataSwitch.{Call, creates_vlan, allows_vlans}

-- Whether the VLAN was created on the switch.
unfoldable pub made : Text → ℕ → List Call → Bool
made sw v [] = false
made sw v (creates_vlan sw' v' ∷ cs) = (sw' == sw && v' == v) || made sw v cs
made sw v (_ ∷ cs) = made sw v cs

-- A VLAN is created only if it was not before, and a port is allowed only created VLANs.
unfoldable pub Fine : Call → List Call → Type 0
unfolding made
Fine (creates_vlan sw v) cs = made sw v cs ≡ false
Fine (allows_vlans sw port op vs) cs = All (λ v. made sw v cs ≡ true) vs
Fine _ cs = Unit

-- Every call was fine when it was made.
unfoldable pub Good : List Call → Type 0
unfolding Fine
Good [] = Unit
Good (c ∷ cs) = Fine c cs × Good cs
