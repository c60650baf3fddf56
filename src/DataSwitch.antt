-- ===== src/DataSwitch.antt =====
-- scripts/python/configure_data_switches.py: the trees of switches, ports and VLANs, and the calls
-- that the script makes of the switch objects.
pub mod PortVlans
pub mod Vlans
pub mod Mtus
pub mod PortGroups
pub mod Rows
pub mod Collected
pub mod Aggregate
pub mod Calls
pub mod Program
pub mod Traces
pub mod Hoare
pub mod Ordered
pub mod Once
pub mod Deconfigure
pub mod Channels
pub mod ChannelFacts
pub mod Pairs
use cluster_genesis.Base.{ℕ, List, Dict, Text}
use cluster_genesis.Base.Value.{Port}
use cluster_genesis.Switch.Commands.{PortMode, AllowOp}

-- Switches and, for each, VLANs and their ports; or port texts and their VLANs; or MTUs and ports.
abbrev pub VlanTree : Type 0
VlanTree = Dict Text (Dict ℕ (List Port))

abbrev pub PortTree : Type 0
PortTree = Dict Text (Dict Text (List ℕ))

abbrev pub MtuTree : Type 0
MtuTree = Dict Text (Dict ℕ (List Port))

-- The port groups of a switch: `zip(*lists)` is an iterator in Python 3, and a list in Python 2.
pub data Groups : Type 0 where
  zipped : List (List Text) → Groups
  listed_groups : List (List Text) → Groups

-- Switches and their port groups, by bond, node template and the switch that numbers the channels.
abbrev pub ChannelTree : Type 0
ChannelTree = Dict Text (Dict Text (Dict Text (Dict Text Groups)))

-- A call of a method of the switch with the label that comes first.
pub data Call : Type 0 where
  creates_vlan : Text → ℕ → Call
  deletes_vlan : Text → ℕ → Call
  sets_mode : Text → Text → PortMode → Call
  allows_vlans : Text → Text → AllowOp → List ℕ → Call
  sets_mtu : Text → Port → ℕ → Call
  creates_channel removes_channel : Text → ℕ → Call
  sets_channel_mode : Text → ℕ → PortMode → Call
  allows_channel_vlans : Text → ℕ → AllowOp → List ℕ → Call
  sets_channel_mtu : Text → ℕ → ℕ → Call
  removes_from_channels : Text → List Text → Call
  adds_to_channel : Text → List Text → ℕ → Call
  creates_mlag removes_mlag : Text → ℕ → Call
  sets_mlag_mode : Text → ℕ → PortMode → Call
  allows_mlag_vlans : Text → ℕ → AllowOp → List ℕ → Call
  sets_mlag_mtu : Text → ℕ → ℕ → Call
  binds_to_mlag : Text → List Text → ℕ → Call

-- The switches, of type `S`, and the calls so far, the last one first.
pub record World (S : Type 0) : Type 0 where
  pub calls : List Call
  pub switches : S
