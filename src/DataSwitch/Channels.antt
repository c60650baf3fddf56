-- ===== src/DataSwitch/Channels.antt =====
-- How scripts/python/configure_data_switches.py programs the port channels.
use cluster_genesis.Base.{
  ℕ, zero, suc, ◌+◌, true, false, Option, none, some, List, [], ◌∷◌, nat_eq, ◌==◌, option_eq,
  length, Text, text_eq, Dict, Result, item, type_error, err,
}
use cluster_genesis.Base.Value.{port_eq, num}
use cluster_genesis.Exec.{Exec, ◌>>=◌, ◌>>◌, pure, lift}
use cluster_genesis.DataSwitch.{
  PortTree, MtuTree, ChannelTree, Call, World, creates_channel, sets_channel_mode,
  allows_channel_vlans, sets_channel_mtu, removes_from_channels, adds_to_channel, creates_mlag,
  removes_mlag, Groups, zipped, listed_groups, sets_mlag_mode, allows_mlag_vlans, sets_mlag_mtu,
  binds_to_mlag,
}
use cluster_genesis.DataSwitch.Calls.{perform, try_switch}
use cluster_genesis.DataSwitch.PortVlans.{get_port_vlans, get_port_mtu, get_channel_num}
use cluster_genesis.Switch.Commands.{PortMode, access, trunk, add, none_allowed}

-- `if vlans`
unfoldable pub truthy : Option (List ℕ) → List ℕ
truthy none = []
truthy (some vlans) = vlans

unfoldable pub mode_for : List ℕ → PortMode
mode_for [] = access
mode_for (v ∷ vs) = trunk

-- `for grp in groups`; each of the script's loops over the groups of a switch is the first one.
abbrev pub iterated : Groups → List (List Text)
iterated (zipped grps) = grps
iterated (listed_groups grps) = grps

-- `groups[idx]`: a `zip` object has no items by index.
unfoldable pub group_at : Groups → ℕ → Result (List Text)
group_at (zipped grps) idx = err type_error
group_at (listed_groups grps) idx = item grps idx

module _ {S : Type 0} (handle : Call → S → Result (Unit {0}) × S) (port_vlans : PortTree)
    (mtu_list : MtuTree) where
  unfoldable pub allow_channel : Text → ℕ → List ℕ → Exec (World S) (Unit {0})
  unfolding perform
  allow_channel sw chan_num [] = pure tt
  allow_channel sw chan_num (v ∷ vs) =
      perform handle (allows_channel_vlans sw chan_num none_allowed [])
      >> perform handle (allows_channel_vlans sw chan_num add (v ∷ vs))

  unfoldable pub channel_mtu : Text → ℕ → Option ℕ → Exec (World S) (Unit {0})
  unfolding perform
  channel_mtu sw chan_num none = pure tt
  channel_mtu sw chan_num (some zero) = pure tt
  channel_mtu sw chan_num (some (suc mtu)) = perform handle (sets_channel_mtu sw chan_num (suc mtu))

  -- A port group of `Configure LAG`
  unfoldable pub program_lag : Text → List Text → Exec (World S) (Unit {0})
  unfolding get_channel_num perform get_port_vlans truthy mode_for get_port_mtu allow_channel
      channel_mtu try_switch
  program_lag sw port_grp = do
    chan_num ← lift (get_channel_num port_grp)
    perform handle (creates_channel sw chan_num)
    first ← lift (item port_grp 0)
    let vlans = truthy (get_port_vlans sw first port_vlans)
    perform handle (sets_channel_mode sw chan_num (mode_for vlans))
    allow_channel sw chan_num vlans
    channel_mtu sw chan_num (get_port_mtu sw (num chan_num) mtu_list)
    try_switch (
        perform handle (removes_from_channels sw port_grp)
        >> perform handle (adds_to_channel sw port_grp chan_num))

  unfoldable pub program_lags : Text → List (List Text) → Exec (World S) (Unit {0})
  unfolding program_lag
  program_lags sw [] = pure tt
  program_lags sw (port_grp ∷ groups) = program_lag sw port_grp >> program_lags sw groups

  unfoldable pub allow_mlag : Text → ℕ → List ℕ → Exec (World S) (Unit {0})
  unfolding perform
  allow_mlag sw chan_num [] = pure tt
  allow_mlag sw chan_num (v ∷ vs) =
      perform handle (allows_mlag_vlans sw chan_num none_allowed [])
      >> perform handle (allows_mlag_vlans sw chan_num add (v ∷ vs))

  unfoldable pub mlag_mtu : Text → ℕ → Option ℕ → Exec (World S) (Unit {0})
  unfolding perform
  mlag_mtu sw chan_num none = pure tt
  mlag_mtu sw chan_num (some zero) = pure tt
  mlag_mtu sw chan_num (some (suc mtu)) = perform handle (sets_mlag_mtu sw chan_num (suc mtu))

  -- A port group of an MLAG pair, with its index in the groups of the switch.
  unfoldable pub program_mlag : Text → Groups → ℕ → List Text → Exec (World S) (Unit {0})
  unfolding get_channel_num perform group_at get_port_vlans truthy mode_for get_port_mtu allow_mlag
      mlag_mtu try_switch
  program_mlag sw groups idx port_grp = do
    chan_num ← lift (get_channel_num port_grp)
    perform handle (removes_mlag sw chan_num)
    perform handle (creates_mlag sw chan_num)
    grp ← lift (group_at groups idx)
    vlan_port ← lift (item grp 0)
    let vlans = truthy (get_port_vlans sw vlan_port port_vlans)
    perform handle (sets_mlag_mode sw chan_num (mode_for vlans))
    allow_mlag sw chan_num vlans
    mlag_mtu sw chan_num (get_port_mtu sw (num chan_num) mtu_list)
    try_switch (perform handle (binds_to_mlag sw port_grp chan_num))

  unfoldable pub program_mlags : Text → Groups → ℕ → List (List Text) → Exec (World S) (Unit {0})
  unfolding program_mlag
  program_mlags sw groups idx [] = pure tt
  program_mlags sw groups idx (port_grp ∷ grps) =
      program_mlag sw groups idx port_grp >> program_mlags sw groups (idx + 1) grps

  unfoldable pub mlags_of : Text → Groups → Exec (World S) (Unit {0})
  unfolding program_mlags
  mlags_of sw groups = program_mlags sw groups 0 (iterated groups)

  unfoldable pub lags_of : Text → Groups → Exec (World S) (Unit {0})
  unfolding program_lags
  lags_of sw groups = program_lags sw (iterated groups)

  unfoldable pub each_switch :
      (Text → Groups → Exec (World S) (Unit {0})) → Dict Text Groups → Exec (World S) (Unit {0})
  each_switch f [] = pure tt
  each_switch f ((sw, groups) ∷ rest) = f sw groups >> each_switch f rest

  -- The switches that share their channels: two of them are an MLAG pair.
  unfoldable pub program_pair : Dict Text Groups → Exec (World S) (Unit {0})
  unfolding each_switch mlags_of lags_of
  program_pair peers = elim (length peers == 2) [
    | true ↦ each_switch mlags_of peers
    | false ↦ each_switch lags_of peers
  ]

  unfoldable pub each_value :
      {A : Type 0} → (A → Exec (World S) (Unit {0})) → Dict Text A → Exec (World S) (Unit {0})
  each_value f [] = pure tt
  each_value f ((k, a) ∷ rest) = f a >> each_value f rest

  -- `Configure port channels and MLAG port channels`
  unfoldable pub program_channels : ChannelTree → Exec (World S) (Unit {0})
  unfolding each_value program_pair
  program_channels chan_ports = each_value (each_value (each_value program_pair)) chan_ports
