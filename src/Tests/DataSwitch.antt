-- ===== src/Tests/DataSwitch.antt =====
-- The theorems on the configuration of the data switches at concrete inputs.
use cluster_genesis.Base.{
  ℕ, suc, ◌≤◌, ◌≡◌, refl, ◌≢◌, true, none, List, [], ◌∷◌, nat_eq, option_eq, All, contains, Text,
  codes, text_beq, text_eq, keys, Result, switch_exception, ok, err,
}
use cluster_genesis.Base.Value.{port_eq, num, name}
use cluster_genesis.DataSwitch.PortGroups.{heads, zip_with_rows, zip_all}
use cluster_genesis.DataSwitch.{VlanTree, PortTree, MtuTree, Call, sets_mode, zipped}
use cluster_genesis.DataSwitch.Program.{program_vlans}
use cluster_genesis.DataSwitch.Once.{Distinct, program_vlans_ordered}
use cluster_genesis.DataSwitch.PortVlans.{
  subtree, by_port, get_port_vlans, get_port_mtu, last_segment, port_numbers, get_channel_num,
}
use cluster_genesis.DataSwitch.Channels.{program_pair}
use cluster_genesis.DataSwitch.ChannelFacts.{
  get_channel_num_least, all_names, all_named, get_port_mtu-none,
}
use cluster_genesis.DataSwitch.Pairs.{program_pair_raises}
use cluster_genesis.DataSwitch.Aggregate.{vlans_of, if_any, by_port_correct}
use cluster_genesis.DataSwitch.Traces.{Good}
use cluster_genesis.DataSwitch.Ordered.{Other}
use cluster_genesis.Base.Strings.{on_head, split, digits, int_of}
use cluster_genesis.Switch.Allowed.{last_of}

-- Switches that never get a port into trunk mode.
handle : Call → ℕ → Result (Unit {0}) × ℕ
handle (sets_mode sw port mode) n = (err switch_exception, suc n)
handle c n = (ok tt, suc n)

abbrev tree : PortTree
tree =
    (codes "leaf1", (codes "1", 5 ∷ 6 ∷ []) ∷ (codes "2", 6 ∷ 7 ∷ []) ∷ [])
    ∷ (codes "leaf2", (codes "1", 5 ∷ []) ∷ [])
    ∷ []

tree-Distinct : Distinct (keys tree)
unfolding Distinct Other text_beq
tree-Distinct = ((refl, tt), (tt, tt))

program_vlans_ordered_example :
    Good (program_vlans handle tree (record { calls = []; switches = 0 })).1.calls
program_vlans_ordered_example = program_vlans_ordered handle tree 0 tree-Distinct

abbrev vlan_list : VlanTree
vlan_list =
    (codes "leaf1", (5, num 1 ∷ num 2 ∷ []) ∷ (6, name (codes "1") ∷ []) ∷ [])
    ∷ (codes "leaf2", (7, num 1 ∷ []) ∷ [])
    ∷ []

by_port_correct_example :
    get_port_vlans (codes "leaf1") (codes "1") (by_port vlan_list)
    ≡ if_any (vlans_of (codes "leaf1") (codes "1") vlan_list)
by_port_correct_example = by_port_correct (codes "leaf1") (codes "1") vlan_list

abbrev group : List Text
group = codes "1/12" ∷ codes "1/5" ∷ codes "9" ∷ []

group_numbers : port_numbers group ≡ ok (12 ∷ 5 ∷ 9 ∷ [])
unfolding port_numbers last_segment last_of split on_head int_of digits
group_numbers = refl

get_channel_num_least_example :
    (m : ℕ) × (get_channel_num group ≡ ok m)
    × (contains (12 ∷ 5 ∷ 9 ∷ []) m ≡ true)
    × All (λ k. m ≤ k) (12 ∷ 5 ∷ 9 ∷ [])
get_channel_num_least_example = get_channel_num_least group 12 (5 ∷ 9 ∷ []) group_numbers

abbrev mtu_list : MtuTree
mtu_list = (codes "leaf1", (9000, name (codes "1/5") ∷ name (codes "1/12") ∷ []) ∷ []) ∷ []

mtu_list_named : all_named (subtree (codes "leaf1") mtu_list) ≡ true
unfolding all_named all_names subtree text_beq
mtu_list_named = refl

get_port_mtu-none_example : get_port_mtu (codes "leaf1") (num 5) mtu_list ≡ none
get_port_mtu-none_example = get_port_mtu-none (codes "leaf1") 5 mtu_list mtu_list_named

abbrev rows : List (List Text)
rows = (codes "1/12" ∷ codes "1/13" ∷ []) ∷ (codes "1/5" ∷ codes "1/6" ∷ []) ∷ []

abbrev later_groups : List (List Text)
later_groups = (codes "1/13" ∷ codes "1/6" ∷ []) ∷ []

rows_zipped : zip_all rows ≡ zipped ((codes "1/12" ∷ codes "1/5" ∷ []) ∷ later_groups)
unfolding zip_all zip_with_rows heads
rows_zipped = refl

program_pair_raises_example :
    (program_pair handle tree mtu_list
      ((codes "leaf1", zip_all rows) ∷ (codes "leaf2", zip_all rows) ∷ [])
      (record { calls = []; switches = 0 })).0
    ≢ ok tt
program_pair_raises_example =
    program_pair_raises handle tree mtu_list (codes "leaf1") (codes "leaf2") rows
      (codes "1/12" ∷ codes "1/5" ∷ []) later_groups (zip_all rows)
      (record { calls = []; switches = 0 }) rows_zipped
