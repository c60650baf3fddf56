-- ===== src/Tests/Switch.antt =====
-- The theorems on the switch commands at concrete inputs.
use cluster_genesis.Base.{
  ℕ, ◌<◌, ◌≡◌, refl, ◌⊎◌, true, false, some, [], ◌∷◌, ◌++◌, nat_eq, option_eq, codes, text_beq,
  text_eq, switch_exception, type_error, ok, err,
}
use cluster_genesis.Base.Value.{Port, port_eq, name}
use cluster_genesis.Switch.{Session}
use cluster_genesis.Tests.Device.{
  Stage, grow, change, vlans, brief, semi_to_newline, answer, reports, bare, host, netmask,
  netmask_of, remote, drop_last, unwrap,
}
use cluster_genesis.Switch.Send.{
  is_passive, unless, require, if_passive, acquire, enable_remote_config, deliver, send_cmd,
}
use cluster_genesis.Switch.Created.{listed, behind}
use cluster_genesis.Switch.Reports.{Now, Ends}
use cluster_genesis.Switch.Vlans.{
  any_starts, lists_vlan, create_vlan, delete_vlan, is_vlan_created, unless_created,
}
use cluster_genesis.Base.Strings.{strip_prefix, starts_with, on_head, split, split_on}
use cluster_genesis.Switch.Interfaces.{
  set_interface, state_of, configure_interface, is_same, names_vlan, read_ifcs, look_for, last_item,
  show_each, show_interfaces,
}
use cluster_genesis.Switch.Promises.{configure_interface_again}
use cluster_genesis.Switch.Ports.{set_switchport_mode}
use cluster_genesis.Switch.Commands.{mode_cmd, trunk}
use cluster_genesis.Switch.Prefixes.{vlan_prefix}
use cluster_genesis.Switch.PassiveErrors.{passive_type_errors}
use cluster_genesis.Base.Regex.{search, group_at, findall}
use cluster_genesis.Switch.Answers.{answered}
use cluster_genesis.Switch.Locking.{First, before_attempt, attempt, send_cmd_delivers, Delivered}

passive_session : Session Stage
passive_session = record { mode = codes "passive"; outfile = []; device = bare }

active_session : Stage → Session Stage
active_session v = record { mode = codes "active"; outfile = []; device = v }

is_now : (v : Stage) → Now reports (active_session v) v
unfolding active_session
is_now v = record { is_active = refl; viewed = refl }

passive_is_passive : is_passive passive_session ≡ true
unfolding is_passive passive_session text_beq
passive_is_passive = refl

active_is_active : is_passive (active_session bare) ≡ false
unfolding is_passive active_session text_beq
active_is_active = refl

deleted_lists_lab :
    listed reports (codes "50") (behind reports (codes "no vlan ") (codes "5") bare) ≡ true
unfolding listed lists_vlan any_starts starts_with strip_prefix behind change grow answer vlans
    brief semi_to_newline text_beq split on_head set_interface
deleted_lists_lab = refl

created_lists_lab :
    listed reports (codes "50") (behind reports (codes "vlan ") (codes "5") bare) ≡ true
unfolding listed lists_vlan any_starts starts_with strip_prefix behind change grow answer vlans
    brief semi_to_newline text_beq split on_head set_interface
created_lists_lab = refl

vlan_prefix_example :
    ((delete_vlan remote (codes "5") (active_session bare)).0 ≡ err switch_exception)
    × ((create_vlan remote (codes "5") (active_session bare)).0 ≡ ok tt)
vlan_prefix_example =
    vlan_prefix reports (codes "5") (codes "0") (active_session bare) bare (is_now bare)
      deleted_lists_lab created_lists_lab

after_first : Session Stage
after_first =
    (configure_interface remote netmask_of host netmask (codes "5") (active_session bare)).1

first_returns :
    (configure_interface remote netmask_of host netmask (codes "5") (active_session bare)).0 ≡ ok tt
unfolding configure_interface state_of create_vlan is_vlan_created unless require if_passive
    is_passive send_cmd deliver acquire show_interfaces show_each answered last_item
    enable_remote_config active_session text_beq findall search group_at split_on read_ifcs look_for
    is_same names_vlan set_interface unless_created lists_vlan any_starts starts_with strip_prefix
    split on_head unwrap drop_last change grow answer vlans brief semi_to_newline
first_returns = refl

-- The same call again returns, and another address for the VLAN is a conflict.
again_returns :
    (configure_interface remote netmask_of host netmask (codes "5") after_first).0 ≡ ok tt
unfolding after_first configure_interface state_of create_vlan is_vlan_created unless require
    if_passive is_passive send_cmd deliver acquire show_interfaces show_each answered last_item
    enable_remote_config active_session text_beq findall search group_at split_on read_ifcs look_for
    is_same names_vlan set_interface unless_created lists_vlan any_starts starts_with strip_prefix
    split on_head unwrap drop_last change grow answer vlans brief semi_to_newline
again_returns = refl

conflict_raises :
    (configure_interface remote netmask_of (codes "10.0.0.8") netmask (codes "5") after_first).0
    ≡ err switch_exception
unfolding after_first configure_interface state_of create_vlan is_vlan_created unless require
    if_passive is_passive send_cmd deliver acquire show_interfaces show_each answered last_item
    enable_remote_config active_session text_beq findall search group_at split_on read_ifcs look_for
    is_same names_vlan set_interface unless_created lists_vlan any_starts starts_with strip_prefix
    split on_head unwrap drop_last change grow answer vlans brief semi_to_newline
conflict_raises = refl

configure_interface_again_example :
    (w : Stage) × Now reports after_first w
    × Ends reports
        (configure_interface remote netmask_of host netmask (codes "5"))
        after_first
        (ok tt)
        w
unfolding after_first
configure_interface_again_example =
    configure_interface_again reports netmask_of host netmask (codes "5") (active_session bare) bare
      (is_now bare) first_returns

abbrev port : Port
port = name (codes "1/7")

passive_type_errors_example :
    (set_switchport_mode remote (name (codes "1/7")) trunk (some 5) passive_session ≡ (
      err type_error,
      record passive_session {
        outfile =
            passive_session.outfile ++ mode_cmd (name (codes "1/7")) trunk (some 5) ++ 10 ∷ [];
      },
    ))
    × (configure_interface remote netmask_of host netmask (codes "5") passive_session
        ≡ (err type_error, passive_session))
passive_type_errors_example =
    passive_type_errors remote passive_session (name (codes "1/7")) trunk (some 5) netmask_of host
      netmask (codes "5") passive_is_passive

send_cmd_delivers_example :
    ((i : ℕ) × First remote i bare
      × (i < 5)
      × Delivered remote (codes "vlan 5") (active_session bare) i)
    ⊎ (((j : ℕ) → j < 5 → attempt remote j bare ≡ false)
        × (send_cmd remote (codes "vlan 5") (active_session bare) ≡ (
          err switch_exception,
          record (active_session bare) { device = before_attempt remote 5 bare },
        )))
unfolding active_session
send_cmd_delivers_example =
    send_cmd_delivers remote (codes "vlan 5") (active_session bare) active_is_active
