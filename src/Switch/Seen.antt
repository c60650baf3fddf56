-- ===== src/Switch/Seen.antt =====
-- What `show_interfaces` of scripts/python/lib/switch_common.py reads from a switch that answers
-- from its configuration.
use cluster_genesis.Base.{
  refl, Option, none, some, List, [], ◌∷◌, ◌++◌, nat_eq, option_eq, Text, codes, text_eq, ok,
}
use cluster_genesis.Base.Value.{port_eq}
use cluster_genesis.Switch.{Session, Remote}
use cluster_genesis.Base.Strings.{strip_prefix, starts_with, split_on}
use cluster_genesis.Base.Regex.{digit, lit, plus, findall, seq, group}
use cluster_genesis.Switch.Reports.{
  Reports, Now, Ends, then-Ends, lift-Ends, pure-Ends, asked-Ends, show-Ends,
}
use cluster_genesis.Switch.Interfaces.{
  Ifc, read_ifcs, look_for, last_item, show_each, show_interfaces, state_of, Found,
}
use cluster_genesis.Switch.Answers.{answered}
use cluster_genesis.Exec.{Exec, pure}

module _ {D V : Type 0} {remote : Remote D} (reports : Reports remote V) where
  unfoldable pub info_of : V → List Text → Text
  info_of v [] = []
  info_of v (ifc ∷ ifcs) = reports.answer (codes "show interface vlan" ++ ifc) v ++ info_of v ifcs

  -- The interfaces that the answers describe.
  unfoldable pub reported : (Text → Text) → V → List Ifc
  unfolding info_of read_ifcs split_on findall
  reported netmask_of v = read_ifcs netmask_of (
      split_on (codes "Vlan") (
        info_of v (
          findall (seq (lit (codes "Vlan")) (group 1 (plus digit))) 1
            (reports.answer (codes "show ip interface brief") v))))

  show_each-Ends :
      (ifcs : List Text) {s : Session D} {v : V}
      → Now reports s v
      → Ends reports (show_each remote ifcs) s (ok (info_of v ifcs)) v
  unfolding show_each info_of answered starts_with strip_prefix
  show_each-Ends [] now = pure-Ends reports now
  show_each-Ends (ifc ∷ ifcs) now =
      then-Ends reports _ _ (show-Ends reports (codes "show interface vlan" ++ ifc) refl now)
        λ t later.
          then-Ends reports _ _ (show_each-Ends ifcs later) λ u last. pure-Ends reports last

  show_interfaces-Ends :
      (netmask_of : Text → Text) (vlan host netmask : Text) {s : Session D} {v : V}
      → Now reports s v
      → Ends reports
          (show_interfaces remote netmask_of vlan host netmask)
          s
          (ok (some (reported netmask_of v, look_for vlan host netmask (reported netmask_of v))))
          v
  unfolding show_interfaces reported answered starts_with strip_prefix
  show_interfaces-Ends netmask_of vlan host netmask {s} {v} now =
      let ifcs : List Text =
        findall (seq (lit (codes "Vlan")) (group 1 (plus digit))) 1
          (reports.answer (codes "show ip interface brief") v) in
      let finish : Text → Exec (Session D) (Option (List Ifc × Found)) = λ info.
        let l = read_ifcs netmask_of (split_on (codes "Vlan") info) in
        pure (some (l, look_for vlan host netmask l)) in
      asked-Ends reports none _ now (
        then-Ends reports _ _ (show-Ends reports (codes "show ip interface brief") refl now)
          λ t later.
            then-Ends reports (show_each remote ifcs) finish (show_each-Ends ifcs later)
              λ u last. pure-Ends reports last)

  pub state_of-Ends :
      (netmask_of : Text → Text) (vlan host netmask : Text) {s : Session D} {v : V}
      → Now reports s v
      → Ends reports
          (state_of remote netmask_of vlan host netmask)
          s
          (ok (look_for vlan host netmask (reported netmask_of v)))
          v
  unfolding state_of last_item
  state_of-Ends netmask_of vlan host netmask now =
      then-Ends reports _ _ (show_interfaces-Ends netmask_of vlan host netmask now)
        λ w last. lift-Ends reports last
