-- ===== src/Switch/Created.antt =====
-- `create_vlan` and `delete_vlan` of scripts/python/lib/switch_common.py on a switch that answers
-- from its configuration.
use cluster_genesis.Base.{
  refl, Bool, true, false, none, some, ◌++◌, if◌then◌else◌, nat_eq, option_eq, Text, codes, text_eq,
  switch_exception, ok, err,
}
use cluster_genesis.Base.Value.{port_eq}
use cluster_genesis.Exec.{lift}
use cluster_genesis.Switch.{Session, Remote}
use cluster_genesis.Base.Strings.{strip_prefix, starts_with}
use cluster_genesis.Switch.Reports.{
  Reports, Now, Ends, then-Ends, send-Ends, asked-Ends, active-Ends, show-Ends, lift-Ends,
  pure-Ends,
}
use cluster_genesis.Switch.Vlans.{
  lists_vlan, is_vlan_created, unless_created, unless_left, create_vlan, delete_vlan,
}
use cluster_genesis.Switch.Answers.{answered}

module _ {D V : Type 0} {remote : Remote D} (reports : Reports remote V) where
  -- Whether a line of the list of VLANs starts with the text.
  unfoldable pub listed : Text → V → Bool
  unfolding lists_vlan
  listed vlan v = lists_vlan vlan (reports.answer (codes "show vlan") v)

  checked :
      (b : Bool) {s : Session D} {v : V}
      → Now reports s v
      → Ends reports
          (lift (unless_created (some b)))
          s
          (if b then ok tt else err switch_exception)
          v
  unfolding unless_created
  checked true now = lift-Ends reports now
  checked false now = lift-Ends reports now

  checked_not :
      (b : Bool) {s : Session D} {v : V}
      → Now reports s v
      → Ends reports (lift (unless_left (some b))) s (if b then err switch_exception else ok tt) v
  unfolding unless_left
  checked_not true now = lift-Ends reports now
  checked_not false now = lift-Ends reports now

  is_vlan_created-Ends :
      (vlan : Text) {s : Session D} {v : V}
      → Now reports s v
      → Ends reports (is_vlan_created remote vlan) s (ok (some (listed vlan v))) v
  unfolding is_vlan_created listed answered starts_with strip_prefix
  is_vlan_created-Ends vlan now = asked-Ends reports none _ now (
      then-Ends reports _ _ (show-Ends reports (codes "show vlan") refl now)
        λ t later. pure-Ends reports later)

  -- The configuration behind a command.
  unfoldable pub behind : Text → Text → V → V
  behind cmd vlan v = reports.change (cmd ++ vlan) v

  pub create_vlan-Ends :
      (vlan : Text) {s : Session D} {v : V}
      → Now reports s v
      → Ends reports
          (create_vlan remote vlan)
          s
          (if listed vlan (behind (codes "vlan ") vlan v) then ok tt else err switch_exception)
          (behind (codes "vlan ") vlan v)
  unfolding create_vlan behind
  create_vlan-Ends vlan now =
      then-Ends reports _ _ (send-Ends reports (codes "vlan " ++ vlan) now) λ t later.
        asked-Ends reports tt _ later (
          then-Ends reports _ _ (is_vlan_created-Ends vlan later)
            λ u last. checked (listed vlan _) last)

  pub delete_vlan-Ends :
      (vlan : Text) {s : Session D} {v : V}
      → Now reports s v
      → Ends reports
          (delete_vlan remote vlan)
          s
          (if listed vlan (behind (codes "no vlan ") vlan v) then err switch_exception else ok tt)
          (behind (codes "no vlan ") vlan v)
  unfolding delete_vlan behind
  delete_vlan-Ends vlan now =
      then-Ends reports _ _ (send-Ends reports (codes "no vlan " ++ vlan) now) λ t later.
        active-Ends reports tt _ later (
          then-Ends reports _ _ (is_vlan_created-Ends vlan later)
            λ u last. checked_not (listed vlan _) last)
