-- ===== src/Switch/Configured.antt =====
-- `configure_interface` of scripts/python/lib/switch_common.py against what it promises.
use cluster_genesis.Base.{
  ◌≡◌, refl, ap, true, false, not, if◌then◌else◌, nat_eq, option_eq, Text, codes, text_eq,
  switch_exception, ok, err,
}
use cluster_genesis.Base.Value.{port_eq}
use cluster_genesis.Switch.{Session, Remote}
use cluster_genesis.Switch.Reports.{
  Reports, Now, Ends, then-Ends, then_raises, unless-Ends, returns-Ends, refused-Ends, send-Ends,
  granted-Ends, require-Ends, Ends-outcome,
}
use cluster_genesis.Switch.Interfaces.{Found, look_for, set_interface, configure_interface}
use cluster_genesis.Switch.Seen.{reported, state_of-Ends}
use cluster_genesis.Switch.Created.{listed, behind, create_vlan-Ends}

module _ {D V : Type 0} {remote : Remote D} (reports : Reports remote V) (netmask_of : Text → Text)
    (host netmask vlan : Text) where
  unfoldable pub seen : V → Found
  seen v = look_for vlan host netmask (reported reports netmask_of v)

  pub configured-Ends :
      {s : Session D} {v : V}
      → Now reports s v
      → (seen v).configured ≡ true
      → Ends reports (configure_interface remote netmask_of host netmask vlan) s (ok tt) v
  unfolding configure_interface seen
  configured-Ends now e =
      then-Ends reports _ _ (state_of-Ends reports netmask_of vlan host netmask now)
        λ t later. returns-Ends reports _ e later

  pub conflict-Ends :
      {s : Session D} {v : V}
      → Now reports s v
      → (seen v).configured ≡ false
      → (seen v).found_vlan ≡ true
      → Ends reports
          (configure_interface remote netmask_of host netmask vlan)
          s
          (err switch_exception)
          v
  unfolding configure_interface seen
  conflict-Ends now e f =
      then-Ends reports _ _ (state_of-Ends reports netmask_of vlan host netmask now) λ t later.
        unless-Ends reports _ e (then_raises reports _ _ (refused-Ends reports (ap not f) later))

  -- The configurations behind the creation of the VLAN and of the interface.
  unfoldable pub with_vlan : V → V
  with_vlan v = behind reports (codes "vlan ") vlan v

  unfoldable pub with_interface : V → V
  with_interface v = reports.change (set_interface vlan host netmask) (with_vlan v)

  pub create_fails-Ends :
      {s : Session D} {v : V}
      → Now reports s v
      → (seen v).configured ≡ false
      → (seen v).found_vlan ≡ false
      → listed reports vlan (with_vlan v) ≡ false
      → Ends reports
          (configure_interface remote netmask_of host netmask vlan)
          s
          (err switch_exception)
          (with_vlan v)
  unfolding configure_interface seen with_vlan
  create_fails-Ends now e f l =
      then-Ends reports _ _ (state_of-Ends reports netmask_of vlan host netmask now) λ t later.
        unless-Ends reports _ e (
          then-Ends reports _ _ (granted-Ends reports (ap not f) later) λ t1 n1.
            then_raises reports _ _
              (Ends-outcome reports (rw l refl) (create_vlan-Ends reports vlan n1)))

  pub set-Ends :
      {s : Session D} {v : V}
      → Now reports s v
      → (seen v).configured ≡ false
      → (seen v).found_vlan ≡ false
      → listed reports vlan (with_vlan v) ≡ true
      → Ends reports
          (configure_interface remote netmask_of host netmask vlan)
          s
          (if (seen (with_interface v)).configured then ok tt else err switch_exception)
          (with_interface v)
  unfolding configure_interface seen with_vlan with_interface
  set-Ends now e f l =
      then-Ends reports _ _ (state_of-Ends reports netmask_of vlan host netmask now) λ t later.
        unless-Ends reports _ e (
          then-Ends reports _ _ (granted-Ends reports (ap not f) later) λ t1 n1.
            then-Ends reports _ _
              (Ends-outcome reports (rw l refl) (create_vlan-Ends reports vlan n1))
              λ t2 n2.
                then-Ends reports _ _ (send-Ends reports (set_interface vlan host netmask) n2)
                  λ t3 n3.
                    then-Ends reports _ _ (state_of-Ends reports netmask_of vlan host netmask n3)
                      λ t4 n4. require-Ends reports _ n4)
