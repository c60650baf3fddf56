-- ===== src/Switch/Promises.antt =====
-- What `configure_interface` of scripts/python/lib/switch_common.py promises.
use cluster_genesis.Base.{
  ℕ, ◌≡◌, ◌≢◌, inl, inr, true, false, some, nat_eq, option_eq, Bool-cases, get_elem?, Text, codes,
  text_eq, Result, switch_exception, ok, err,
}
use cluster_genesis.Base.Value.{port_eq}
use cluster_genesis.Switch.{Session, Remote}
use cluster_genesis.Switch.Reports.{Reports, Now, Ends}
use cluster_genesis.Switch.Interfaces.{Ifc, names_vlan, configure_interface, set_interface}
use cluster_genesis.Switch.Seen.{reported}
use cluster_genesis.Switch.Found.{wanted}
use cluster_genesis.Switch.Created.{listed, behind}
use cluster_genesis.Switch.Configured.{
  seen, configured-Ends, conflict-Ends, with_vlan, with_interface, set-Ends, create_fails-Ends,
}

module _ {D V : Type 0} {remote : Remote D} (reports : Reports remote V) (netmask_of : Text → Text)
    (host netmask vlan : Text) where
  -- `configure_interface` on the session, from a configuration to its end.
  abbrev Call : Session D → Result (Unit {0}) → V → Type 0
  Call s o w = Ends reports (configure_interface remote netmask_of host netmask vlan) s o w

  -- The wanted interface is reported, or is not.
  abbrev pub Present : V → Type 0
  Present v =
      (i : ℕ) × (get_elem? (reported reports netmask_of v) i ≡ some (wanted vlan host netmask))

  abbrev pub Absent : V → Type 0
  Absent v = (j : ℕ) → get_elem? (reported reports netmask_of v) j ≢ some (wanted vlan host netmask)

  -- No reported interface names the VLAN.
  abbrev pub Free : V → Type 0
  Free v =
      (j : ℕ) (x : Ifc)
      → get_elem? (reported reports netmask_of v) j ≡ some x
      → names_vlan vlan x ≡ false

  -- The configuration behind the command that creates the VLAN.
  abbrev pub created : V → V
  created v = behind reports (codes "vlan ") vlan v

  -- The ways in which the call may end on a configuration `v`.
  pub data Configures (s : Session D) (v : V) : Type 0 where
    already : Present v → Call s (ok tt) v → Configures s v
    conflict :
        (i : ℕ) (x : Ifc)
        → get_elem? (reported reports netmask_of v) i ≡ some x
        → names_vlan vlan x ≡ true
        → Absent v
        → Call s (err switch_exception) v
        → Configures s v
    not_created :
        Free v
        → listed reports vlan (created v) ≡ false
        → Call s (err switch_exception) (created v)
        → Configures s v
    not_set :
        Free v
        → listed reports vlan (created v) ≡ true
        → Absent (reports.change (set_interface vlan host netmask) (created v))
        → Call s
            (err switch_exception)
            (reports.change (set_interface vlan host netmask) (created v))
        → Configures s v
    added :
        Free v
        → listed reports vlan (created v) ≡ true
        → Present (reports.change (set_interface vlan host netmask) (created v))
        → Call s (ok tt) (reports.change (set_interface vlan host netmask) (created v))
        → Configures s v

  -- A call that returned left a configuration in which the switch reports the wanted interface.
  ok_seen :
      (s : Session D) (v : V)
      → Now reports s v
      → (configure_interface remote netmask_of host netmask vlan s).0 ≡ ok tt
      → (w : V) × Now reports (configure_interface remote netmask_of host netmask vlan s).1 w
        × ((seen reports netmask_of host netmask vlan w).configured ≡ true)
  ok_seen s v now run =
      let here = seen reports netmask_of host netmask vlan v in
      let w = with_interface reports netmask_of host netmask vlan v in
      elim (Bool-cases here.configured) [
        | inl e ↦ (v, (configured-Ends reports netmask_of host netmask vlan now e).left, e)
        | inr e ↦ elim (Bool-cases here.found_vlan) [
          | inl f ↦ cc ((conflict-Ends reports netmask_of host netmask vlan now e f).outcome)
          | inr f ↦
              elim (Bool-cases
                (listed reports vlan (with_vlan reports netmask_of host netmask vlan v))) [
                  | inr l ↦
                      cc
                        ((create_fails-Ends reports netmask_of host netmask vlan now e f l).outcome)
                  | inl l ↦
                      let ends = set-Ends reports netmask_of host netmask vlan now e f l in
                      elim (Bool-cases (seen reports netmask_of host netmask vlan w).configured) [
                        | inl d ↦ (w, ends.left, d)
                        | inr d ↦ cc (rw d at ends.outcome)
                      ]
                ]
        ]
      ]

  -- On a switch in active mode whose lock is free and that answers from its configuration: after
  -- `configure_interface` returned, the same call returns again and leaves the configuration as
  -- the first call left it.
  pub configure_interface_again :
      (s : Session D) (v : V)
      → Now reports s v
      → (configure_interface remote netmask_of host netmask vlan s).0 ≡ ok tt
      → (w : V) × Now reports (configure_interface remote netmask_of host netmask vlan s).1 w
        × Ends reports
            (configure_interface remote netmask_of host netmask vlan)
            (configure_interface remote netmask_of host netmask vlan s).1
            (ok tt)
            w
  configure_interface_again s v now run =
      let (w, later, e) = ok_seen s v now run in
      (w, later, configured-Ends reports netmask_of host netmask vlan later e)
