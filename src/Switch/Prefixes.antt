-- ===== src/Switch/Prefixes.antt =====
-- `is_vlan_created` of scripts/python/lib/switch_common.py looks for the digits of a VLAN at the
-- start of a line, where those of a longer number start too.
use cluster_genesis.Base.{
  ◌≡◌, refl, true, List, [], ◌∷◌, ◌++◌, arith, nat_eq, option_eq, Text, codes, text_eq,
  switch_exception, ok, err,
}
use cluster_genesis.Base.Value.{port_eq}
use cluster_genesis.Switch.{Session, Remote}
use cluster_genesis.Base.Strings.{strip_prefix, starts_with}
use cluster_genesis.Switch.Reports.{Reports, Now}
use cluster_genesis.Switch.Vlans.{any_starts, lists_vlan, create_vlan, delete_vlan}
use cluster_genesis.Switch.Created.{listed, behind, create_vlan-Ends, delete_vlan-Ends}

starts_with-append : (p q t : Text) → starts_with (p ++ q) t ≡ true → starts_with p t ≡ true
unfolding starts_with strip_prefix
starts_with-append [] q t h = refl
starts_with-append (c ∷ p) q [] h = cc
starts_with-append (c ∷ p) q (d ∷ t) h = ground (arith, starts_with-append p q t)

any_starts-append :
    (p q : Text) (ls : List Text) → any_starts (p ++ q) ls ≡ true → any_starts p ls ≡ true
unfolding any_starts
any_starts-append p q [] h = h
any_starts-append p q (l ∷ ls) h =
    ground (arith, starts_with-append p q l, any_starts-append p q ls)

module _ {D V : Type 0} {remote : Remote D} (reports : Reports remote V) where
  listed-append :
      (p q : Text) (v : V) → listed reports (p ++ q) v ≡ true → listed reports p v ≡ true
  unfolding listed lists_vlan
  listed-append p q v h = any_starts-append p q _ h

  -- On a switch in active mode whose lock is free and that answers from its configuration: if behind
  -- the command the list of VLANs has a line that starts with the digits of a VLAN and any more
  -- digits `more`, then `delete_vlan` of that VLAN raises a SwitchException, and `create_vlan`
  -- returns, whether or not the VLAN itself is listed.
  pub vlan_prefix :
      (vlan more : Text) (s : Session D) (v : V)
      → Now reports s v
      → listed reports (vlan ++ more) (behind reports (codes "no vlan ") vlan v) ≡ true
      → listed reports (vlan ++ more) (behind reports (codes "vlan ") vlan v) ≡ true
      → ((delete_vlan remote vlan s).0 ≡ err switch_exception)
        × ((create_vlan remote vlan s).0 ≡ ok tt)
  vlan_prefix vlan more s v now gone kept =
      let still = listed-append vlan more (behind reports (codes "no vlan ") vlan v) gone in
      let there = listed-append vlan more (behind reports (codes "vlan ") vlan v) kept in
      (
        rw still at (delete_vlan-Ends reports vlan now).outcome,
        rw there at (create_vlan-Ends reports vlan now).outcome,
      )
