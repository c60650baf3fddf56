-- ===== src/DataSwitch/Pairs.antt =====
-- The MLAG pairs of scripts/python/configure_data_switches.py.
use cluster_genesis.Base.{
  ℕ, ◌≡◌, ap, ◌≢◌, inl, inr, List, [], ◌∷◌, nat_eq, option_eq, Text, text_eq, Exc, Result,
  Result-cases, type_error, ok, err,
}
use cluster_genesis.Base.Value.{port_eq}
use cluster_genesis.DataSwitch.PortGroups.{zip_all}
use cluster_genesis.Exec.{Exec, ◌>>=◌, ◌>>◌, raise, continue, lift}
use cluster_genesis.DataSwitch.{
  PortTree, MtuTree, Call, World, creates_mlag, removes_mlag, Groups, zipped,
}
use cluster_genesis.DataSwitch.Channels.{
  program_mlag, program_mlags, each_switch, program_pair, group_at, mlags_of,
}
use cluster_genesis.DataSwitch.Calls.{perform}
use cluster_genesis.DataSwitch.PortVlans.{get_channel_num}

-- A method that always raises.
pub record Raises {S : Type 0} (m : Exec S (Unit {0})) : Type 0 where
  pub never_returns : (s : S) → (m s).0 ≢ ok tt

module _ {S : Type 0} where
  raise-Raises : (x : Exc) → Raises {S = S} (raise x)
  raise-Raises x = record { never_returns = λ s h. cc }

  first-Raises : (m k : Exec S (Unit {0})) (s : S) → Raises m → ((m >> k) s).0 ≢ ok tt
  first-Raises m k s r h = elim (Result-cases (m s).0) [
    | inl (tt, e) ↦ r.never_returns s e
    | inr (x, e) ↦
        let same : ((m >> k) s) ≡ (err x, (m s).1) = ap (λ o. continue o (λ u. k) (m s).1) e in
        cc (ap (λ o. o.0) same)
  ]

  >>-Raises : (m k : Exec S (Unit {0})) → Raises m → Raises (m >> k)
  >>-Raises m k r = record { never_returns = λ s. first-Raises m k s r }

  next-Raises :
      {A : Type 0} (k : A → Exec S (Unit {0})) (o : Result A) (s : S)
      → ((a : A) → Raises (k a))
      → (continue o k s).0 ≢ ok tt
  next-Raises k (ok a) s r h = (r a).never_returns s h
  next-Raises k (err x) s r h = cc

  >>=-Raises :
      {A : Type 0} (m : Exec S A) (k : A → Exec S (Unit {0}))
      → ((a : A) → Raises (k a))
      → Raises (m >>= k)
  >>=-Raises m k r = record { never_returns = λ s. next-Raises k (m s).0 (m s).1 r }

module _ {S : Type 0} (handle : Call → S → Result (Unit {0}) × S) (port_vlans : PortTree)
    (mtu_list : MtuTree) where
  program_mlag-Raises :
      (sw : Text) (grps : List (List Text)) (idx : ℕ) (grp : List Text)
      → Raises (program_mlag handle port_vlans mtu_list sw (zipped grps) idx grp)
  unfolding program_mlag group_at
  program_mlag-Raises sw grps idx grp = >>=-Raises (lift (get_channel_num grp)) _ λ n.
      >>=-Raises (perform handle (removes_mlag sw n)) _
        λ u. >>=-Raises (perform handle (creates_mlag sw n)) _ λ u2. raise-Raises type_error

  -- An MLAG pair whose first switch has a port group is never configured: with the groups as
  -- `_get_port_chan_list` makes them of lists of ports, and whatever the switches do, the script
  -- raises an exception.
  pub program_pair_raises :
      (sw sw' : Text) (rows : List (List Text)) (grp : List Text) (grps : List (List Text))
      (groups : Groups) (w : World S)
      → zip_all rows ≡ zipped (grp ∷ grps)
      → (program_pair handle port_vlans mtu_list ((sw, zip_all rows) ∷ (sw', groups) ∷ []) w).0
        ≢ ok tt
  unfolding program_pair each_switch mlags_of program_mlags
  program_pair_raises sw sw' rows grp grps groups w zip =
      let all = grp ∷ grps in
      let mlag = program_mlag handle port_vlans mtu_list sw (zipped all) 0 grp in
      let inner =
        >>-Raises mlag (program_mlags handle port_vlans mtu_list sw (zipped all) 1 grps)
          (program_mlag-Raises sw all 0 grp) in
      rw zip (
        (>>-Raises _
            (each_switch handle port_vlans mtu_list (mlags_of handle port_vlans mtu_list)
              ((sw', groups) ∷ []))
            inner).never_returns
          w)
