-- ===== src/Reserve/Assign/Exhausted.antt =====
-- The loop over the hosts where the shared manager has just the addresses that are needed.
use cluster_genesis.Base.{
  ℕ, ◌+◌, ◌*◌, ◌<◌, ◌≡◌, refl, inl, inr, Bool, true, false, some, List, [], ◌∷◌, arith, nat_eq,
  option_eq, length, All, Text, text_eq, user_exception, ok, err,
}
use cluster_genesis.Base.Value.{port_eq}
use cluster_genesis.Reserve.Manager.{Netaddr, IpManager, get_next_ip}
use cluster_genesis.Reserve.Manager.Range.{InRange, left, get_next_ip_cases}
use cluster_genesis.Reserve.Assign.{
  Host, Loop, Managers, next_ipmi, next_pxe, assign_host, assign_hosts, shared,
}
use cluster_genesis.Reserve.Assign.Distinct.{
  take, left-step, next_ipmi-shared, next_pxe-shared, reserve, left-reserve, assign_host_shared,
  HasMac,
}

module _ (net : Netaddr) where
  open net use {value, ip_str}

  none_left :
      (reserve : Bool) (m : IpManager net)
      → InRange net m
      → left net m ≡ 0
      → get_next_ip net reserve m ≡ err user_exception
  none_left reserve m r h = elim (get_next_ip_cases net reserve m r) [
    | inl (_, e) ↦ e
    | inr (some_left, _, _, _, _, _) ↦ absurd (omega arith)
  ]

  next_pxe-raises :
      (m : IpManager net)
      → get_next_ip net false m ≡ err user_exception
      → next_pxe net false (shared m) ≡ err user_exception
  unfolding next_pxe
  next_pxe-raises m e = rw (e, next_pxe) refl

  -- A round in which the last of the four calls raises.
  module _ (lease : Text) (index : ℕ) (h : Host) (mac : Text) (has_mac : h.ipmi_mac ≡ some mac)
      (s : Loop net) (a₁ a₂ a₃ : Text) (ms₁ ms₂ ms₃ : Managers net)
      (q₁ : next_ipmi net true s.managers ≡ ok (a₁, ms₁))
      (q₂ : next_ipmi net false ms₁ ≡ ok (a₂, ms₂)) (q₃ : next_pxe net true ms₂ ≡ ok (a₃, ms₃))
      (q₄ : next_pxe net false ms₃ ≡ err user_exception) where
    assign_host_raises : (assign_host net lease index h s).0 ≡ err user_exception
    unfolding assign_host
    assign_host_raises = rw q₁ (rw has_mac (rw q₂ (rw q₃ (rw q₄ refl))))

  last_host :
      (lease : Text) (index : ℕ) (h : Host) (mac : Text) (m : IpManager net) (s : Loop net)
      → h.ipmi_mac ≡ some mac
      → s.managers ≡ shared m
      → InRange net m
      → left net m ≡ 2
      → (assign_host net lease index h s).0 ≡ err user_exception
  last_host lease index h mac m s has hm r room =
      let (m₂, first) = reserve net m r (omega (arith, room)) in
      let one : left net m₂ ≡ 1 = omega (arith, room, left-reserve net m m₂ first) in
      let (m₃, e₃, r₃, n₃, v₃) = take net true m₂ first.in_range (omega (arith, one)) in
      let none : left net m₃ ≡ 0 = omega (arith, one, left-step net 1 m₂ m₃ n₃ v₃) in
      assign_host_raises lease index h mac has s (ip_str m.next_ip) (ip_str first.between.next_ip)
        (ip_str m₂.next_ip) (shared first.between) (shared m₂) (shared m₃)
        (rw hm (next_ipmi-shared net true m first.between (ip_str m.next_ip) first.first))
        (next_ipmi-shared net false first.between m₂ (ip_str first.between.next_ip) first.peek)
        (next_pxe-shared net true m₂ m₃ (ip_str m₂.next_ip) e₃)
        (next_pxe-raises m₃ (none_left false m₃ r₃ none))

  -- If every host has a BMC MAC, there is a host, both types share one manager in range, and just
  -- two addresses for each host are left, the loop raises a `UserException`, although all the
  -- addresses it needs are there: after the last reservation it looks at the address behind it.
  pub assign_hosts_exact :
      (lease : Text) (index : ℕ) (hs : List Host) (m : IpManager net) (s : Loop net)
      → All (HasMac net) hs
      → s.managers ≡ shared m
      → InRange net m
      → 0 < length hs
      → left net m ≡ 2 * length hs
      → (assign_hosts net lease index hs s).0 ≡ err user_exception
  unfolding assign_hosts
  assign_hosts_exact lease index [] m s macs hm r some_host room = absurd (omega arith)
  assign_hosts_exact lease index (h ∷ []) m s ((mac, has), macs) hm r some_host room =
      rw (last_host lease index h mac m s has hm r (omega (arith, room)), assign_hosts) refl
  assign_hosts_exact lease index (h ∷ h' ∷ hs) m s ((mac, has), macs) hm r some_host room =
      let a = assign_host_shared net lease index h mac has m s hm r (omega (arith, room)) in
      let s' = (assign_host net lease index h s).1 in
      rw (a.done, assign_hosts)
        (assign_hosts_exact lease (index + 1) (h' ∷ hs) a.m' s' macs a.managers a.in_range
          (omega arith) (omega (arith, room, left-step net 2 m a.m' a.network a.next)))
