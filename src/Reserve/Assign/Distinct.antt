-- ===== src/Reserve/Assign/Distinct.antt =====
-- The loop over the hosts where both types share one manager: no address is given out twice.
use cluster_genesis.Base.{
  ℕ, ◌+◌, ◌-◌, ◌*◌, ◌≤◌, ◌<◌, ◌≡◌, refl, sym, ap, ◌∙◌, subst, inl, inr, Bool, true, false, some,
  List, [], ◌∷◌, ◌++◌, map, append-nil, append_assoc, arith, if◌then◌else◌, nat_eq, ◌==◌, option_eq,
  if-both, length, All, Text, text_eq, Result, ok,
}
use cluster_genesis.Base.Value.{port_eq}
use cluster_genesis.Reserve.Manager.{Netaddr, Network, IpManager, get_next_ip}
use cluster_genesis.Reserve.Manager.Range.{InRange, left, get_next_ip_cases}
use cluster_genesis.Reserve.Assign.{
  Host, Managers, shared, Loop, assign_host, assign_hosts, next_ipmi, next_pxe,
}

module _ (net : Netaddr) where
  open net use {Ip, value, ip_str}

  -- A manager that has an address left hands it out.
  pub take :
      (reserve : Bool) (m : IpManager net)
      → InRange net m
      → 0 < left net m
      → (m' : IpManager net) × (get_next_ip net reserve m ≡ ok (ip_str m.next_ip, m'))
        × InRange net m'
        × (m'.network ≡ m.network)
        × (value m'.next_ip ≡ (if reserve then value m.next_ip + 1 else value m.next_ip))
  take reserve m r h = elim (get_next_ip_cases net reserve m r) [
    | inl (none_left, e) ↦ absurd (omega arith)
    | inr (some_left, m', e, r', n, v) ↦ (m', e, r', n, v)
  ]

  pub left-step :
      (k : ℕ) (m m' : IpManager net)
      → m'.network ≡ m.network
      → value m'.next_ip ≡ value m.next_ip + k
      → left net m' ≡ left net m - k
  left-step k m m' n v =
      let e = ap (λ (u : Network net). value u.network + u.size) n in omega (arith, e, v)

  module _ (reserve : Bool) (m m' : IpManager net) (ip : Text)
      (e : get_next_ip net reserve m ≡ ok (ip, m')) where
    pub next_ipmi-shared : next_ipmi net reserve (shared m) ≡ ok (ip, shared m')
    unfolding next_ipmi
    next_ipmi-shared = rw (e, next_ipmi) refl

    pub next_pxe-shared : next_pxe net reserve (shared m) ≡ ok (ip, shared m')
    unfolding next_pxe
    next_pxe-shared = rw (e, next_pxe) refl

  -- A round in which the four calls of `get_next_ip` return.
  module _ (lease : Text) (index : ℕ) (h : Host) (mac : Text) (has_mac : h.ipmi_mac ≡ some mac)
      (s : Loop net) (a₁ a₂ a₃ a₄ : Text) (ms₁ ms₂ ms₃ ms₄ : Managers net)
      (q₁ : next_ipmi net true s.managers ≡ ok (a₁, ms₁))
      (q₂ : next_ipmi net false ms₁ ≡ ok (a₂, ms₂)) (q₃ : next_pxe net true ms₂ ≡ ok (a₃, ms₃))
      (q₄ : next_pxe net false ms₃ ≡ ok (a₄, ms₄)) where
    assign_host_runs :
        ((assign_host net lease index h s).0 ≡ ok tt)
        × ((assign_host net lease index h s).1.managers ≡ ms₄)
        × ((assign_host net lease index h s).1.handed ≡ (s.handed ++ a₁ ∷ []) ++ a₃ ∷ [])
    unfolding assign_host
    assign_host_runs = rw q₁ (
        rw has_mac (
          rw q₂ (
            rw q₃ (
              rw q₄ (
                refl,
                if-both (λ (u : Loop net). u.managers) (h.ipmi_ipaddr == some a₁) _ _ refl refl,
                if-both (λ (u : Loop net). u.handed) (h.ipmi_ipaddr == some a₁) _ _ refl refl,
              )))))

  -- A reservation and the look at the address behind it.
  pub record Reserved (m m' : IpManager net) : Type 0 where
    pub between : IpManager net
    pub first : get_next_ip net true m ≡ ok (ip_str m.next_ip, between)
    pub peek : get_next_ip net false between ≡ ok (ip_str between.next_ip, m')
    pub in_range : InRange net m'
    pub network : m'.network ≡ m.network
    pub next : value m'.next_ip ≡ value m.next_ip + 1

  pub reserve :
      (m : IpManager net) → InRange net m → 2 ≤ left net m → (m' : IpManager net) × Reserved m m'
  reserve m r room =
      let (m₁, e₁, r₁, n₁, v₁) = take true m r (omega arith) in
      let (m₂, e₂, r₂, n₂, v₂) = take false m₁ r₁ (omega (arith, left-step 1 m m₁ n₁ v₁)) in
      (
        m₂,
        record {
          between = m₁;
          first = e₁;
          peek = e₂;
          in_range = r₂;
          network = n₂ ∙ n₁;
          next = v₂ ∙ v₁;
        },
      )

  pub left-reserve : (m m' : IpManager net) → Reserved m m' → left net m' ≡ left net m - 1
  left-reserve m m' r = left-step 1 m m' r.network r.next

  -- What a round leaves behind it.
  pub record Advanced (m : IpManager net) (s : Loop net) (out : Result (Unit {0}) × Loop net)
      : Type 0 where
    pub m' : IpManager net
    pub second : Ip
    pub done : out.0 ≡ ok tt
    pub managers : out.1.managers ≡ shared m'
    pub in_range : InRange net m'
    pub network : m'.network ≡ m.network
    pub next : value m'.next_ip ≡ value m.next_ip + 2
    pub second_value : value second ≡ value m.next_ip + 1
    pub handed : out.1.handed ≡ (s.handed ++ ip_str m.next_ip ∷ []) ++ ip_str second ∷ []

  module _ (lease : Text) (index : ℕ) (h : Host) (mac : Text)
      (has_mac : h.ipmi_mac ≡ some mac) where
    assign_host_reserved :
        (m m₂ m₄ : IpManager net) (s : Loop net)
        → s.managers ≡ shared m
        → Reserved m m₂
        → Reserved m₂ m₄
        → Advanced m s (assign_host net lease index h s)
    assign_host_reserved m m₂ m₄ s hm r r' =
        let (done, managers', handed') =
          assign_host_runs lease index h mac has_mac s (ip_str m.next_ip) (ip_str r.between.next_ip)
            (ip_str m₂.next_ip) (ip_str r'.between.next_ip) (shared r.between) (shared m₂)
            (shared r'.between) (shared m₄)
            (rw hm (next_ipmi-shared true m r.between (ip_str m.next_ip) r.first))
            (next_ipmi-shared false r.between m₂ (ip_str r.between.next_ip) r.peek)
            (next_pxe-shared true m₂ r'.between (ip_str m₂.next_ip) r'.first)
            (next_pxe-shared false r'.between m₄ (ip_str r'.between.next_ip) r'.peek) in
        record {
          m' = m₄;
          second = m₂.next_ip;
          done = done;
          managers = managers';
          in_range = r'.in_range;
          network = r'.network ∙ r.network;
          next = omega (arith, r.next, r'.next);
          second_value = r.next;
          handed = handed';
        }

    pub assign_host_shared :
        (m : IpManager net) (s : Loop net)
        → s.managers ≡ shared m
        → InRange net m
        → 3 ≤ left net m
        → Advanced m s (assign_host net lease index h s)
    assign_host_shared m s hm r room =
        let (m₂, first) = reserve m r (omega arith) in
        let (m₄, second) = reserve m₂ first.in_range (omega (arith, left-reserve m m₂ first)) in
        assign_host_reserved m m₂ m₄ s hm first second

  -- The addresses have the values from `v` on, one after the other.
  abbrev pub Consecutive : ℕ → List Ip → Type 0
  Consecutive v [] = Unit
  Consecutive v (ip ∷ ips) = (value ip ≡ v) × Consecutive (v + 1) ips

  Consecutive-at : (v w : ℕ) (ips : List Ip) → v ≡ w → Consecutive v ips → Consecutive w ips
  Consecutive-at v w ips e run = subst (λ u. Consecutive u ips) e run

  abbrev pub HasMac : Host → Type 0
  HasMac h = (mac : Text) × (h.ipmi_mac ≡ some mac)

  -- If every host has a BMC MAC, both types share one manager in range, and more than two addresses
  -- for each host are left, the loop returns, and it has handed out two for each host, all
  -- different: they follow one another from the manager's next address on.
  pub assign_hosts_shared :
      (lease : Text) (index : ℕ) (hs : List Host) (m : IpManager net) (s : Loop net)
      → All HasMac hs
      → s.managers ≡ shared m
      → InRange net m
      → 2 * length hs < left net m
      → (ips : List Ip) × ((assign_hosts net lease index hs s).0 ≡ ok tt)
        × ((assign_hosts net lease index hs s).1.handed ≡ s.handed ++ map ip_str ips)
        × (length ips ≡ 2 * length hs)
        × Consecutive (value m.next_ip) ips
  unfolding assign_hosts
  assign_hosts_shared lease index [] m s macs hm r room =
      ([], refl, sym (append-nil s.handed), refl, tt)
  assign_hosts_shared lease index (h ∷ hs) m s ((mac, has), macs) hm r room =
      let a = assign_host_shared lease index h mac has m s hm r (omega arith) in
      let s' = (assign_host net lease index h s).1 in
      let (ips, done, handed, len, run) =
        assign_hosts_shared lease (index + 1) hs a.m' s' macs a.managers a.in_range
          (omega (arith, left-step 2 m a.m' a.network a.next)) in
      (
        m.next_ip ∷ a.second ∷ ips,
        rw (a.done, assign_hosts) done,
        rw (a.done, assign_hosts)
            (handed ∙ ap (λ (l : List Text). l ++ map ip_str ips) a.handed ∙ simp append_assoc),
        omega (arith, len),
        (
          refl,
          (
            a.second_value,
            Consecutive-at (value a.m'.next_ip) (value m.next_ip + 1 + 1) ips
                (omega (arith, a.next)) run,
          ),
        ),
      )
