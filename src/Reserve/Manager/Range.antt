-- ===== src/Reserve/Manager/Range.antt =====
-- The addresses that `IPManager` hands out, and when it stops.
use cluster_genesis.Base.{
  ℕ, ◌+◌, ◌-◌, ◌≤◌, ◌<◌, ◌≡◌, refl, ◌⊎◌, inl, inr, Bool, true, false, arith, if◌then◌else◌, ◌==◌,
  nat_eq, option_eq, Bool-cases, text_eq, user_exception, ok, err,
}
use cluster_genesis.Base.Value.{port_eq}
use cluster_genesis.Reserve.Manager.{Netaddr, Network, IpManager, init, hand_out, get_next_ip}

module _ (net : Netaddr) where
  open net use {Ip, value, ip_str, plus, last, plus_room, plus_past}

  -- The next address lies in the network or is the first one behind it, which exists.
  pub record InRange (m : IpManager net) : Type 0 where
    pub above : value m.network.network ≤ value m.next_ip
    pub below : value m.next_ip ≤ value m.network.network + m.network.size
    pub stop_exists : value m.network.network + m.network.size ≤ last

  -- How many addresses are left.
  abbrev pub left : IpManager net → ℕ
  left m = value m.network.network + m.network.size - value m.next_ip

  module _ (reserve : Bool) (m : IpManager net) (r : InRange m) where
    -- `get_next_ip` on a manager in range raises a `UserException` when no address is left, and
    -- else returns the text of the next one and stays in range, with one address less if it was
    -- reserved.
    pub get_next_ip_cases :
        ((left m ≡ 0) × (get_next_ip net reserve m ≡ err user_exception))
        ⊎ ((0 < left m)
            × (m' : IpManager net) × (get_next_ip net reserve m ≡ ok (ip_str m.next_ip, m'))
            × InRange m'
            × (m'.network ≡ m.network)
            × (value m'.next_ip ≡ (if reserve then value m.next_ip + 1 else value m.next_ip)))
    unfolding get_next_ip hand_out
    get_next_ip_cases =
        let (stop, e, v) = plus_room m.network.network m.network.size r.stop_exists in
        elim (Bool-cases (value m.next_ip == value stop)) [
          | inl done ↦ inl (ground (arith, r.above), rw e (rw done refl))
          | inr more ↦
              let (m', h, r', n, v') = proceed reserve (ground (arith, r.below)) in
              inr (ground (arith, r.below), m', rw e (rw more h), r', n, v')
        ]
      where
        proceed :
            (reserve : Bool)
            → value m.next_ip < value m.network.network + m.network.size
            → (m' : IpManager net) × (hand_out net reserve m ≡ ok (ip_str m.next_ip, m'))
              × InRange m'
              × (m'.network ≡ m.network)
              × (value m'.next_ip ≡ (if reserve then value m.next_ip + 1 else value m.next_ip))
        proceed false lt = (m, refl, r, refl, refl)
        proceed true lt =
            let (b, e, v) = plus_room m.next_ip 1 (omega (arith, r.stop_exists)) in
            (
              record m { next_ip = b },
              rw e refl,
              record {
                above = omega (arith, r.above, v);
                below = omega (arith, v);
                stop_exists = r.stop_exists;
              },
              refl,
              v,
            )

  -- A manager whose start offset is larger than its network hands out, at its first call, an
  -- address that is not in the network.
  pub get_next_ip_beyond :
      (network : Network net) (start_offset : ℕ)
      → network.size < start_offset
      → value network.network + start_offset < last
      → (m m' : IpManager net) × (init net network start_offset ≡ ok m)
        × (get_next_ip net true m ≡ ok (ip_str m.next_ip, m'))
        × (value network.network + network.size < value m.next_ip)
  unfolding init get_next_ip hand_out
  get_next_ip_beyond network start_offset big room =
      let (a, e, v) = plus_room network.network start_offset (omega arith) in
      let (stop, es, vs) = plus_room network.network network.size (omega arith) in
      let (b, eb, vb) = plus_room a 1 (omega (arith, v)) in
      let m : IpManager net = record {
        network = network;
        next_offset = start_offset;
        next_ip = a;
      } in
      (
        m,
        record m { next_ip = b },
        rw e refl,
        rw es (rw (differ a stop v vs) (rw eb refl)),
        omega (arith, v),
      )
    where
      differ :
          (a stop : Ip)
          → value a ≡ value network.network + start_offset
          → value stop ≡ value network.network + network.size
          → (value a == value stop) ≡ false
      differ a stop v vs = ground arith
