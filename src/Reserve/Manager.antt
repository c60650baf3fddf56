-- ===== src/Reserve/Manager.antt =====
-- `IPManager`: addresses handed out one after the other from a network.
pub mod Range
use cluster_genesis.Base.{
  ℕ, ◌+◌, ◌≤◌, ◌<◌, ◌≡◌, Bool, true, false, if◌then◌else◌, ◌==◌, nat_eq, option_eq, Text, text_eq,
  Result, ◌>>=◌, user_exception, index_error, ok, err,
}
use cluster_genesis.Base.Value.{port_eq}

-- The library netaddr, as far as it is used: addresses, their integer values, their text, and the
-- addition that raises `IndexError` beyond the last address there is.
pub record Netaddr : Type 1 where
  pub Ip : Type 0
  pub value : Ip → ℕ
  pub ip_str : Ip → Text
  pub plus : Ip → ℕ → Result Ip
  pub last : ℕ
  pub plus_room :
      (a : Ip) (n : ℕ) → value a + n ≤ last → (b : Ip) × (plus a n ≡ ok b) × (value b ≡ value a + n)
  pub plus_past : (a : Ip) (n : ℕ) → last < value a + n → plus a n ≡ err index_error
  pub str_injective : (a b : Ip) → ip_str a ≡ ip_str b → a ≡ b

module _ (net : Netaddr) where
  open net use {Ip, value, ip_str, plus}

  -- An `IPNetwork`: its first address and its number of addresses.
  pub record Network : Type 0 where
    pub network : Ip
    pub size : ℕ

  pub record IpManager : Type 0 where
    pub network : Network
    pub next_offset : ℕ
    pub next_ip : Ip

  -- `IPManager.__init__`
  unfoldable pub init : Network → ℕ → Result IpManager
  init network start_offset = do
    next_ip ← plus network.network start_offset
    ok (record { network = network; next_offset = start_offset; next_ip = next_ip })

  -- The last lines of `get_next_ip`, behind its guard.
  unfoldable pub hand_out : Bool → IpManager → Result (Text × IpManager)
  hand_out false m = ok (ip_str m.next_ip, m)
  hand_out true m = do
    let ip_address = ip_str m.next_ip
    next_ip ← plus m.next_ip 1
    ok (ip_address, record m { next_ip = next_ip })

  -- `get_next_ip`: addresses are compared by their values.
  unfoldable pub get_next_ip : Bool → IpManager → Result (Text × IpManager)
  get_next_ip reserve m = do
    stop ← plus m.network.network m.network.size
    if value m.next_ip == value stop then err user_exception else hand_out reserve m
