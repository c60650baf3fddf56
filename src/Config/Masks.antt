-- ===== src/Config/Masks.antt =====
-- scripts/python/lib/config.py: a network gives a netmask or a prefix, and each is had from the other.
use cluster_genesis.Base.{
  ℕ, ◌+◌, Bool, true, false, Option, none, some, [], ◌∷◌, if◌then◌else◌, nat_eq, ◌==◌, option_eq,
  Text, codes, text_eq, Result, ◌>>=◌, each, system_exit, ok, err,
}
use cluster_genesis.Base.Value.{Value, port_eq, int, list}
use cluster_genesis.Config.Access.{key_in, to_values, get_key, iterate, get_index}

-- The library netaddr: `IPAddress(v).is_netmask()`, `IPAddress(v).bits()`, and
-- `str(IPNetwork('255.255.255.255/' + str(v)).netmask)`.
pub record Netaddr : Type 0 where
  pub is_netmask : Value → Result Bool
  pub bits : Value → Result Text
  pub netmask : Value → Result Value

-- `text.count('1')`
unfoldable pub count_ones : Text → ℕ
count_ones [] = 0
count_ones (c ∷ cs) = let rest = count_ones cs in if c == 49 then rest + 1 else rest

module _ (net : Netaddr) where
  unfoldable pub netmask_to_prefix : Value → Result Value
  netmask_to_prefix netmask = do
    valid ← net.is_netmask netmask
    if valid then (net.bits netmask >>= λ bits. ok (int (count_ones bits))) else ok (int 32)

  unfoldable pub prefix_to_netmask : Value → Result Value
  prefix_to_netmask prefix = net.netmask prefix

  -- A round of the loop of `get_…_netmask`; with neither key the program exits.
  unfoldable pub member_netmask : Value → Result Value
  unfolding prefix_to_netmask
  member_netmask member = key_in (codes "netmask") member >>= λ found. elim found [
    | true ↦ get_key member (codes "netmask")
    | false ↦ key_in (codes "prefix") member >>= λ found'. elim found' [
      | true ↦ get_key member (codes "prefix") >>= prefix_to_netmask
      | false ↦ err system_exit
    ]
  ]

  -- `get_…_netmask` for a list of members, or for one of them.
  unfoldable pub netmasks : Value → Option ℕ → Result Value
  unfolding member_netmask prefix_to_netmask
  netmasks members none = do
    ms ← iterate members
    list_ ← each member_netmask ms
    ok (list (to_values list_))
  netmasks members (some index) = do
    member ← get_index members index
    found ← key_in (codes "netmask") member
    elim found [
      | true ↦ get_key member (codes "netmask")
      | false ↦ do
        found' ← key_in (codes "prefix") member
        elim found' [
          | false ↦ err system_exit
          | true ↦ do prefix ← get_key member (codes "prefix"); prefix_to_netmask prefix
        ]
    ]

  -- A round of the loop of `get_…_prefix`.
  unfoldable pub member_prefix : Value → Result Value
  unfolding netmask_to_prefix
  member_prefix member = key_in (codes "prefix") member >>= λ found. elim found [
    | true ↦ get_key member (codes "prefix")
    | false ↦ key_in (codes "netmask") member >>= λ found'. elim found' [
      | true ↦ get_key member (codes "netmask") >>= netmask_to_prefix
      | false ↦ err system_exit
    ]
  ]

  -- `get_…_prefix` for a list of members, or for one of them.
  unfoldable pub prefixes : Value → Option ℕ → Result Value
  unfolding member_prefix netmask_to_prefix
  prefixes members none = do
    ms ← iterate members
    list_ ← each member_prefix ms
    ok (list (to_values list_))
  prefixes members (some index) = do
    member ← get_index members index
    found ← key_in (codes "prefix") member
    elim found [
      | true ↦ get_key member (codes "prefix")
      | false ↦ do
        found' ← key_in (codes "netmask") member
        elim found' [
          | false ↦ err system_exit
          | true ↦ do netmask ← get_key member (codes "netmask"); netmask_to_prefix netmask
        ]
    ]
