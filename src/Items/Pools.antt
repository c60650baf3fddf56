-- ===== src/Items/Pools.antt =====
-- scripts/python/lib/inv_items.py: `_gen_interface_ip_lists`, and `create_nodes` as a whole with the
-- inventory that `InventoryCreate` in scripts/python/inv_create.py writes. As the schema of the
-- configuration has it, an interface is a dict with a label, and its addresses are texts.
use cluster_genesis.Base.{
  true, false, Option, none, some, List, [], ◌∷◌, ◌++◌, map, nat_eq, option_eq, Text, codes,
  text_eq, insert, Result, ◌>>=◌, item, ok,
}
use cluster_genesis.Base.Value.{Value, port_eq}
use cluster_genesis.Config.Access.{attr, iterate, key_in, as_text}
use cluster_genesis.Config.Templates.Ifcs.{get_interfaces}
use cluster_genesis.Config.Templates.Read.{texts}
use cluster_genesis.Base.Strings.{occurs, split}
use cluster_genesis.Items.{Source, Pools, text, address}
use cluster_genesis.Reserve.Manager.{Netaddr}

-- `if ADDRESS in keys … elif IPADDR in keys …`: the value under the first key that is there.
unfoldable pub first_of : Text → Text → Value → Result (Option Value)
first_of key other interface = key_in key interface >>= λ found. elim found [
  | true ↦ attr interface key >>= λ v. ok (some v)
  | false ↦ key_in other interface >>= λ found'. elim found' [
    | true ↦ attr interface other >>= λ v. ok (some v)
    | false ↦ ok none
  ]
]

-- The library netaddr beyond `Netaddr`: `iter_iprange` of two texts, and `IPAddress` of a value.
module _ (net : Netaddr) (ip_range : Text → Text → Result (List net.Ip))
    (ip_address : Value → Result net.Ip) where
  open net use {Ip, ip_str}

  -- A listed address, or the range between the first and the second part.
  unfoldable pub expand : Text → Result (List (Source net))
  unfolding occurs split
  expand ip = elim (occurs (codes "-") ip) [
    | false ↦ ok (text ip ∷ [])
    | true ↦ do
      start ← item (split 45 ip) 0
      stop ← item (split 45 ip) 1
      ips ← ip_range start stop
      ok (map (λ a. text (ip_str a)) ips)
  ]

  unfoldable pub expand_all : List Text → Result (List (Source net))
  unfolding expand
  expand_all [] = ok []
  expand_all (ip ∷ ips) = do found ← expand ip; rest ← expand_all ips; ok (found ++ rest)

  unfoldable pub listed_ips : Option Value → Result (List (Source net))
  unfolding texts expand_all
  listed_ips none = ok []
  listed_ips (some v) = do ip_list_prelim ← texts v; expand_all ip_list_prelim

  -- A start address replaces the list.
  unfoldable pub or_start : Option Value → List (Source net) → Result (List (Source net))
  or_start none ip_list = ok ip_list
  or_start (some v) ip_list = do start ← ip_address v; ok (address start ∷ [])

  unfoldable pub add_pool : Pools net → Value → Result (Pools net)
  unfolding as_text first_of listed_ips or_start
  add_pool pools interface = do
    l ← attr interface (codes "label")
    label ← as_text l
    given ← first_of (codes "address_list") (codes "IPADDR_list") interface
    ip_list ← listed_ips given
    start ← first_of (codes "address_start") (codes "IPADDR_start") interface
    ip_list' ← or_start start ip_list
    ok (insert label ip_list' pools)

  unfoldable pub add_pools : Pools net → List Value → Result (Pools net)
  unfolding add_pool
  add_pools pools [] = ok pools
  add_pools pools (interface ∷ interfaces) = do
    pools' ← add_pool pools interface
    add_pools pools' interfaces

  unfoldable pub gen_interface_ip_lists : Value → Result (Pools net)
  unfolding get_interfaces add_pools
  gen_interface_ip_lists cfg = do
    found ← get_interfaces cfg
    interfaces ← iterate found
    add_pools [] interfaces
