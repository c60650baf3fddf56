-- ===== src/Items.antt =====
-- scripts/python/lib/inv_items.py: `_assign_interface_ips`, which gives the interfaces of one node
-- after the other their addresses.
pub mod Given
pub mod PortRows
pub mod Create
pub mod Pools
pub mod Build
pub mod Filled
pub mod Complete
pub mod Wired
pub mod Plugged
pub mod Inventoried
pub mod Named
pub mod Conserved
use cluster_genesis.Base.{
  Option, none, some, List, [], ◌∷◌, ◌++◌, if◌then◌else◌, nat_eq, option_eq, Text, codes, text_eq,
  Dict, lookup, has_key, insert, Result, ◌>>=◌, user_exception, key_error, ok, err,
}
use cluster_genesis.Base.Value.{port_eq, str}
use cluster_genesis.Config.Templates.Interfaces.{Interface}
use cluster_genesis.Reserve.Manager.{Netaddr}

-- The key that takes the address, if the interface has one.
unfoldable pub list_key : Interface → Option Text
list_key interface =
    if has_key (codes "IPADDR") interface
    then some (codes "IPADDR")
    else if has_key (codes "address") interface
    then some (codes "address")
    else none

module _ (net : Netaddr) where
  open net use {Ip, ip_str, plus}

  -- An entry of `interface_ip_lists`: a string, or an `IPAddress` from which the next is counted.
  pub data Source : Type 0 where
    text : Text → Source
    address : Ip → Source

  abbrev pub Pools : Type 0
  Pools = Dict Text (List Source)

  -- The address for one interface, and what is then left.
  unfoldable pub next_ip : Text → Pools → Result (Text × Pools)
  next_ip label pools = elim (lookup label pools) [
    | none ↦ err key_error
    | some [] ↦ err user_exception
    | some (text ip ∷ rest) ↦ ok (ip, insert label rest pools)
    | some (address ip ∷ rest) ↦ do
      following ← plus ip 1
      ok (ip_str ip, insert label (rest ++ address following ∷ []) pools)
  ]

  -- `_assign_interface_ips`: an interface comes with its label.
  unfoldable pub assign_interface_ips :
      List (Text × Interface) → Pools → Result (List (Text × Interface) × Pools)
  assign_interface_ips [] pools = ok ([], pools)
  assign_interface_ips ((label, interface) ∷ interfaces) pools =
      let rest = assign_interface_ips interfaces in
      elim (list_key interface) [
        | none ↦ do (done, left) ← rest pools; ok ((label, interface) ∷ done, left)
        | some key ↦ do
          (ip, pools') ← next_ip label pools
          (done, left) ← rest pools'
          ok ((label, insert key (str ip) interface) ∷ done, left)
      ]
