-- ===== src/Reserve/Assign.antt =====
-- `inv_set_ipmi_pxe_ip`: the choice of the two managers and the loop that gives out addresses.
pub mod Distinct
pub mod Exhausted
use cluster_genesis.Base.{
  ℕ, ◌+◌, Bool, true, false, Option, none, some, List, [], ◌∷◌, ◌++◌, if◌then◌else◌, ◌==◌, nat_eq,
  option_eq, Text, text_eq, Result, or_raise, user_exception, type_error, ok, err,
}
use cluster_genesis.Base.Value.{port_eq}
use cluster_genesis.Exec.{Exec, lift, modify, ◌>>=◌, ◌>>◌}
use cluster_genesis.Reserve.Manager.{Netaddr, Network, IpManager, init, get_next_ip}

-- A `deployer: networks: client` entry: its type and the network of its container address.
pub data NetwType : Type 0 where
  ipmi pxe other : NetwType

-- What the loop does outside the two managers, in order.
pub data Effect : Type 0 where
  remove_host : Text → Effect
  append_host : Text → Text → Text → Text → Effect
  adjust_ipmi_pool : Text → Text → Effect
  adjust_pxe_pool : Text → Text → Effect
  set_pxe_ipaddr : ℕ → Text → Effect
  cobbler_sync : Effect

-- What the inventory has for a node, in the order of the host names.
pub record Host : Type 0 where
  pub hostname : Text
  pub ipmi_ipaddr : Option Text
  pub ipmi_mac : Option Text

-- An entry of `nodes_list`: a BMC that is to take a new address.
pub record Pending : Type 0 where
  pub hostname : Text
  pub index : ℕ
  pub ipmi_new_ipaddr : Text
  pub ipmi_ipaddr : Option Text
  pub ipmi_mac : Text

module _ (net : Netaddr) where
  -- `ipmiNetwork` and `pxeNetwork` are one object, or two.
  pub data Managers : Type 0 where
    shared : IpManager net → Managers
    separate : IpManager net → IpManager net → Managers

  -- The state of the loop over the host names, and what it has handed out so far, newest last.
  pub record Loop : Type 0 where
    pub managers : Managers
    pub effects : List Effect
    pub nodes_list : List Pending
    pub handed : List Text

  abbrev with_managers : Result (Text × Managers) → Loop → Result Text × Loop
  with_managers (ok (ip, ms)) s = (ok ip, record s { managers = ms })
  with_managers (err e) s = (err e, s)

  -- `ipmiNetwork.get_next_ip(reserve)`
  unfoldable pub next_ipmi : Bool → Managers → Result (Text × Managers)
  next_ipmi reserve (shared m) = elim (get_next_ip net reserve m) [
    | ok (ip, m') ↦ ok (ip, shared m')
    | err e ↦ err e
  ]
  next_ipmi reserve (separate a b) = elim (get_next_ip net reserve a) [
    | ok (ip, a') ↦ ok (ip, separate a' b)
    | err e ↦ err e
  ]

  -- `pxeNetwork.get_next_ip(reserve)`
  unfoldable pub next_pxe : Bool → Managers → Result (Text × Managers)
  next_pxe reserve (shared m) = elim (get_next_ip net reserve m) [
    | ok (ip, m') ↦ ok (ip, shared m')
    | err e ↦ err e
  ]
  next_pxe reserve (separate a b) = elim (get_next_ip net reserve b) [
    | ok (ip, b') ↦ ok (ip, separate a b')
    | err e ↦ err e
  ]

  abbrev pub take_ipmi : Bool → Exec Loop Text
  take_ipmi reserve s = with_managers (next_ipmi reserve s.managers) s

  abbrev pub take_pxe : Bool → Exec Loop Text
  take_pxe reserve s = with_managers (next_pxe reserve s.managers) s

  abbrev emit : Effect → Exec Loop (Unit {0})
  emit e = modify (λ s. record s { effects = s.effects ++ e ∷ [] })

  abbrev hand : Text → Exec Loop (Unit {0})
  hand ip = modify (λ s. record s { handed = s.handed ++ ip ∷ [] })

  -- `if ipmi_new_ipaddr != ipmi_ipaddr: nodes_list.append(…)`
  abbrev remember : Pending → Exec Loop (Unit {0})
  remember p = modify (λ s.
      if p.ipmi_ipaddr == some p.ipmi_new_ipaddr
      then s
      else record s { nodes_list = s.nodes_list ++ p ∷ [] })

  -- One round of the loop over the host names.
  unfoldable pub assign_host : Text → ℕ → Host → Exec Loop (Unit {0})
  assign_host lease index h = do
    ipmi_new_ipaddr ← take_ipmi true
    ipmi_mac ← lift (or_raise h.ipmi_mac type_error)
    emit (remove_host ipmi_mac)
    emit (append_host ipmi_mac h.hostname ipmi_new_ipaddr lease)
    hand ipmi_new_ipaddr
    ipmi_pool ← take_ipmi false
    emit (adjust_ipmi_pool ipmi_pool lease)
    pxe_new_ipaddr ← take_pxe true
    emit (set_pxe_ipaddr index pxe_new_ipaddr)
    hand pxe_new_ipaddr
    pxe_pool ← take_pxe false
    emit (adjust_pxe_pool pxe_pool lease)
    emit cobbler_sync
    remember (record {
      hostname = h.hostname;
      index = index;
      ipmi_new_ipaddr = ipmi_new_ipaddr;
      ipmi_ipaddr = h.ipmi_ipaddr;
      ipmi_mac = ipmi_mac;
    })

  unfoldable pub assign_hosts : Text → ℕ → List Host → Exec Loop (Unit {0})
  assign_hosts lease index [] s = (ok tt, s)
  assign_hosts lease index (h ∷ hs) s =
      let (r, s') = assign_host lease index h s in
      elim r [ err e ↦ (err e, s') | ok _ ↦ assign_hosts lease (index + 1) hs s' ]

  -- The loop over the client networks: a later one of a type takes the place of an earlier one.
  unfoldable pub client_managers :
      ℕ
      → List (NetwType × Network net)
      → Option (IpManager net) × Option (IpManager net)
      → Result (Option (IpManager net) × Option (IpManager net))
  client_managers start_offset [] found = ok found
  client_managers start_offset ((netw_type, network) ∷ rest) (i, p) = elim netw_type [
    | ipmi ↦ elim (init net network start_offset) [
      | err e ↦ err e
      | ok m ↦ client_managers start_offset rest (some m, p)
    ]
    | pxe ↦ elim (init net network start_offset) [
      | err e ↦ err e
      | ok m ↦ client_managers start_offset rest (i, some m)
    ]
    | other ↦ client_managers start_offset rest (i, p)
  ]

  -- If only one network is defined both names are for one object.
  unfoldable pub choose_managers : Option (IpManager net) × Option (IpManager net) → Result Managers
  choose_managers (none, some p) = ok (shared p)
  choose_managers (some i, none) = ok (shared i)
  choose_managers (none, none) = err user_exception
  choose_managers (some i, some p) = ok (separate i p)
