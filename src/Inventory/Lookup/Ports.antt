-- ===== src/Inventory/Lookup/Ports.antt =====
-- What `get_port_mac_ip` returns, and when it misses a port that the inventory has.
use cluster_genesis.Base.{
  ℕ, suc, ◌≡◌, refl, sym, ap, ◌∙◌, ◌≢◌, ◌⊎◌, inl, inr, Bool, true, false, none, some,
  some-injective, List, [], ◌∷◌, arith, ◌==◌, nat_eq, option_eq, Bool-cases, Option-cases,
  get_elem?, get_elem?-lt, All, contains, index_of?, contains-get_elem?, index_of?-get_elem?,
  index_of?-none, index_of?-absent, Text, text_beq_iff, text_eq, ok,
}
use cluster_genesis.Base.Value.{Port, port_eq}
use cluster_genesis.Inventory.{Group, Node}
use cluster_genesis.Inventory.Macs.File.{IsAligned, get_elem?-some}
use cluster_genesis.Inventory.Lookup.{get_or_none, MacIp, group_mac_ip, get_port_mac_ip, entry_at}

-- The interface at index `j` is plugged into that port of that switch.
abbrev pub PluggedAt : Group → Text → Port → ℕ → Type 0
PluggedAt g switch port j =
    (get_elem? g.switches j ≡ some switch) × (get_elem? g.ports j ≡ some port)

-- No port number stands at two indices of the group.
abbrev pub UniquePorts : Group → Type 0
UniquePorts g =
    (i j : ℕ) (p : Port) → get_elem? g.ports i ≡ some p → get_elem? g.ports j ≡ some p → i ≡ j

-- The result is the entry of an interface at that place.
pub record EntryOf (g : Group) (switch : Text) (port : Port) (r : MacIp) : Type 0 where
  pub index : ℕ
  pub plugged : PluggedAt g switch port index
  pub mac : r.0 ≡ get_or_none g.macs index
  pub ipaddr : r.1 ≡ get_or_none g.ipaddrs index

abbrev Unplugged : Group → Text → Port → Type 0
Unplugged g switch port = (j : ℕ) → PluggedAt g switch port j → ⊥

entry_at_cases :
    (g : Group) (switch : Text) (port : Port) (idx : ℕ)
    → IsAligned g
    → UniquePorts g
    → get_elem? g.ports idx ≡ some port
    → ((entry_at g switch idx ≡ ok none) × Unplugged g switch port)
      ⊎ ((r : MacIp) × (entry_at g switch idx ≡ ok (some r)) × EntryOf g switch port r)
unfolding entry_at
entry_at_cases g switch port idx al uniq at =
    let (sw, hs) =
      get_elem?-some g.switches idx
        (omega (arith, al.switches, get_elem?-lt g.ports idx port at)) in
    elim (Bool-cases (switch == sw)) [
      | inl e ↦
          let same : switch ≡ sw = (text_beq_iff switch sw).0 e in
          inr (
            (get_or_none g.macs idx, get_or_none g.ipaddrs idx),
            rw hs (rw e refl),
            record { index = idx; plugged = (rw same hs, at); mac = refl; ipaddr = refl },
          )
      | inr e ↦ inl (
        rw hs (rw e refl),
        λ j h.
            let here : j ≡ idx = uniq j idx port h.1 at in
            let both : switch ≡ sw =
              some-injective switch sw (sym h.0 ∙ ap (get_elem? g.switches) here ∙ hs) in
            differ ((text_beq_iff switch sw).1 both) e,
      )
    ]
  where
    differ : {b : Bool} → b ≡ true → b ≡ false → ⊥
    differ p q = cc

group_mac_ip_cases :
    (g : Group) (switch : Text) (port : Port)
    → IsAligned g
    → UniquePorts g
    → ((group_mac_ip g switch port ≡ ok none) × Unplugged g switch port)
      ⊎ ((r : MacIp) × (group_mac_ip g switch port ≡ ok (some r)) × EntryOf g switch port r)
unfolding group_mac_ip
group_mac_ip_cases g switch port al uniq = elim (Option-cases (index_of? g.ports port)) [
  | inl e ↦ inl (
    rw (e, group_mac_ip),
    λ j h. differ (contains-get_elem? g.ports j port h.1) (index_of?-none g.ports port e),
  )
  | inr (idx, e) ↦
      rw (e, group_mac_ip)
        (entry_at_cases g switch port idx al uniq (index_of?-get_elem? g.ports port idx e))
]
  where
    differ : {b : Bool} → b ≡ true → b ≡ false → ⊥
    differ p q = cc

-- What the lookup needs of a node: the lists of both groups fit, and no port stands twice in one.
pub record IsRegular (n : Node) : Type 0 where
  pub ipmi_aligned : IsAligned n.ipmi
  pub pxe_aligned : IsAligned n.pxe
  pub ipmi_unique : UniquePorts n.ipmi
  pub pxe_unique : UniquePorts n.pxe

-- An interface of one of the two types.
abbrev pub NodeEntry : Node → Text → Port → MacIp → Type 0
NodeEntry n switch port r = EntryOf n.ipmi switch port r ⊎ EntryOf n.pxe switch port r

abbrev pub NodePlugged : Node → Text → Port → Type 0
NodePlugged n switch port =
    ((j : ℕ) × PluggedAt n.ipmi switch port j) ⊎ ((j : ℕ) × PluggedAt n.pxe switch port j)

-- If in every node the lists of the IPMI and PXE groups fit and no port stands twice in a group,
-- `get_port_mac_ip` returns the MAC and address of an interface that is plugged into that port of
-- that switch, or no IPMI or PXE interface of any node is and it returns a pair of `None`.
pub get_port_mac_ip_correct :
    (nodes : List Node) (switch : Text) (port : Port)
    → All IsRegular nodes
    → ((r : MacIp) × (a : ℕ) × (n : Node) × (get_port_mac_ip nodes switch port ≡ ok r)
        × (get_elem? nodes a ≡ some n)
        × NodeEntry n switch port r)
      ⊎ ((get_port_mac_ip nodes switch port ≡ ok (none, none))
          × All (λ n. ¬ NodePlugged n switch port) nodes)
unfolding get_port_mac_ip
get_port_mac_ip_correct [] switch port h = inr (refl, tt)
get_port_mac_ip_correct (n ∷ ns) switch port (reg, h) =
    elim (group_mac_ip_cases n.ipmi switch port reg.ipmi_aligned reg.ipmi_unique) [
      | inr (r, e, entry) ↦ inl (r, 0, n, rw e refl, refl, inl entry)
      | inl (e, no_ipmi) ↦
          elim (group_mac_ip_cases n.pxe switch port reg.pxe_aligned reg.pxe_unique) [
            | inr (r, e', entry) ↦ inl (r, 0, n, rw e (rw e' refl), refl, inr entry)
            | inl (e', no_pxe) ↦ elim (get_port_mac_ip_correct ns switch port h) [
              | inl (r, a, m, found, at, entry) ↦ inl (r, suc a, m, rw e (rw e' found), at, entry)
              | inr (nothing, rest) ↦ inr (
                rw e (rw e' nothing),
                (λ p. elim p [ inl (j, q) ↦ no_ipmi j q | inr (j, q) ↦ no_pxe j q ], rest),
              )
            ]
          ]
    ]

-- The first index of the port in the group, if there is one, is that of another switch. Later
-- indices do not matter.
pub data Hidden (g : Group) (switch : Text) (port : Port) : Type 0 where
  not_there : contains g.ports port ≡ false → Hidden g switch port
  elsewhere :
      (i : ℕ) (first : Text)
      → index_of? g.ports port ≡ some i
      → get_elem? g.switches i ≡ some first
      → first ≢ switch
      → Hidden g switch port

group_mac_ip_misses :
    (g : Group) (switch : Text) (port : Port)
    → Hidden g switch port
    → group_mac_ip g switch port ≡ ok none
unfolding group_mac_ip entry_at
group_mac_ip_misses g switch port (not_there h) =
    rw (index_of?-absent g.ports port h, group_mac_ip) refl
group_mac_ip_misses g switch port (elsewhere i first e at differ) =
    rw (e, group_mac_ip) (rw at (ground (arith, text_beq_iff switch first)))

group_mac_ip_finds :
    (g : Group) (switch : Text) (port : Port) (i : ℕ)
    → index_of? g.ports port ≡ some i
    → get_elem? g.switches i ≡ some switch
    → group_mac_ip g switch port ≡ ok (some (get_or_none g.macs i, get_or_none g.ipaddrs i))
unfolding group_mac_ip entry_at
group_mac_ip_finds g switch port i e at =
    rw (e, group_mac_ip) (rw at (rw ((text_beq_iff switch switch).1 refl) refl))

-- If the first IPMI interface of a node at a port is plugged into one switch, then `get_port_mac_ip`
-- finds the MAC and address of that interface for this switch; for any other switch it goes on to
-- the other nodes, whatever later interfaces of the node are plugged into that port of it, unless
-- the node's first PXE interface at the port is plugged into it.
pub get_port_mac_ip_misses :
    (n : Node) (ns : List Node) (first second : Text) (port : Port) (i : ℕ)
    → first ≢ second
    → index_of? n.ipmi.ports port ≡ some i
    → get_elem? n.ipmi.switches i ≡ some first
    → Hidden n.pxe second port
    → (get_port_mac_ip (n ∷ ns) first port
        ≡ ok (get_or_none n.ipmi.macs i, get_or_none n.ipmi.ipaddrs i))
      × (get_port_mac_ip (n ∷ ns) second port ≡ get_port_mac_ip ns second port)
unfolding get_port_mac_ip
get_port_mac_ip_misses n ns first second port i differ e at hidden = (
  rw (group_mac_ip_finds n.ipmi first port i e at) refl,
  rw (group_mac_ip_misses n.ipmi second port (elsewhere i first e at differ))
      (rw (group_mac_ip_misses n.pxe second port hidden) refl),
)
