-- ===== src/Inventory/Columns/Places.antt =====
-- Where `update_nodes` puts the values of a list: the keys that `_flatten` joins with a dot.
-- Where the values of a list go: a key of the node, or a key of a dict in the node.
use cluster_genesis.Base.{
  ℕ, ◌≡◌, refl, Bool, true, false, not, ◌&&◌, ◌||◌, List, [], ◌∷◌, ◌++◌, arith, nat_beq_iff, nat_eq,
  ◌==◌, option_eq, Text, codes, text_beq, text_eq, Dict, Result, ok,
}
use cluster_genesis.Base.Value.{Value, Fields, port_eq}
use cluster_genesis.Inventory.Columns.{Columns, flatten, set_field, set_below, set_in_node}
use cluster_genesis.Base.Strings.{strip_prefix, starts_with, occurs}
use cluster_genesis.Base.Value.Splits.{split-avoids, split-append, occurs-avoids}
use cluster_genesis.Base.Value.Decimal.{avoids}

pub data Place : Type 0 where
  top : Text → Place
  below : Text → Text → Place

abbrev pub places : Columns → List (Place × List Value)
places c =
    (top (codes "label"), c.label)
    ∷ (top (codes "hostname"), c.hostname)
    ∷ (top (codes "rack_id"), c.rack_id)
    ∷ (top (codes "bmc_type"), c.bmc_type)
    ∷ (below (codes "ipmi") (codes "switches"), c.ipmi.switches)
    ∷ (below (codes "ipmi") (codes "ports"), c.ipmi.ports)
    ∷ (below (codes "ipmi") (codes "macs"), c.ipmi.macs)
    ∷ (below (codes "ipmi") (codes "ipaddrs"), c.ipmi.ipaddrs)
    ∷ (below (codes "ipmi") (codes "userid"), c.ipmi.userid)
    ∷ (below (codes "ipmi") (codes "password"), c.ipmi.password)
    ∷ (below (codes "pxe") (codes "ports"), c.pxe.ports)
    ∷ (below (codes "pxe") (codes "macs"), c.pxe.macs)
    ∷ (below (codes "pxe") (codes "ipaddrs"), c.pxe.ipaddrs)
    ∷ (below (codes "pxe") (codes "devices"), c.pxe.devices)
    ∷ (below (codes "pxe") (codes "switches"), c.pxe.switches)
    ∷ (below (codes "pxe") (codes "rename"), c.pxe.rename)
    ∷ (below (codes "data") (codes "switches"), c.data'.switches)
    ∷ (below (codes "data") (codes "ports"), c.data'.ports)
    ∷ (below (codes "data") (codes "macs"), c.data'.macs)
    ∷ (below (codes "data") (codes "ipaddrs"), c.data'.ipaddrs)
    ∷ (below (codes "data") (codes "devices"), c.data'.devices)
    ∷ (below (codes "data") (codes "rename"), c.data'.rename)
    ∷ (top (codes "os"), c.os)
    ∷ (top (codes "roles"), c.roles)
    ∷ (top (codes "interfaces"), c.interfaces)
    ∷ []

abbrev pub key_of : Place → Text
key_of (top k) = k
key_of (below k0 k1) = k0 ++ (codes "." ++ k1)

abbrev pub keyed : List (Place × List Value) → Dict Text (List Value)
keyed [] = []
keyed ((p, vs) ∷ ps) = (key_of p, vs) ∷ keyed ps

pub flatten-places : (c : Columns) → flatten c ≡ keyed (places c)
unfolding flatten text_beq
flatten-places c = refl

abbrev pub same : Place → Place → Bool
same (top k) (top j) = k == j
same (top k) (below j0 j1) = false
same (below k0 k1) (top j) = false
same (below k0 k1) (below j0 j1) = k0 == j0 && k1 == j1

-- The keys of a node at which a dict stands.
unfoldable pub is_group : Text → Bool
is_group k = k == codes "ipmi" || (k == codes "pxe" || k == codes "data")

-- The keys have no dot, and lists and dicts do not share a key.
unfoldable pub fits : Place → Bool
unfolding is_group avoids
fits (top k) = not (is_group k) && avoids 46 k
fits (below k0 k1) = is_group k0 && (avoids 46 k0 && avoids 46 k1)

-- `nodes[index][keys[0]][keys[1]] = v`, or `nodes[index][item_key] = v`
unfoldable pub store : Place → Value → Fields → Result Fields
unfolding set_below
store (top k) v fs = ok (set_field k v fs)
store (below k0 k1) v fs = set_below k0 k1 v fs

occurs-append : (c : ℕ) (t u : Text) → occurs (c ∷ []) (t ++ c ∷ u) ≡ true
unfolding occurs starts_with strip_prefix
occurs-append c [] u = ground (arith, (nat_beq_iff c c).1 refl)
occurs-append c (d ∷ t) u = ground (arith, occurs-append c t u)

pub set_in_node-store :
    (p : Place) (v : Value) (fs : Fields)
    → fits p ≡ true
    → set_in_node (key_of p) v fs ≡ store p v fs
unfolding set_in_node store fits
set_in_node-store (top k) v fs h = rw (occurs-avoids 46 k (ground arith)) refl
set_in_node-store (below k0 k1) v fs h =
    rw
      (
        occurs-append 46 k0 k1,
        split-append 46 k0 k1 (ground arith),
        split-avoids 46 k1 (ground arith),
      )
      refl
