-- ===== src/Inventory.antt =====
-- scripts/python/lib/inventory.py: the nodes of the cluster, as the inventory file holds them.
pub mod Macs
pub mod Lookup
pub mod Columns
use cluster_genesis.Base.{
  ℕ, Bool, Option, none, some, List, [], ◌∷◌, if◌then◌else◌, nat_eq, option_eq, contains, Text,
  text_eq, Dict, lookup, Result, set_item, user_exception, ok, err,
}
use cluster_genesis.Base.Value.{Value, Port, port_eq}

-- The interfaces of one type of a node: parallel lists, one entry for each interface.
pub record Group : Type 0 where
  pub switches : List Text
  pub ports : List Port
  pub macs : List (Option Text)
  pub ipaddrs : List (Option Text)
  pub devices : List Text
  pub rename : List Bool

pub record Node : Type 0 where
  pub hostname : Text
  pub ipmi : Group
  pub pxe : Group
  pub data' : Group
  pub interfaces : List (Dict Text Value)

pub data Kind : Type 0 where
  ipmi pxe data' : Kind

-- `node[type_]`
abbrev pub group : Kind → Node → Group
group Kind.ipmi n = n.ipmi
group Kind.pxe n = n.pxe
group Kind.data' n = n.data'

abbrev pub set_group : Kind → Group → Node → Node
set_group Kind.ipmi g n = record n { ipmi = g }
set_group Kind.pxe g n = record n { pxe = g }
set_group Kind.data' g n = record n { data' = g }

-- Switch{Port}{[MAC]}
abbrev pub Macs : Type 0
Macs = Dict Text (Dict Text (List Text))

-- The guards of `_add_macs`: the MAC to record, or `none` for `continue`.
unfoldable pub port_mac : Macs → Text → Text → Result (Option Text)
port_mac macs switch port = elim (lookup switch macs) [
  | none ↦ err user_exception
  | some table ↦ elim (lookup port table) [
    | none ↦ ok none
    | some found ↦ elim found [
      | [] ↦ ok none
      | mac ∷ more ↦ elim more [ [] ↦ ok (some mac) | _ ∷ _ ↦ err user_exception ]
    ]
  ]
]

-- `if x not in xs: xs[index] = x`
unfoldable pub record_item : Text → ℕ → List (Option Text) → Result (List (Option Text))
record_item x i xs = if contains xs (some x) then ok xs else set_item xs i (some x)
