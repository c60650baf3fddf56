-- ===== src/Config/Templates/Interfaces.antt =====
-- scripts/python/lib/config.py: `get_ntmpl_interfaces`, the interface definitions that a node
-- template refers to. Labels are strings, by the schema.
pub mod Placed
pub mod Total
use cluster_genesis.Base.{
  ℕ, zero, suc, Option, none, some, List, [], ◌∷◌, ◌++◌, foldl, if◌then◌else◌, nat_eq, ◌==◌,
  option_eq, length, set, contains, index_of?, Text, codes, text_eq, Dict, has_key, insert, Result,
  ◌>>=◌, user_exception, ok, err,
}
use cluster_genesis.Base.Value.{Value, port_eq, null}

-- An interface definition: keys in order. `label` is one of them.
abbrev pub Interface : Type 0
Interface = Dict Text Value

-- A `networks` entry.
pub record NetworkDef : Type 0 where
  pub label : Text
  pub interfaces : List Text

-- What is read of a node template: the labels of its physical interfaces, and its lists, if given.
pub record Template : Type 0 where
  pub pxe : List Text
  pub data' : List Text
  pub interfaces : List Text
  pub networks : List Text

-- `if interface not in if_labels: if_labels.append(interface)`
unfoldable pub add_label : List Text → Text → List Text
add_label if_labels interface =
    if contains if_labels interface then if_labels else if_labels ++ interface ∷ []

-- The two inner loops for one network of the template.
unfoldable pub add_network : List NetworkDef → List Text → Text → List Text
add_network [] if_labels network = if_labels
add_network (network_def ∷ network_defs) if_labels network =
    if network == network_def.label
    then add_network network_defs (foldl add_label if_labels network_def.interfaces) network
    else add_network network_defs if_labels network

-- `if_labels`
unfoldable pub collect_labels : List NetworkDef → Template → List Text
collect_labels network_defs t =
    foldl (add_network network_defs) (foldl add_label (t.pxe ++ t.data') t.interfaces) t.networks

-- `key.split('_')[0]`
unfoldable pub until_underscore : Text → Text
until_underscore [] = []
until_underscore (c ∷ cs) = let rest = until_underscore cs in if c == 95 then [] else c ∷ rest

-- `del d[key]`, for a key that `d` has once.
unfoldable pub delete : Text → Interface → Interface
delete key [] = []
delete key ((k, v) ∷ d) = let rest = delete key d in if k == key then d else (k, v) ∷ rest

abbrev pub replace_keys : List Text
replace_keys =
    codes "address_list" ∷ codes "address_start" ∷ codes "IPADDR_list" ∷ codes "IPADDR_start" ∷ []

-- A round of the loop over `replace_keys`.
unfoldable pub replace_key : Interface → Text → Interface
replace_key interface key =
    if has_key key interface
    then insert (until_underscore key) null (delete key interface)
    else interface

-- The copy with the lists of addresses taken out.
unfoldable pub strip_addresses : Interface → Interface
strip_addresses interface = foldl replace_key interface replace_keys

-- A round of the loop over `interface_defs`: the definition goes to the first place of its label.
unfoldable pub place :
    List Text → List (Option Interface) → Text × Interface → List (Option Interface)
place if_labels interfaces (label, interface) = elim (index_of? if_labels label) [
  | none ↦ interfaces
  | some index ↦ set interfaces index (some (strip_addresses interface))
]

-- `[None] * n`
unfoldable pub nones : ℕ → List (Option Interface)
nones zero = []
nones (suc n) = none ∷ nones n

-- The last loop: an empty place raises.
unfoldable pub all_defined : List (Option Interface) → Result (List Interface)
all_defined [] = ok []
all_defined (none ∷ interfaces) = err user_exception
all_defined (some interface ∷ interfaces) = do rest ← all_defined interfaces; ok (interface ∷ rest)

-- `interfaces` before the last loop; a definition comes with its label.
unfoldable pub placed : List Text → List (Text × Interface) → List (Option Interface)
placed if_labels interface_defs = foldl (place if_labels) (nones (length if_labels)) interface_defs

unfoldable pub get_ntmpl_interfaces :
    List NetworkDef → List (Text × Interface) → Template → Result (List Interface)
get_ntmpl_interfaces network_defs interface_defs node_template =
    all_defined (placed (collect_labels network_defs node_template) interface_defs)
