-- ===== src/Inventory/Columns.antt =====
-- scripts/python/lib/inventory.py: the object's `nodes`, a list of values for each property of a
-- node, and the methods that append to them; and `update_nodes`, which turns the lists into nodes.
pub mod Places
pub mod Stored
pub mod Written
pub mod Update
pub mod Transposed
use cluster_genesis.Base.{
  ℕ, ◌+◌, none, some, List, [], ◌∷◌, ◌++◌, foldl, leb, if◌then◌else◌, nat_eq, ◌==◌, option_eq,
  length, set, Text, codes, text_eq, Dict, insert, Result, ◌>>=◌, item, type_error, ok, err,
}
use cluster_genesis.Base.Value.{Value, Fields, port_eq, dict, end, field}
use cluster_genesis.Config.Access.{find_field}
use cluster_genesis.Base.Strings.{occurs, split}

-- The lists, in the order of `__init__`.
pub record IpmiColumns : Type 0 where
  pub switches : List Value
  pub ports : List Value
  pub macs : List Value
  pub ipaddrs : List Value
  pub userid : List Value
  pub password : List Value

pub record PxeColumns : Type 0 where
  pub ports : List Value
  pub macs : List Value
  pub ipaddrs : List Value
  pub devices : List Value
  pub switches : List Value
  pub rename : List Value

pub record DataColumns : Type 0 where
  pub switches : List Value
  pub ports : List Value
  pub macs : List Value
  pub ipaddrs : List Value
  pub devices : List Value
  pub rename : List Value

pub record Columns : Type 0 where
  pub label : List Value
  pub hostname : List Value
  pub rack_id : List Value
  pub bmc_type : List Value
  pub ipmi : IpmiColumns
  pub pxe : PxeColumns
  pub data' : DataColumns
  pub os : List Value
  pub roles : List Value
  pub interfaces : List Value

abbrev pub no_nodes : Columns
no_nodes = record {
  label = [];
  hostname = [];
  rack_id = [];
  bmc_type = [];
  ipmi = record { switches = []; ports = []; macs = []; ipaddrs = []; userid = []; password = [] };
  pxe = record { ports = []; macs = []; ipaddrs = []; devices = []; switches = []; rename = [] };
  data' = record { switches = []; ports = []; macs = []; ipaddrs = []; devices = []; rename = [] };
  os = [];
  roles = [];
  interfaces = [];
}

-- `xs.append(v)`
abbrev pub appended : List Value → Value → List Value
appended xs v = xs ++ v ∷ []

abbrev pub add_nodes_hostname : Value → Columns → Columns
add_nodes_hostname v c = record c { hostname = appended c.hostname v }

abbrev pub add_nodes_label : Value → Columns → Columns
add_nodes_label v c = record c { label = appended c.label v }

abbrev pub add_nodes_os_dict : Value → Columns → Columns
add_nodes_os_dict v c = record c { os = appended c.os v }

abbrev pub add_nodes_rack_id : Value → Columns → Columns
add_nodes_rack_id v c = record c { rack_id = appended c.rack_id v }

abbrev pub add_nodes_bmc_type : Value → Columns → Columns
add_nodes_bmc_type v c = record c { bmc_type = appended c.bmc_type v }

abbrev pub add_nodes_switches_ipmi : Value → Columns → Columns
add_nodes_switches_ipmi v c = record c {
  ipmi = record c.ipmi { switches = appended c.ipmi.switches v };
}

abbrev pub add_nodes_switches_pxe : Value → Columns → Columns
add_nodes_switches_pxe v c = record c {
  pxe = record c.pxe { switches = appended c.pxe.switches v };
}

abbrev pub add_nodes_switches_data : Value → Columns → Columns
add_nodes_switches_data v c = record c {
  data' = record c.data' { switches = appended c.data'.switches v };
}

abbrev pub add_nodes_ports_ipmi : Value → Columns → Columns
add_nodes_ports_ipmi v c = record c { ipmi = record c.ipmi { ports = appended c.ipmi.ports v } }

abbrev pub add_nodes_ports_pxe : Value → Columns → Columns
add_nodes_ports_pxe v c = record c { pxe = record c.pxe { ports = appended c.pxe.ports v } }

abbrev pub add_nodes_ports_data : Value → Columns → Columns
add_nodes_ports_data v c = record c { data' = record c.data' { ports = appended c.data'.ports v } }

abbrev pub add_nodes_macs_ipmi : Value → Columns → Columns
add_nodes_macs_ipmi v c = record c { ipmi = record c.ipmi { macs = appended c.ipmi.macs v } }

abbrev pub add_nodes_macs_pxe : Value → Columns → Columns
add_nodes_macs_pxe v c = record c { pxe = record c.pxe { macs = appended c.pxe.macs v } }

abbrev pub add_nodes_macs_data : Value → Columns → Columns
add_nodes_macs_data v c = record c { data' = record c.data' { macs = appended c.data'.macs v } }

abbrev pub add_nodes_ipaddrs_ipmi : Value → Columns → Columns
add_nodes_ipaddrs_ipmi v c = record c {
  ipmi = record c.ipmi { ipaddrs = appended c.ipmi.ipaddrs v };
}

abbrev pub add_nodes_ipaddrs_pxe : Value → Columns → Columns
add_nodes_ipaddrs_pxe v c = record c { pxe = record c.pxe { ipaddrs = appended c.pxe.ipaddrs v } }

abbrev pub add_nodes_userid_ipmi : Value → Columns → Columns
add_nodes_userid_ipmi v c = record c { ipmi = record c.ipmi { userid = appended c.ipmi.userid v } }

abbrev pub add_nodes_password_ipmi : Value → Columns → Columns
add_nodes_password_ipmi v c = record c {
  ipmi = record c.ipmi { password = appended c.ipmi.password v };
}

abbrev pub add_nodes_devices_pxe : Value → Columns → Columns
add_nodes_devices_pxe v c = record c { pxe = record c.pxe { devices = appended c.pxe.devices v } }

abbrev pub add_nodes_devices_data : Value → Columns → Columns
add_nodes_devices_data v c = record c {
  data' = record c.data' { devices = appended c.data'.devices v };
}

abbrev pub add_nodes_roles : Value → Columns → Columns
add_nodes_roles v c = record c { roles = appended c.roles v }

abbrev pub add_nodes_rename_data : Value → Columns → Columns
add_nodes_rename_data v c = record c {
  data' = record c.data' { rename = appended c.data'.rename v };
}

abbrev pub add_nodes_rename_pxe : Value → Columns → Columns
add_nodes_rename_pxe v c = record c { pxe = record c.pxe { rename = appended c.pxe.rename v } }

abbrev pub add_nodes_interfaces : Value → Columns → Columns
add_nodes_interfaces v c = record c { interfaces = appended c.interfaces v }

-- The dict `self.nodes`: a value is a list or a dict.
mutual
  pub data Tree : Type 0 where
    column : List Value → Tree
    nested : Branches → Tree

  pub data Branches : Type 0 where
    no_branch : Branches
    branch : Text → Tree → Branches → Branches

unfoldable pub branches : List (Text × List Value) → Branches
branches [] = no_branch
branches ((k, vs) ∷ cs) = branch k (column vs) (branches cs)

unfoldable pub ipmi_tree : IpmiColumns → Branches
unfolding branches
ipmi_tree g = branches (
    (codes "switches", g.switches)
    ∷ (codes "ports", g.ports)
    ∷ (codes "macs", g.macs)
    ∷ (codes "ipaddrs", g.ipaddrs)
    ∷ (codes "userid", g.userid)
    ∷ (codes "password", g.password)
    ∷ [])

unfoldable pub pxe_tree : PxeColumns → Branches
unfolding branches
pxe_tree g = branches (
    (codes "ports", g.ports)
    ∷ (codes "macs", g.macs)
    ∷ (codes "ipaddrs", g.ipaddrs)
    ∷ (codes "devices", g.devices)
    ∷ (codes "switches", g.switches)
    ∷ (codes "rename", g.rename)
    ∷ [])

unfoldable pub data_tree : DataColumns → Branches
unfolding branches
data_tree g = branches (
    (codes "switches", g.switches)
    ∷ (codes "ports", g.ports)
    ∷ (codes "macs", g.macs)
    ∷ (codes "ipaddrs", g.ipaddrs)
    ∷ (codes "devices", g.devices)
    ∷ (codes "rename", g.rename)
    ∷ [])

unfoldable pub tree : Columns → Branches
unfolding ipmi_tree pxe_tree data_tree
tree c = branch (codes "label") (column c.label) (
    branch (codes "hostname") (column c.hostname) (
      branch (codes "rack_id") (column c.rack_id) (
        branch (codes "bmc_type") (column c.bmc_type) (
          branch (codes "ipmi") (nested (ipmi_tree c.ipmi)) (
            branch (codes "pxe") (nested (pxe_tree c.pxe)) (
              branch (codes "data") (nested (data_tree c.data')) (
                branch (codes "os") (column c.os) (
                  branch (codes "roles") (column c.roles)
                    (branch (codes "interfaces") (column c.interfaces) no_branch)))))))))

-- `key + '.' + subkey`
unfoldable pub prefixed : Text → List (Text × List Value) → List (Text × List Value)
prefixed key [] = []
prefixed key ((subkey, vs) ∷ cs) = (key ++ (codes "." ++ subkey), vs) ∷ prefixed key cs

-- `AttrDict(items())`
unfoldable pub dict_of : List (Text × List Value) → Dict Text (List Value)
dict_of cs = foldl (λ d e. insert e.0 e.1 d) [] cs

-- The items that `_flatten` yields for a dict.
unfoldable mutual
  unfolding prefixed dict_of

  pub flat_items : Branches → List (Text × List Value)
  flat_items no_branch = []
  flat_items (branch key t bs) = tree_items key t ++ flat_items bs

  pub tree_items : Text → Tree → List (Text × List Value)
  tree_items key (column vs) = (key, vs) ∷ []
  tree_items key (nested bs) = prefixed key (dict_of (flat_items bs))

unfoldable pub flatten : Columns → Dict Text (List Value)
unfolding tree flat_items tree_items dict_of
flatten c = dict_of (flat_items (tree c))

-- `self.nodes[k] = v` in a node; a new key comes last.
abbrev pub set_field : Text → Value → Fields → Fields
set_field k v end = field k v end
set_field k v (field j w fs) = if j == k then field j v fs else field j w (set_field k v fs)

-- `nodes[index][k0][k1] = v`, where a missing `k0` is an empty dict first.
unfoldable pub set_below : Text → Text → Value → Fields → Result Fields
set_below k0 k1 v fs = elim (find_field fs k0) [
  | none ↦ ok (set_field k0 (dict (field k1 v end)) fs)
  | some w ↦ elim w [
    | dict gs ↦ ok (set_field k0 (dict (set_field k1 v gs)) fs)
    | _ ↦ err type_error
  ]
]

unfoldable pub set_in_node : Text → Value → Fields → Result Fields
unfolding set_below occurs split
set_in_node item_key v fs =
    if occurs (codes ".") item_key
    then (do
      let parts = split 46 item_key
      k0 ← item parts 0
      k1 ← item parts 1
      set_below k0 k1 v fs)
    else ok (set_field item_key v fs)

-- The inner loop, over the values of a list from an index on.
unfoldable pub write_column : Text → ℕ → List Value → List Fields → Result (List Fields)
unfolding set_in_node
write_column item_key index [] nodes = ok nodes
write_column item_key index (v ∷ vs) nodes = do
  let nodes' = if leb (length nodes) index then nodes ++ end ∷ [] else nodes
  fs ← item nodes' index
  fs' ← set_in_node item_key v fs
  write_column item_key (index + 1) vs (set nodes' index fs')

unfoldable pub write_columns : Dict Text (List Value) → List Fields → Result (List Fields)
unfolding write_column
write_columns [] nodes = ok nodes
write_columns ((item_key, item_values) ∷ flat) nodes = do
  nodes' ← write_column item_key 0 item_values nodes
  write_columns flat nodes'

-- The nodes that `update_nodes` writes to the inventory.
unfoldable pub update_nodes : Columns → Result (List Fields)
unfolding write_columns flatten
update_nodes c = write_columns (flatten c) []
