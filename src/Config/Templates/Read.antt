-- ===== src/Config/Templates/Read.antt =====
-- `get_ntmpl_interfaces` of scripts/python/lib/config.py on a loaded configuration. As the schema of
-- the configuration has it, an interface and a network have a label, a network has interfaces, and
-- labels are texts.
use cluster_genesis.Base.{
  ℕ, true, false, List, [], ◌∷◌, nat_eq, option_eq, Text, codes, text_eq, lookup, Result, ◌>>=◌,
  or_raise, each, attribute_error, type_error, ok, err,
}
use cluster_genesis.Config.Templates.{node_template}
use cluster_genesis.Base.Value.{Value, Fields, port_eq, null, dict, end, field}
use cluster_genesis.Config.Access.{get_key, iterate, key_in, as_text}
use cluster_genesis.Config.Templates.Ifcs.{get_interfaces, get_networks}
use cluster_genesis.Config.Templates.Pxe.{yield_ntmpl_phyintf_pxe_interface}
use cluster_genesis.Config.Templates.Settings.{yield_ntmpl_phyintf_data_interface}
use cluster_genesis.Config.Templates.Interfaces.{
  NetworkDef, Template, Interface, get_ntmpl_interfaces,
}

unfoldable pub texts : Value → Result (List Text)
unfolding as_text
texts v = do vs ← iterate v; each as_text vs

-- `if key in node_template and node_template[key] is not None`
unfoldable pub listed : Text → Value → Result (List Text)
unfolding texts
listed key template = key_in key template >>= λ found. elim found [
  | false ↦ ok []
  | true ↦ get_key template key >>= λ v. elim v [ null ↦ ok [] | w ↦ texts w ]
]

unfoldable pub read_template : Value → ℕ → Result Template
unfolding listed texts as_text yield_ntmpl_phyintf_pxe_interface yield_ntmpl_phyintf_data_interface
read_template cfg index = do
  template ← node_template cfg index
  pxe_interfaces ← yield_ntmpl_phyintf_pxe_interface cfg index
  pxe ← each as_text pxe_interfaces
  data_interfaces ← yield_ntmpl_phyintf_data_interface cfg index
  labels ← each as_text data_interfaces
  interfaces ← listed (codes "interfaces") template
  networks ← listed (codes "networks") template
  ok (record { pxe = pxe; data' = labels; interfaces = interfaces; networks = networks })

unfoldable pub read_network : Value → Result NetworkDef
unfolding as_text texts
read_network v = do
  l ← get_key v (codes "label")
  label ← as_text l
  members ← get_key v (codes "interfaces")
  interfaces ← texts members
  ok (record { label = label; interfaces = interfaces })

abbrev pub items_of : Fields → Interface
items_of end = []
items_of (field k v fs) = (k, v) ∷ items_of fs

abbrev pub fields_of : Interface → Fields
fields_of [] = end
fields_of ((k, v) ∷ d) = field k v (fields_of d)

-- An interface, with its label.
unfoldable pub labelled : Interface → Result (Text × Interface)
unfolding as_text
labelled interface = do
  l ← or_raise (lookup (codes "label") interface) attribute_error
  label ← as_text l
  ok (label, interface)

unfoldable pub read_interface : Value → Result (Text × Interface)
unfolding labelled
read_interface (dict fs) = labelled (items_of fs)
read_interface _ = err type_error

unfoldable pub ntmpl_interfaces : Value → ℕ → Result (List Interface)
unfolding get_interfaces get_networks read_template read_network read_interface get_ntmpl_interfaces
ntmpl_interfaces cfg index = do
  template ← read_template cfg index
  found ← get_interfaces cfg
  members ← iterate found
  interface_defs ← each read_interface members
  networks ← get_networks cfg
  defs ← iterate networks
  network_defs ← each read_network defs
  get_ntmpl_interfaces network_defs interface_defs template
