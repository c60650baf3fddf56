-- ===== src/Config/Templates/Ifcs.antt =====
-- scripts/python/lib/config.py: the interfaces and networks of a node template, and those of the
-- top level.
use cluster_genesis.Base.{
  ℕ, Bool, true, false, Option, none, some, List, [], ◌∷◌, ◌++◌, nat_eq, option_eq, Text, codes,
  text_eq, Result, ◌>>=◌, attribute_error, type_error, ok, err,
}
use cluster_genesis.Base.Value.{Value, port_eq, null, str, list, dict, nil, end}
use cluster_genesis.Config.Access.{
  path, attr, get_key, key_in, iterate, get_index, is_str, len, range,
}
use cluster_genesis.Config.Templates.{node_template}

unfoldable pub get_interfaces : Value → Result Value
get_interfaces cfg = path cfg (codes "interfaces" ∷ [])

unfoldable pub get_networks : Value → Result Value
get_networks cfg = do
  found ← key_in (codes "networks") cfg
  elim found [ true ↦ attr cfg (codes "networks") | false ↦ ok (list nil) ]

-- The first interface with the label, or an empty dict.
unfoldable find_label : Text → List Value → Result Value
find_label label [] = ok (dict end)
find_label label (ifc ∷ ifcs) = get_key ifc (codes "label") >>= λ l. elim (is_str label l) [
  | true ↦ ok ifc
  | false ↦ find_label label ifcs
]

unfoldable pub get_interface : Value → Text → Result Value
unfolding find_label get_interfaces
get_interface cfg label = do ifcs ← get_interfaces cfg; items ← iterate ifcs; find_label label items

-- `v if v is None else v[:]`
unfoldable copied : Value → Result Value
copied null = ok null
copied (list vs) = ok (list vs)
copied (str s) = ok (str s)
copied v = err type_error

-- The list of a node template under a key, or `None` where the template lacks the key.
unfoldable ntmpl_list : Text → Value → ℕ → Option ℕ → Result Value
unfolding copied
ntmpl_list key cfg node_template_index index = do
  template ← node_template cfg node_template_index
  found ← key_in key template
  elim found [
    | false ↦ ok null
    | true ↦ attr template key >>= λ members. elim index [
      | none ↦ copied members
      | some i ↦ get_index members i
    ]
  ]

unfoldable pub get_ntmpl_netw : Value → ℕ → Option ℕ → Result Value
unfolding ntmpl_list
get_ntmpl_netw cfg node_template_index index =
    ntmpl_list (codes "networks") cfg node_template_index index

unfoldable pub get_ntmpl_intf : Value → ℕ → Option ℕ → Result Value
unfolding ntmpl_list
get_ntmpl_intf cfg node_template_index index =
    ntmpl_list (codes "interfaces") cfg node_template_index index

-- `[] if ifcs is None else ifcs`
unfoldable or_empty : Value → Value
or_empty null = list nil
or_empty v = v

-- `networks is not None and label in networks`
unfoldable names_network : Value → Value → Result Bool
names_network null netw = ok false
names_network ntmpl_networks netw = get_key netw (codes "label") >>= λ l. elim l [
  | str label ↦ key_in label ntmpl_networks
  | _ ↦ err type_error
]

-- The loop over the networks, which appends their interfaces.
unfoldable add_networks : Value → List Value → List Value → Result (List Value)
unfolding names_network
add_networks ntmpl_networks [] ntmpl_ifcs = ok ntmpl_ifcs
add_networks ntmpl_networks (netw ∷ networks) ntmpl_ifcs =
    names_network ntmpl_networks netw >>= λ found. elim found [
      | false ↦ add_networks ntmpl_networks networks ntmpl_ifcs
      | true ↦ do
        members ← get_key netw (codes "interfaces")
        items ← iterate members
        add_networks ntmpl_networks networks (ntmpl_ifcs ++ items)
    ]

unfoldable some_networks : Value → ℕ → Value → Result (List Value)
unfolding get_ntmpl_netw get_ntmpl_intf or_empty add_networks
some_networks cfg node_template_index null = ok []
some_networks cfg node_template_index networks = do
  ntmpl_networks ← get_ntmpl_netw cfg node_template_index none
  ntmpl_ifcs ← get_ntmpl_intf cfg node_template_index none
  own ← iterate (or_empty ntmpl_ifcs)
  items ← iterate networks
  add_networks ntmpl_networks items own

unfoldable pub get_ntmpl_ifcs_all : Value → ℕ → Result (List Value)
unfolding get_networks some_networks
get_ntmpl_ifcs_all cfg node_template_index =
    get_networks cfg >>= λ networks. some_networks cfg node_template_index networks

-- `except AttributeError: return 0`
unfoldable none_counted : Result ℕ → Result ℕ
none_counted (err attribute_error) = ok 0
none_counted r = r

unfoldable pub get_ntmpl_phyintf_data_cnt : Value → ℕ → Result ℕ
unfolding none_counted
get_ntmpl_phyintf_data_cnt cfg node_template_index = do
  template ← node_template cfg node_template_index
  none_counted
      (path template (codes "physical_interfaces" ∷ codes "data" ∷ []) >>= λ members. len members)

unfoldable pub yield_ntmpl_phyintf_data_ind : Value → ℕ → Result (List ℕ)
unfolding get_ntmpl_phyintf_data_cnt
yield_ntmpl_phyintf_data_ind cfg node_template_index = do
  count ← get_ntmpl_phyintf_data_cnt cfg node_template_index
  ok (range count)
