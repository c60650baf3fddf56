-- ===== src/Config/Templates/Settings.antt =====
-- scripts/python/lib/config.py: the getters of a node template's BMC, its `os` section, its roles and
-- its devices.
use cluster_genesis.Base.{
  ℕ, Bool, true, false, not, Option, none, some, List, [], ◌∷◌, if◌then◌else◌, nat_eq, ◌==◌,
  option_eq, Text, codes, text_eq, Result, ◌>>=◌, each, user_exception, attribute_error, ok, err,
}
use cluster_genesis.Base.Value.{Value, port_eq, null, bool, int, str, list, dict, nil}
use cluster_genesis.Config.Templates.{node_template, physical_interface}
use cluster_genesis.Config.Access.{
  to_values, attr, get_key, iterate, get_index, len, is_str, key_in, path, get_members,
}
use cluster_genesis.Config.Templates.Ifcs.{get_ntmpl_netw, get_ntmpl_intf}
use cluster_genesis.Config.Globals.{otherwise}

-- `hasattr(v, key)`
unfoldable pub has_attr : Value → Text → Bool
has_attr v key = elim (attr v key) [ ok _ ↦ true | err _ ↦ false ]

-- The section of the BMC, by its name, or no section.
unfoldable pub bmc_key : Value → Option Text
unfolding has_attr
bmc_key template =
    if has_attr template (codes "ipmi")
    then some (codes "ipmi")
    else if has_attr template (codes "openbmc")
    then some (codes "openbmc")
    else none

-- What is read of a template with a BMC; a list leaves out the templates without one.
unfoldable pub bmc_values : (Value → Text → Result Value) → List Value → Result (List Value)
unfolding bmc_key
bmc_values f [] = ok []
bmc_values f (template ∷ templates) = elim (bmc_key template) [
  | none ↦ bmc_values f templates
  | some key ↦ do v ← f template key; rest ← bmc_values f templates; ok (v ∷ rest)
]

unfoldable pub get_bmc : (Value → Text → Result Value) → Value → Option ℕ → Result Value
unfolding bmc_key bmc_values
get_bmc f cfg none = do
  templates ← path cfg (codes "node_templates" ∷ [])
  members ← iterate templates
  list_ ← bmc_values f members
  ok (list (to_values list_))
get_bmc f cfg (some index) = node_template cfg index >>= λ template. elim (bmc_key template) [
  | none ↦ ok null
  | some key ↦ f template key
]

unfoldable pub get_ntmpl_ipmi_userid : Value → Option ℕ → Result Value
unfolding get_bmc
get_ntmpl_ipmi_userid = get_bmc (λ template key. path template (key ∷ codes "userid" ∷ []))

unfoldable pub yield_ntmpl_ipmi_userid : Value → Result (List Value)
unfolding get_ntmpl_ipmi_userid
yield_ntmpl_ipmi_userid cfg = do members ← get_ntmpl_ipmi_userid cfg none; iterate members

unfoldable pub get_ntmpl_ipmi_password : Value → Option ℕ → Result Value
unfolding get_bmc
get_ntmpl_ipmi_password = get_bmc (λ template key. path template (key ∷ codes "password" ∷ []))

unfoldable pub yield_ntmpl_ipmi_password : Value → Result (List Value)
unfolding get_ntmpl_ipmi_password
yield_ntmpl_ipmi_password cfg = do members ← get_ntmpl_ipmi_password cfg none; iterate members

unfoldable pub get_ntmpl_bmc_type : Value → Option ℕ → Result Value
unfolding get_bmc
get_ntmpl_bmc_type = get_bmc (λ template key. ok (str key))

unfoldable pub yield_ntmpl_bmc_type : Value → Result (List Value)
unfolding get_ntmpl_bmc_type
yield_ntmpl_bmc_type cfg = do members ← get_ntmpl_bmc_type cfg none; iterate members

-- A value of all templates, or of one.
unfoldable pub of_template : (Value → Result Value) → Value → Option ℕ → Result Value
of_template f cfg none = do
  templates ← path cfg (codes "node_templates" ∷ [])
  members ← iterate templates
  list_ ← each f members
  ok (list (to_values list_))
of_template f cfg (some index) = node_template cfg index >>= f

unfoldable pub get_ntmpl_os_dict : Value → Option ℕ → Result Value
unfolding of_template
get_ntmpl_os_dict = of_template (λ template. attr template (codes "os"))

unfoldable pub yield_ntmpl_os_dict : Value → Result (List Value)
unfolding get_ntmpl_os_dict
yield_ntmpl_os_dict cfg = do members ← get_ntmpl_os_dict cfg none; iterate members

-- `if HOSTNAME_PREFIX in iter(member.os.keys())`; only a dict has `keys`.
unfoldable pub hostname_prefix : Value → Result Value
hostname_prefix template = attr template (codes "os") >>= λ os. elim os [
  | dict fs ↦ key_in (codes "hostname_prefix") (dict fs) >>= λ found. elim found [
    | true ↦ attr (dict fs) (codes "hostname_prefix")
    | false ↦ ok null
  ]
  | _ ↦ err attribute_error
]

unfoldable pub get_ntmpl_os_hostname_prefix : Value → Option ℕ → Result Value
unfolding of_template hostname_prefix
get_ntmpl_os_hostname_prefix = of_template hostname_prefix

unfoldable pub yield_ntmpl_os_hostname_prefix : Value → Result (List Value)
unfolding get_ntmpl_os_hostname_prefix
yield_ntmpl_os_hostname_prefix cfg = do
  members ← get_ntmpl_os_hostname_prefix cfg none
  iterate members

unfoldable pub get_ntmpl_os_profile : Value → Option ℕ → Result Value
unfolding of_template
get_ntmpl_os_profile = of_template (λ template. path template (codes "os" ∷ codes "profile" ∷ []))

unfoldable pub yield_ntmpl_os_profile : Value → Result (List Value)
unfolding get_ntmpl_os_profile
yield_ntmpl_os_profile cfg = do members ← get_ntmpl_os_profile cfg none; iterate members

unfoldable pub get_ntmpl_roles_cnt : Value → ℕ → Result ℕ
unfolding otherwise
get_ntmpl_roles_cnt cfg node_template_index = otherwise 0 (do
  template ← node_template cfg node_template_index
  roles ← attr template (codes "roles")
  len roles)

unfoldable pub get_ntmpl_roles : Value → ℕ → Option ℕ → Result Value
unfolding otherwise
get_ntmpl_roles cfg node_template_index none =
    otherwise null
      (node_template cfg node_template_index >>= λ template. attr template (codes "roles"))
get_ntmpl_roles cfg node_template_index (some index) = otherwise (str []) (do
  template ← node_template cfg node_template_index
  roles ← attr template (codes "roles")
  get_index roles index)

unfoldable pub yield_ntmpl_roles : Value → ℕ → Result (List Value)
unfolding get_ntmpl_roles
yield_ntmpl_roles cfg node_template_index = do
  members ← get_ntmpl_roles cfg node_template_index none
  iterate members

-- The device of an interface that has the label.
unfoldable pub iface_of : Value → Result Value
iface_of interface = key_in (codes "iface") interface >>= λ iface. elim iface [
  | true ↦ get_key interface (codes "iface")
  | false ↦ key_in (codes "DEVICE") interface >>= λ device. elim device [
    | true ↦ get_key interface (codes "DEVICE")
    | false ↦ err user_exception
  ]
]

-- `v == w` where neither is a list or a dict.
unfoldable pub same_scalar : Value → Value → Bool
same_scalar null null = true
same_scalar (bool a) (bool b) = elim a [ true ↦ b | false ↦ not b ]
same_scalar (int m) (int n) = m == n
same_scalar (str s) w = is_str s w
same_scalar _ _ = false

unfoldable pub find_iface : Value → List Value → Result Value
unfolding iface_of same_scalar
find_iface if_label [] = err user_exception
find_iface if_label (interface ∷ interfaces) = attr interface (codes "label") >>= λ label.
    elim (same_scalar label if_label) [
      | true ↦ iface_of interface
      | false ↦ find_iface if_label interfaces
    ]

unfoldable pub lookup_interface_iface : Value → Value → Result Value
unfolding find_iface
lookup_interface_iface cfg if_label = do
  found ← path cfg (codes "interfaces" ∷ [])
  interfaces ← iterate found
  find_iface if_label interfaces

unfoldable pub get_ntmpl_phyintf_data_dev : Value → ℕ → ℕ → Result Value
unfolding lookup_interface_iface
get_ntmpl_phyintf_data_dev cfg node_template_index index = do
  member ← physical_interface (codes "data") cfg node_template_index index
  if_label ← attr member (codes "interface")
  lookup_interface_iface cfg if_label

unfoldable pub get_ntmpl_phyintf_pxe_dev : Value → ℕ → ℕ → Result Value
unfolding lookup_interface_iface
get_ntmpl_phyintf_pxe_dev cfg node_template_index index = do
  member ← physical_interface (codes "pxe") cfg node_template_index index
  if_label ← attr member (codes "interface")
  lookup_interface_iface cfg if_label

-- `if RENAME in member: return member.rename`
unfoldable pub rename_or : Bool → Value → Result Value
rename_or default member = key_in (codes "rename") member >>= λ found. elim found [
  | true ↦ attr member (codes "rename")
  | false ↦ ok (bool default)
]

unfoldable pub get_ntmpl_phyintf_pxe_rename : Value → ℕ → ℕ → Result Value
unfolding rename_or
get_ntmpl_phyintf_pxe_rename cfg node_template_index index =
    physical_interface (codes "pxe") cfg node_template_index index >>= rename_or true

unfoldable pub get_ntmpl_phyintf_data_rename : Value → ℕ → ℕ → Result Value
unfolding rename_or
get_ntmpl_phyintf_data_rename cfg node_template_index index =
    physical_interface (codes "data") cfg node_template_index index >>= rename_or false

unfoldable pub get_ntmpl : Value → ℕ → Result Value
get_ntmpl cfg node_template_index = node_template cfg node_template_index

unfoldable pub get_ntmpl_phyintf_data : Value → ℕ → Result Value
get_ntmpl_phyintf_data cfg node_template_index = do
  template ← node_template cfg node_template_index
  path template (codes "physical_interfaces" ∷ codes "data" ∷ [])

unfoldable pub get_ntmpl_phyintf_data_interface : Value → ℕ → Option ℕ → Result Value
unfolding otherwise
get_ntmpl_phyintf_data_interface cfg node_template_index index = do
  template ← node_template cfg node_template_index
  otherwise (list nil) (do
    obj_list ← path template (codes "physical_interfaces" ∷ codes "data" ∷ [])
    get_members obj_list (codes "interface") index)

unfoldable pub yield_ntmpl_phyintf_data_interface : Value → ℕ → Result (List Value)
unfolding get_ntmpl_phyintf_data_interface
yield_ntmpl_phyintf_data_interface cfg node_template_index = do
  members ← get_ntmpl_phyintf_data_interface cfg node_template_index none
  iterate members

unfoldable pub yield_ntmpl_netw : Value → ℕ → Result (List Value)
unfolding get_ntmpl_netw
yield_ntmpl_netw cfg node_template_index = do
  members ← get_ntmpl_netw cfg node_template_index none
  iterate members

unfoldable pub yield_ntmpl_intf : Value → ℕ → Result (List Value)
unfolding get_ntmpl_intf
yield_ntmpl_intf cfg node_template_index = do
  members ← get_ntmpl_intf cfg node_template_index none
  iterate members
