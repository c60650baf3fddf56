-- ===== src/Tests/Config.antt =====
-- A configuration with one management switch and one data switch.
use cluster_genesis.Base.{
  ◌≡◌, refl, true, none, some, [], ◌∷◌, nat_eq, option_eq, Text, codes, text_beq, text_eq, ok,
}
use cluster_genesis.Base.Value.{
  Value, Values, port_eq, null, int, str, list, dict, nil, cons, end, field,
}
use cluster_genesis.Config.Access.{
  path, attr, get_key, iterate, get_index, len, key_in, member_value, get_members,
}
use cluster_genesis.Config.Masks.{
  Netaddr, count_ones, netmask_to_prefix, prefix_to_netmask, member_netmask, member_prefix,
  netmasks, prefixes, member_netmask, member_prefix,
}
use cluster_genesis.Config.Members.{
  get_members-Agrees, netmasks-Agrees, prefixes-Agrees, Agrees, ValueOf, NetmaskOf, PrefixOf,
}
use cluster_genesis.Config.Switches.Mgmt.{
  get_sw_mgmt_label, get_sw_mgmt_cnt, get_sw_mgmt_class, get_sw_mgmt_userid, get_sw_mgmt_password,
}
use cluster_genesis.Config.Switches.Data.{
  get_sw_data_label, get_sw_data_cnt, get_sw_data_class, get_sw_data_userid, get_sw_data_password,
}
use cluster_genesis.Config.Switches.Labels.{
  get_sw_mgmt_index_by_label_correct, index_by_label, get_sw_mgmt_index_by_label,
}
use cluster_genesis.Config.Switches.AccessInfo.{
  get_sw_mgmt_access_info_correct, get_sw_data_access_info_correct, AccessInfo, choose_ipaddr,
  mgmt_access_info, data_access_info, get_sw_mgmt_access_info, get_sw_data_access_info, one, many,
}

abbrev one_field : Text → Value → Value
one_field k v = dict (field k v end)

abbrev interface : Value
interface = dict (
    field (codes "type") (str (codes "inband"))
      (field (codes "ipaddr") (str (codes "10.0.0.1")) end))

abbrev switch : Value
switch = dict (
    field (codes "label") (str (codes "sw")) (
      field (codes "userid") (str (codes "admin"))
        (field (codes "interfaces") (list (cons interface nil)) end)))

abbrev switches : Values
switches = cons switch nil

abbrev cfg : Value
cfg =
    one_field (codes "switches")
      (dict (field (codes "mgmt") (list switches) (field (codes "data") (list switches) end)))

labels : get_members (list switches) (codes "label") none ≡ ok (list (cons (str (codes "sw")) nil))
unfolding get_members member_value key_in iterate attr text_beq
labels = refl

get_members-Agrees_example :
    Agrees
      (ValueOf (codes "label"))
      switches
      (cons (str (codes "sw")) nil)
      (λ i. get_members (list switches) (codes "label") (some i))
get_members-Agrees_example =
    get_members-Agrees switches (cons (str (codes "sw")) nil) (codes "label") labels

-- A library that knows one netmask, of 24 bits.
abbrev netaddr : Netaddr
netaddr = record {
  is_netmask = λ v. ok true;
  bits = λ v. ok (codes "11111111.11111111.11111111.00000000");
  netmask = λ v. ok (str (codes "255.255.255.0"));
}

abbrev networks : Values
networks =
    cons (one_field (codes "prefix") (int 24))
      (cons (one_field (codes "netmask") (str (codes "255.255.255.0"))) nil)

abbrev masks : Values
masks = cons (str (codes "255.255.255.0")) (cons (str (codes "255.255.255.0")) nil)

networks-masks : netmasks netaddr (list networks) none ≡ ok (list masks)
unfolding netmasks member_netmask prefix_to_netmask key_in get_key iterate text_beq
networks-masks = refl

netmasks-Agrees_example :
    Agrees (NetmaskOf netaddr) networks masks (λ i. netmasks netaddr (list networks) (some i))
netmasks-Agrees_example = netmasks-Agrees netaddr networks masks networks-masks

networks-prefixes :
    prefixes netaddr (list networks) none ≡ ok (list (cons (int 24) (cons (int 24) nil)))
unfolding prefixes member_prefix netmask_to_prefix count_ones key_in get_key iterate text_beq
networks-prefixes = refl

prefixes-Agrees_example :
    Agrees
      (PrefixOf netaddr)
      networks
      (cons (int 24) (cons (int 24) nil))
      (λ i. prefixes netaddr (list networks) (some i))
prefixes-Agrees_example =
    prefixes-Agrees netaddr networks (cons (int 24) (cons (int 24) nil)) networks-prefixes

mgmt_switches : path cfg (codes "switches" ∷ codes "mgmt" ∷ []) ≡ ok (list switches)
unfolding path attr text_beq
mgmt_switches = refl

sw_found : get_sw_mgmt_index_by_label cfg (codes "sw") ≡ ok (some 0)
unfolding get_sw_mgmt_index_by_label index_by_label path attr iterate text_beq
sw_found = refl

get_sw_mgmt_index_by_label_correct_example : get_sw_mgmt_label cfg (some 0) ≡ ok (str (codes "sw"))
get_sw_mgmt_index_by_label_correct_example =
    get_sw_mgmt_index_by_label_correct cfg (codes "sw") switches 0 mgmt_switches sw_found

abbrev info : AccessInfo
info = record {
  label = str (codes "sw");
  class = null;
  ipaddr = str (codes "10.0.0.1");
  userid = str (codes "admin");
  password = null;
}

mgmt_infos : get_sw_mgmt_access_info cfg none (codes "inband") ≡ ok (many (info ∷ []))
unfolding get_sw_mgmt_access_info mgmt_access_info get_sw_mgmt_cnt get_sw_mgmt_label
    get_sw_mgmt_class get_sw_mgmt_userid get_sw_mgmt_password choose_ipaddr path attr len iterate
    get_index get_members member_value key_in text_beq
mgmt_infos = refl

get_sw_mgmt_access_info_correct_example :
    get_sw_mgmt_access_info cfg (some 0) (codes "inband") ≡ ok (one info)
get_sw_mgmt_access_info_correct_example =
    get_sw_mgmt_access_info_correct cfg (codes "inband") (info ∷ []) mgmt_infos 0

data_infos : get_sw_data_access_info cfg none (codes "inband") ≡ ok (many (info ∷ []))
unfolding get_sw_data_access_info data_access_info get_sw_data_cnt get_sw_data_label
    get_sw_data_class get_sw_data_userid get_sw_data_password choose_ipaddr path attr len iterate
    get_index get_members member_value key_in text_beq
data_infos = refl

get_sw_data_access_info_correct_example :
    get_sw_data_access_info cfg (some 0) (codes "inband") ≡ ok (many (info ∷ []))
get_sw_data_access_info_correct_example =
    get_sw_data_access_info_correct cfg (codes "inband") (info ∷ []) data_infos 0
