-- ===== src/Switch/Interfaces.antt =====
-- The in-band interfaces of a switch: `show_interfaces`, `configure_interface` and
-- `remove_interface` of scripts/python/lib/switch_common.py.
use cluster_genesis.Base.{
  Bool, true, false, not, ◌&&◌, ◌||◌, Option, none, some, List, [], ◌∷◌, ◌++◌, nat_eq, ◌==◌,
  option_eq, Text, codes, text_eq, Result, type_error, ok, err,
}
use cluster_genesis.Base.Value.{port_eq}
use cluster_genesis.Base.Strings.{split_on}
use cluster_genesis.Base.Regex.{
  Regex, findall, search, digit, word, space, lit, plus, group_at, chars, seq, star, group,
}
use cluster_genesis.Exec.{Exec, ◌>>=◌, ◌>>◌, pure, lift}
use cluster_genesis.Switch.{Session, Remote}
use cluster_genesis.Switch.Send.{send_cmd, if_passive, unless, require}
use cluster_genesis.Switch.Answers.{answered}
use cluster_genesis.Switch.Vlans.{create_vlan}

-- The VLAN, the address and the mask of an interface; the fourth field is always '-'.
pub record Ifc : Type 0 where
  pub vlan_num : Text
  pub address : Text
  pub mask : Text

-- The last item of the list that `show_interfaces` returns.
pub record Found : Type 0 where
  pub configured : Bool
  pub found_vlan : Bool

unfoldable any_char : Regex
any_char = chars (λ c. true)

-- `(\d+).*Internet Address is\s+((\w+.\w+.\w+.\w+)/\d+)`, where the dot matches all characters.
unfoldable address_line : Regex
unfolding any_char
address_line = seq (group 1 (plus digit)) (
    seq (star any_char) (
      seq (lit (codes "Internet Address is")) (
        seq (plus space) (
          group 2 (
            seq
              (group 3 (
                seq (plus word) (
                  seq any_char
                    (seq (plus word) (seq any_char (seq (plus word) (seq any_char (plus word))))))))
              (seq (lit (codes "/")) (plus digit)))))))

-- `(vlan, host, netmask, '-') == tuple(ifc)` and `vlan in ifc`
unfoldable pub is_same : Text → Text → Text → Ifc → Bool
is_same vlan host netmask ifc = vlan == ifc.vlan_num && (host == ifc.address && netmask == ifc.mask)

unfoldable pub names_vlan : Text → Ifc → Bool
names_vlan vlan ifc =
    vlan == ifc.vlan_num || (vlan == ifc.address || (vlan == ifc.mask || vlan == codes "-"))

-- The interfaces of the sections; `netmask_of` is the netmask that netaddr gives for a network.
unfoldable pub read_ifcs : (Text → Text) → List Text → List Ifc
unfolding search group_at address_line
read_ifcs netmask_of [] = []
read_ifcs netmask_of (line ∷ ls) = elim (search address_line line) [
  | none ↦ read_ifcs netmask_of ls
  | some m ↦
      record { vlan_num = group_at m 1; address = group_at m 3; mask = netmask_of (group_at m 2) }
      ∷ read_ifcs netmask_of ls
]

-- The loop's `found` and `found_vlan`.
unfoldable pub look_for : Text → Text → Text → List Ifc → Found
unfolding is_same names_vlan
look_for vlan host netmask [] = record { configured = false; found_vlan = false }
look_for vlan host netmask (ifc ∷ ifcs) =
    let rest = look_for vlan host netmask ifcs in
    record {
      configured = is_same vlan host netmask ifc || rest.configured;
      found_vlan = names_vlan vlan ifc || rest.found_vlan;
    }

-- `interfaces[-1][0]`, where `None` has no items.
unfoldable pub last_item : Option (List Ifc × Found) → Result Found
last_item none = err type_error
last_item (some (ifcs, found)) = ok found

-- `SET_INTERFACE.format(vlan, host, netmask)`
unfoldable pub set_interface : Text → Text → Text → Text
set_interface vlan host netmask =
    codes "feature interface-vlan ;interface vlan "
    ++ vlan
    ++ codes " ;ip address "
    ++ host
    ++ codes " "
    ++ netmask
    ++ codes " ;management ;no shutdown"

module _ {D : Type 0} (remote : Remote D) where
  unfoldable pub show_each : List Text → Exec (Session D) Text
  unfolding send_cmd answered
  show_each [] = pure []
  show_each (ifc ∷ ifcs) = do
    answer ← send_cmd remote (codes "show interface vlan" ++ ifc)
    t ← lift (answered answer)
    rest ← show_each ifcs
    pure (t ++ rest)

module _ {D : Type 0} (remote : Remote D) (netmask_of : Text → Text) where
  -- `show_interfaces(vlan, host, netmask, format='std')`
  unfoldable pub show_interfaces : Text → Text → Text → Exec (Session D) (Option (List Ifc × Found))
  unfolding if_passive send_cmd answered show_each findall split_on read_ifcs look_for
  show_interfaces vlan host netmask = if_passive none (do
    brief ← send_cmd remote (codes "show ip interface brief")
    t ← lift (answered brief)
    info ← show_each remote (findall (seq (lit (codes "Vlan")) (group 1 (plus digit))) 1 t)
    let ifcs = read_ifcs netmask_of (split_on (codes "Vlan") info)
    pure (some (ifcs, look_for vlan host netmask ifcs)))

  unfoldable pub state_of : Text → Text → Text → Exec (Session D) Found
  unfolding show_interfaces last_item
  state_of vlan host netmask =
      show_interfaces vlan host netmask >>= λ interfaces. lift (last_item interfaces)

  unfoldable pub configure_interface : Text → Text → Text → Exec (Session D) (Unit {0})
  unfolding state_of create_vlan send_cmd set_interface unless require
  configure_interface host netmask vlan = do
    before ← state_of vlan host netmask
    unless before.configured (do
      require (not before.found_vlan)
      create_vlan remote vlan
      send_cmd remote (set_interface vlan host netmask)
      after ← state_of vlan host netmask
      require after.configured)

  unfoldable pub remove_interface : Text → Text → Text → Exec (Session D) (Unit {0})
  unfolding state_of send_cmd require
  remove_interface vlan host netmask = state_of vlan host netmask >>= λ before.
      elim before.configured [
        | true ↦ (do
          send_cmd remote (
              codes "interface vlan "
              ++ vlan
              ++ codes " ;no ip address "
              ++ host
              ++ codes " "
              ++ netmask)
          send_cmd remote (codes "no interface vlan " ++ vlan)
          after ← state_of vlan host netmask
          require (not after.configured))
        | false ↦ require (not before.found_vlan)
      ]
