-- ===== src/Tests/Device.antt =====
-- A small switch for the tests: it can get one VLAN and one interface on it.
use cluster_genesis.Base.{
  ◌≡◌, refl, ap, true, false, none, some, [], ◌∷◌, ◌++◌, nat_beq, if◌then◌else◌, nat_eq, ◌==◌,
  option_eq, Text, codes, text_eq, ok,
}
use cluster_genesis.Base.Value.{port_eq}
use cluster_genesis.Base.Strings.{starts_with, strip_prefix}
use cluster_genesis.Switch.{Remote}
use cluster_genesis.Switch.Send.{enable_remote_config}
use cluster_genesis.Switch.Interfaces.{set_interface}
use cluster_genesis.Switch.Reports.{Reports}

pub data Stage : Type 0 where
  bare with_vlan with_ifc : Stage

abbrev pub host : Text
host = codes "10.0.0.9"

abbrev pub netmask : Text
netmask = codes "255.255.255.0"

abbrev pub netmask_of : Text → Text
netmask_of t = netmask

-- The command inside of what is sent.
unfoldable pub drop_last : Text → Text
drop_last [] = []
drop_last (c ∷ []) = []
drop_last (c ∷ d ∷ t) = c ∷ drop_last (d ∷ t)

drop_last-append : (t : Text) → drop_last (t ++ 32 ∷ []) ≡ t
unfolding drop_last
drop_last-append [] = refl
drop_last-append (c ∷ []) = refl
drop_last-append (c ∷ d ∷ t) = ap (λ u. c ∷ u) (drop_last-append (d ∷ t))

unfoldable pub unwrap : Text → Text
unfolding strip_prefix drop_last
unwrap t = elim (strip_prefix (codes "configure terminal ; ") t) [ none ↦ t | some u ↦ drop_last u ]

pub unwrap-enable_remote_config : (cmd : Text) → unwrap (enable_remote_config cmd) ≡ cmd
unfolding unwrap enable_remote_config strip_prefix
unwrap-enable_remote_config cmd = drop_last-append cmd

unfoldable pub grow : Text → Stage → Stage
unfolding set_interface
grow cmd v =
    if cmd == codes "vlan 5"
    then with_vlan
    else if cmd == set_interface (codes "5") host netmask
    then with_ifc
    else v

unfoldable pub change : Text → Stage → Stage
unfolding grow starts_with
change cmd v = elim (starts_with (codes "show ") cmd) [ true ↦ v | false ↦ grow cmd v ]

pub show_keeps :
    (cmd : Text) (v : Stage) → starts_with (codes "show ") cmd ≡ true → change cmd v ≡ v
unfolding change
show_keeps cmd v h = rw (h, change) refl

unfoldable pub vlans : Stage → Text
vlans bare = codes "1 default active;50 lab active"
vlans with_vlan = codes "1 default active;5 VLAN0005 active;50 lab active"
vlans with_ifc = codes "1 default active;5 VLAN0005 active;50 lab active"

unfoldable pub brief : Stage → Text
brief bare = []
brief with_vlan = []
brief with_ifc = codes "Vlan5 10.0.0.9 up"

unfoldable pub semi_to_newline : Text → Text
semi_to_newline [] = []
semi_to_newline (c ∷ t) = (if nat_beq c 59 then 10 else c) ∷ semi_to_newline t

unfoldable pub answer : Text → Stage → Text
unfolding vlans brief semi_to_newline
answer cmd v =
    if cmd == codes "show vlan"
    then semi_to_newline (vlans v)
    else if cmd == codes "show ip interface brief"
    then brief v
    else if cmd == codes "show interface vlan5"
    then codes "Vlan5 is up, Internet Address is 10.0.0.9/24 mtu 1500"
    else []

abbrev pub remote : Remote Stage
remote = record {
  try_lock = λ d. (true, d);
  release = λ d. d;
  exec_cmd = λ t d. (ok (answer (unwrap t) d), change (unwrap t) d);
}

abbrev pub reports : Reports remote Stage
reports = record {
  view = λ d. d;
  answer = answer;
  change = change;
  lock_free = λ d. refl;
  lock_keeps = λ d. refl;
  release_keeps = λ d. refl;
  answers = λ cmd d. ap (λ t. ok (answer t d)) (unwrap-enable_remote_config cmd);
  changes = λ cmd d. ap (λ t. change t d) (unwrap-enable_remote_config cmd);
  show_keeps = show_keeps;
}
