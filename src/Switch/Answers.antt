-- ===== src/Switch/Answers.antt =====
-- How scripts/python/lib/switch_common.py reads what a switch answers about its ports.
use cluster_genesis.Base.{
  ℕ, zero, suc, Bool, true, false, not, ◌||◌, Option, none, some, List, [], ◌∷◌, nat_beq,
  if◌then◌else◌, nat_eq, ◌==◌, option_eq, Text, codes, text_eq, Dict, lookup, has_key, insert,
  Result, ◌>>=◌, or_raise, switch_exception, key_error, attribute_error, type_error, ok, err,
}
use cluster_genesis.Base.Value.{show_nat, port_eq}
use cluster_genesis.Base.Strings.{splitlines, occurs, split_on, is_digit}
use cluster_genesis.Switch.Commands.{PortMode, mode_value}
use cluster_genesis.Base.Regex.{
  Regex, digit, word, space, lit, plus, search, group_at, chars, seq, alt, star, group,
}

-- A method of the answer `None`.
unfoldable pub answered : Option Text → Result Text
answered none = err attribute_error
answered (some t) = ok t

pub record PortInfo : Type 0 where
  pub port_mode : Text
  pub nvlan : Text
  pub avlans : Text

-- `Eth([0-9/]+)\s+(\d+)\s+\w+\s+(access|trunk)`
abbrev port_line : Regex
port_line = seq (lit (codes "Eth")) (
    seq (group 1 (plus (chars (λ c. is_digit c || nat_beq c 47)))) (
      seq (plus space) (
        seq (group 2 (plus digit)) (
          seq (plus space) (
            seq (plus word)
              (seq (plus space) (group 3 (alt (lit (codes "access")) (lit (codes "trunk"))))))))))

-- `Eth((?:\d+/)+\d+)\s+((?:\d+[,-])*\d+)`
abbrev trunk_line : Regex
trunk_line = seq (lit (codes "Eth")) (
    seq (group 1 (seq (plus (seq (plus digit) (lit (codes "/")))) (plus digit))) (
      seq (plus space) (
        group 2 (
          seq (star (seq (plus digit) (chars (λ c. nat_beq c 44 || nat_beq c 45)))) (plus digit)))))

-- The lines of `show interface brief` that describe a port.
unfoldable brief_ports : List Text → Dict Text PortInfo → Dict Text PortInfo
unfolding search group_at
brief_ports [] ports = ports
brief_ports (line ∷ ls) ports = elim (search port_line line) [
  | none ↦ brief_ports ls ports
  | some m ↦ brief_ports ls (
      insert (group_at m 1) (record { port_mode = group_at m 3; nvlan = group_at m 2; avlans = [] })
        ports)
]

-- `ports[port]['avlans'] = vlans`
unfoldable set_avlans : Text → Text → Dict Text PortInfo → Result (Dict Text PortInfo)
set_avlans port vlans ports = elim (lookup port ports) [
  | none ↦ err key_error
  | some info ↦ ok (insert port (record info { avlans = vlans }) ports)
]

unfoldable trunk_lines : List Text → Dict Text PortInfo → Result (Dict Text PortInfo)
unfolding search group_at set_avlans
trunk_lines [] ports = ok ports
trunk_lines (line ∷ ls) ports = elim (search trunk_line line) [
  | none ↦ trunk_lines ls ports
  | some m ↦ do ports' ← set_avlans (group_at m 1) (group_at m 2) ports; trunk_lines ls ports'
]

-- The sections of `show interface trunk` that list the allowed VLANs.
unfoldable trunk_items : List Text → Dict Text PortInfo → Result (Dict Text PortInfo)
unfolding occurs splitlines trunk_lines
trunk_items [] ports = ok ports
trunk_items (item' ∷ is) ports = do
  ports' ← elim (occurs (codes "Vlans Allowed on Trunk") item') [
    | true ↦ trunk_lines (splitlines item') ports
    | false ↦ ok ports
  ]
  trunk_items is ports'

-- `ports[port]`, where the ports may be `None`.
unfoldable pub port_info : Text → Option (Dict Text PortInfo) → Result PortInfo
port_info port none = err type_error
port_info port (some ports) = or_raise (lookup port ports) key_error

-- `port not in ports`, where the ports may be `None`.
unfoldable pub is_missing : Text → Option (Dict Text PortInfo) → Result Bool
is_missing port none = err type_error
is_missing port (some ports) = ok (not (has_key port ports))

-- The table of the ports, from the answers to both commands.
unfoldable pub port_table : Text → Text → Result (Option (Dict Text PortInfo))
unfolding brief_ports trunk_items splitlines split_on
port_table lines items = do
  ports ← trunk_items (split_on (codes "Port") items) (brief_ports (splitlines lines) [])
  ok (some ports)

-- The check of the mode and the native VLAN that the switch reports.
unfoldable pub verify_mode : PortMode → Option ℕ → PortInfo → Result (Unit {0})
unfolding mode_value show_nat
verify_mode mode none info =
    if info.port_mode == mode_value mode then ok tt else err switch_exception
verify_mode mode (some zero) info =
    if info.port_mode == mode_value mode then ok tt else err switch_exception
verify_mode mode (some (suc vlan)) info =
    if info.port_mode == mode_value mode
    then (if show_nat (suc vlan) == info.nvlan then ok tt else err switch_exception)
    else err switch_exception
