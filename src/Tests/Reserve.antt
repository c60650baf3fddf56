-- ===== src/Tests/Reserve.antt =====
-- The reservation of addresses in 192.168.3.0/24, a network of 256 addresses.
use cluster_genesis.Base.{
  ℕ, ◌+◌, ◌≤◌, ◌<◌, ◌≡◌, refl, ◌≢◌, ◌⊎◌, true, none, some, List, [], ◌∷◌, map, arith, leb,
  if◌then◌else◌, nat_eq, ◌==◌, option_eq, length, codes, text_beq, text_eq, Result, user_exception,
  index_error, ok, err,
}
use cluster_genesis.Base.Value.{port_eq}
use cluster_genesis.Reserve.Manager.{Netaddr, Network, IpManager, get_next_ip, init}
use cluster_genesis.Reserve.Manager.Range.{get_next_ip_cases, InRange, left, get_next_ip_beyond}
use cluster_genesis.Reserve.Assign.{Host, Pending, Loop, assign_hosts, shared}
use cluster_genesis.Reserve.Assign.Distinct.{Consecutive, assign_hosts_shared}
use cluster_genesis.Reserve.Assign.Exhausted.{assign_hosts_exact}
use cluster_genesis.Reserve.Wait.{Answer, Waiting, responds, written, round, wait}
use cluster_genesis.Reserve.Wait.Remaining.{round_correct, wait_correct, silent, silent_always}

abbrev pub plus_ip : ℕ → ℕ → Result ℕ
plus_ip a n = if leb (a + n) 4294967295 then ok (a + n) else err index_error

pub plus_ip_room : (a n : ℕ) → a + n ≤ 4294967295 → plus_ip a n ≡ ok (a + n)
plus_ip_room a n h = ground arith

pub plus_ip_past : (a n : ℕ) → 4294967295 < a + n → plus_ip a n ≡ err index_error
plus_ip_past a n h = ground arith

pub text_injective : (a b : ℕ) → a ∷ [] ≡ b ∷ [] → a ≡ b
text_injective a b h = cc

-- IPv4 addresses by their values; the text of one is here its value as one character.
abbrev pub ipv4 : Netaddr
ipv4 = record {
  Ip = ℕ;
  value = λ a. a;
  ip_str = λ a. a ∷ [];
  plus = plus_ip;
  last = 4294967295;
  plus_room = λ a n h. (a + n, plus_ip_room a n h, refl);
  plus_past = plus_ip_past;
  str_injective = text_injective;
}

abbrev network : Network ipv4
network = record { network = 3232236288; size = 256 }

abbrev manager : IpManager ipv4
manager = record { network = network; next_offset = 21; next_ip = 3232236309 }

manager-InRange : InRange ipv4 manager
manager-InRange = record { above = omega arith; below = omega arith; stop_exists = omega arith }

get_next_ip_cases_example :
    ((left ipv4 manager ≡ 0) × (get_next_ip ipv4 true manager ≡ err user_exception))
    ⊎ ((0 < left ipv4 manager)
        × (m' : IpManager ipv4) × (get_next_ip ipv4 true manager ≡ ok (3232236309 ∷ [], m'))
        × InRange ipv4 m'
        × (m'.network ≡ network)
        × (m'.next_ip ≡ 3232236310))
get_next_ip_cases_example = get_next_ip_cases ipv4 true manager manager-InRange

-- A /28 network, with the start offset 21.
abbrev small : Network ipv4
small = record { network = 3232236288; size = 16 }

get_next_ip_beyond_example :
    (m m' : IpManager ipv4) × (init ipv4 small 21 ≡ ok m)
    × (get_next_ip ipv4 true m ≡ ok (m.next_ip ∷ [], m'))
    × (3232236304 < m.next_ip)
get_next_ip_beyond_example = get_next_ip_beyond ipv4 small 21 (omega arith) (omega arith)

abbrev host : ℕ → Host
host c = record {
  hostname = c ∷ [];
  ipmi_ipaddr = none;
  ipmi_mac = some (codes "0c:c4:7a:2e:00:01");
}

abbrev hosts : List Host
hosts = host 65 ∷ host 66 ∷ []

abbrev start : Loop ipv4
start = record { managers = shared manager; effects = []; nodes_list = []; handed = [] }

assign_hosts_shared_example :
    (ips : List ℕ) × ((assign_hosts ipv4 (codes "1h") 0 hosts start).0 ≡ ok tt)
    × ((assign_hosts ipv4 (codes "1h") 0 hosts start).1.handed ≡ map (λ a. a ∷ []) ips)
    × (length ips ≡ 4)
    × Consecutive ipv4 3232236309 ips
assign_hosts_shared_example =
    assign_hosts_shared ipv4 (codes "1h") 0 hosts manager start
      ((codes "0c:c4:7a:2e:00:01", refl), ((codes "0c:c4:7a:2e:00:01", refl), tt)) refl
      manager-InRange (omega arith)

-- A network whose last two addresses are left.
abbrev nearly_full : IpManager ipv4
nearly_full = record {
  network = record { network = 3232236288; size = 23 };
  next_offset = 21;
  next_ip = 3232236309;
}

nearly_full-InRange : InRange ipv4 nearly_full
nearly_full-InRange = record { above = omega arith; below = omega arith; stop_exists = omega arith }

abbrev start_nearly_full : Loop ipv4
start_nearly_full = record {
  managers = shared nearly_full;
  effects = [];
  nodes_list = [];
  handed = [];
}

assign_hosts_exact_example :
    (assign_hosts ipv4 (codes "1h") 0 (host 65 ∷ []) start_nearly_full).0 ≡ err user_exception
assign_hosts_exact_example =
    assign_hosts_exact ipv4 (codes "1h") 0 (host 65 ∷ []) nearly_full start_nearly_full
      ((codes "0c:c4:7a:2e:00:01", refl), tt) refl nearly_full-InRange (omega arith) (omega arith)

abbrev pending : ℕ → Pending
pending i = record {
  hostname = codes "node";
  index = i;
  ipmi_new_ipaddr = codes "192.168.3.21";
  ipmi_ipaddr = none;
  ipmi_mac = codes "0c:c4:7a:2e:00:01";
}

abbrev waiting : Waiting
waiting = record { nodes_list = pending 0 ∷ pending 1 ∷ pending 2 ∷ []; ipmi_ipaddrs = [] }

abbrev only_second : Pending → Answer
only_second p = record { is_connected = p.index == 1; chassis_power = codes "on" }

round_correct_example :
    round only_second waiting
    ≡ ok (record {
      nodes_list = pending 0 ∷ pending 2 ∷ [];
      ipmi_ipaddrs = (1, codes "192.168.3.21") ∷ [];
    })
unfolding silent written responds text_beq
round_correct_example = round_correct only_second waiting

wait_correct_example :
    ((silent_always (only_second ∷ []) waiting.nodes_list ≡ [])
      × (w' : Waiting) × (wait (only_second ∷ []) waiting ≡ ok w'))
    ⊎ ((silent_always (only_second ∷ []) waiting.nodes_list ≢ [])
        × (wait (only_second ∷ []) waiting ≡ err user_exception))
wait_correct_example = wait_correct (only_second ∷ []) waiting
