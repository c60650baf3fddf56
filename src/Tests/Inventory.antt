-- ===== src/Tests/Inventory.antt =====
-- An inventory with two nodes behind one management switch.
use cluster_genesis.Base.{
  ℕ, zero, suc, ◌+◌, ◌≡◌, refl, sym, ◌∙◌, ◌≢◌, ◌⊎◌, true, false, Option, none, some, List, [], ◌∷◌,
  nat_eq, option_eq, get_elem?, All, contains, Text, codes, text_beq, text_beq_iff, text_eq, ok,
}
use cluster_genesis.Base.Value.{show_nat, Port, port_str, port_eq, num}
use cluster_genesis.Inventory.{Node, Group, Kind, group, set_group, Macs, port_mac, record_item}
use cluster_genesis.Inventory.Macs.{
  Inventory, add_macs, add_macs_ipmi, add_macs_pxe, add_macs_data, write_mac, learn_port,
  learn_ports, add_macs_node,
}
use cluster_genesis.Inventory.Macs.Learned.{KeptOrSeen, SeenAt}
use cluster_genesis.Inventory.Macs.Stored.{Distinct}
use cluster_genesis.Inventory.Macs.FirstRun.{FreshFrom}
use cluster_genesis.Inventory.Macs.File.{add_macs_file, IsAligned, SavedOrRaised}
use cluster_genesis.Inventory.Macs.Nodes.{add_macs_sound, add_macs-Distinct, add_macs_complete}
use cluster_genesis.Inventory.Lookup.{get_port_mac_ip, MacIp, get_or_none}
use cluster_genesis.Inventory.Lookup.Ports.{
  get_port_mac_ip_correct, IsRegular, PluggedAt, NodeEntry, NodePlugged, get_port_mac_ip_misses,
  not_there,
}

abbrev no_group : Group
no_group = record { switches = []; ports = []; macs = []; ipaddrs = []; devices = []; rename = [] }

-- One interface at a port of the switch `m`.
abbrev one_port : ℕ → Option Text → Group
one_port port mac = record {
  switches = codes "m" ∷ [];
  ports = num port ∷ [];
  macs = mac ∷ [];
  ipaddrs = none ∷ [];
  devices = [];
  rename = [];
}

abbrev node : ℕ → Node
node port = record {
  hostname = codes "n";
  ipmi = one_port port none;
  pxe = no_group;
  data' = no_group;
  interfaces = [];
}

abbrev nodes : List Node
nodes = node 1 ∷ node 2 ∷ []

abbrev mac : Text
mac = codes "aa"

abbrev macs : Macs
macs = (codes "m", (codes "1", mac ∷ []) ∷ []) ∷ []

add_macs_sound_example :
    (ms : List (Option Text)) × (get_elem? (add_macs macs Kind.ipmi nodes).1 0
      ≡ some (set_group Kind.ipmi (record (one_port 1 none) { macs = ms }) (node 1)))
    × ((j : ℕ) → KeptOrSeen macs (one_port 1 none) (none ∷ []) ms j)
add_macs_sound_example = add_macs_sound macs Kind.ipmi nodes 0 (node 1) refl

no_mac : (i : ℕ) (m : Text) → get_elem? (none ∷ []) i ≡ some (some m) → ⊥
no_mac zero m h = cc
no_mac (suc i) m h = cc

no_mac-Distinct : Distinct (none ∷ [])
no_mac-Distinct = λ i j m h h'. absurd (no_mac i m h)

add_macs-Distinct_example :
    (n' : Node) × (get_elem? (add_macs macs Kind.ipmi nodes).1 0 ≡ some n')
    × Distinct (group Kind.ipmi n').macs
add_macs-Distinct_example = add_macs-Distinct macs Kind.ipmi nodes 0 (node 1) refl no_mac-Distinct

fresh : FreshFrom 0 (none ∷ [])
fresh = λ k m h. no_mac (0 + k) m h

seen : SeenAt macs (one_port 1 none) 0 mac
unfolding port_str text_beq show_nat
seen = record {
  switch = codes "m";
  port = num 1;
  table = (codes "1", mac ∷ []) ∷ [];
  at_switch = refl;
  at_port = refl;
  has_table = refl;
  only = refl;
}

add_macs_done : (add_macs macs Kind.ipmi nodes).0 ≡ ok tt
unfolding add_macs add_macs_node learn_ports learn_port port_mac port_str show_nat text_beq
    record_item write_mac
add_macs_done = refl

add_macs_complete_example :
    (n' : Node) × (get_elem? (add_macs macs Kind.ipmi nodes).1 0 ≡ some n')
    × (contains (group Kind.ipmi n').macs (some mac) ≡ true)
add_macs_complete_example =
    add_macs_complete macs Kind.ipmi nodes 0 (node 1) refl 0 mac add_macs_done fresh seen

abbrev inventory : Inventory
inventory = record { nodes = nodes; file = [] }

inventory-IsAligned : (k : Kind) → All (λ n. IsAligned (group k n)) nodes
inventory-IsAligned Kind.ipmi =
    (record { switches = refl; macs = refl }, (record { switches = refl; macs = refl }, tt))
inventory-IsAligned Kind.pxe =
    (record { switches = refl; macs = refl }, (record { switches = refl; macs = refl }, tt))
inventory-IsAligned Kind.data' =
    (record { switches = refl; macs = refl }, (record { switches = refl; macs = refl }, tt))

add_macs_file_example :
    SavedOrRaised [] (add_macs_ipmi macs inventory)
    × SavedOrRaised [] (add_macs_pxe macs inventory)
    × SavedOrRaised [] (add_macs_data macs inventory)
add_macs_file_example = add_macs_file macs inventory inventory-IsAligned

only_port : (i : ℕ) (port : ℕ) (p : Port) → get_elem? (num port ∷ []) i ≡ some p → i ≡ 0
only_port zero port p h = refl
only_port (suc i) port p h = cc

no_port : (i : ℕ) (p : Port) → get_elem? [] i ≡ some p → ⊥
no_port i p h = cc

node-IsRegular : (port : ℕ) → IsRegular (node port)
node-IsRegular port = record {
  ipmi_aligned = record { switches = refl; macs = refl };
  pxe_aligned = record { switches = refl; macs = refl };
  ipmi_unique = λ i j p h h'. only_port i port p h ∙ sym (only_port j port p h');
  pxe_unique = λ i j p h h'. absurd (no_port i p h);
}

get_port_mac_ip_correct_example :
    ((r : MacIp) × (a : ℕ) × (n : Node) × (get_port_mac_ip nodes (codes "m") (num 2) ≡ ok r)
      × (get_elem? nodes a ≡ some n)
      × NodeEntry n (codes "m") (num 2) r)
    ⊎ ((get_port_mac_ip nodes (codes "m") (num 2) ≡ ok (none, none))
        × All (λ n. ¬ NodePlugged n (codes "m") (num 2)) nodes)
get_port_mac_ip_correct_example =
    get_port_mac_ip_correct nodes (codes "m") (num 2) (node-IsRegular 1, (node-IsRegular 2, tt))

-- A node with port 1 of two switches.
abbrev two_ports : Node
two_ports = record (node 1) {
  ipmi = record {
    switches = codes "m" ∷ codes "k" ∷ [];
    ports = num 1 ∷ num 1 ∷ [];
    macs = none ∷ some mac ∷ [];
    ipaddrs = none ∷ none ∷ [];
    devices = [];
    rename = [];
  };
}

not_true : false ≡ true → ⊥
not_true h = cc

switches_differ : codes "m" ≢ codes "k"
unfolding text_beq
switches_differ h = not_true ((text_beq_iff (codes "m") (codes "k")).1 h)

-- Its second interface is at port 1 of the switch `k`.
second_plugged : PluggedAt two_ports.ipmi (codes "k") (num 1) 1
second_plugged = (refl, refl)

get_port_mac_ip_misses_example :
    (get_port_mac_ip (two_ports ∷ nodes) (codes "m") (num 1)
      ≡ ok (get_or_none two_ports.ipmi.macs 0, get_or_none two_ports.ipmi.ipaddrs 0))
    × (get_port_mac_ip (two_ports ∷ nodes) (codes "k") (num 1)
        ≡ get_port_mac_ip nodes (codes "k") (num 1))
get_port_mac_ip_misses_example =
    get_port_mac_ip_misses two_ports nodes (codes "m") (codes "k") (num 1) 0 switches_differ refl
      refl (not_there refl)
