-- ===== src/Tests/Items.antt =====
-- Two interfaces with one label, and a list of three addresses for it.
use cluster_genesis.Base.{
  ◌≡◌, refl, some, List, [], ◌∷◌, ◌++◌, map, nat_eq, option_eq, Text, codes, text_beq, text_eq,
  lookup, ok,
}
use cluster_genesis.Base.Value.{port_eq, null, str}
use cluster_genesis.Config.Templates.Interfaces.{Interface}
use cluster_genesis.Tests.Reserve.{ipv4}
use cluster_genesis.Items.{list_key, Pools, assign_interface_ips, next_ip}
use cluster_genesis.Items.Given.{given}
use cluster_genesis.Items.Conserved.{strings, assign_interface_ips-Conserves}

abbrev interfaces : List (Text × Interface)
interfaces =
    (codes "a", (codes "IPADDR", null) ∷ [])
    ∷ (codes "b", [])
    ∷ (codes "a", (codes "address", null) ∷ [])
    ∷ []

abbrev addresses : List Text
addresses = codes "10.0.0.5" ∷ codes "10.0.0.7" ∷ codes "10.0.0.9" ∷ []

abbrev pools : Pools ipv4
pools = (codes "a", strings ipv4 addresses) ∷ []

abbrev assigned : List (Text × Interface)
assigned =
    (codes "a", (codes "IPADDR", str (codes "10.0.0.5")) ∷ [])
    ∷ (codes "b", [])
    ∷ (codes "a", (codes "address", str (codes "10.0.0.7")) ∷ [])
    ∷ []

abbrev pools_after : Pools ipv4
pools_after = (codes "a", strings ipv4 (codes "10.0.0.9" ∷ [])) ∷ []

pools-lookup : lookup (codes "a") pools ≡ some (strings ipv4 addresses)
unfolding text_beq
pools-lookup = refl

assignment : assign_interface_ips ipv4 interfaces pools ≡ ok (assigned, pools_after)
unfolding assign_interface_ips next_ip list_key text_beq
assignment = refl

assign_interface_ips-Conserves_example :
    (left : List Text) × (lookup (codes "a") pools_after ≡ some (strings ipv4 left))
    × (map str addresses ≡ given (codes "a") assigned ++ map str left)
assign_interface_ips-Conserves_example =
    assign_interface_ips-Conserves ipv4 interfaces assigned pools pools_after (codes "a") addresses
      pools-lookup assignment
