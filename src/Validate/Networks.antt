-- ===== src/Validate/Networks.antt =====
-- scripts/python/lib/validate_config_logic.py: the version of the configuration and the deployer's
-- networks. An address is a text or absent, and a prefix is no list or dict, as the schema has it.
-- `str(IPNetwork(t).network)` of the library netaddr is a parameter, as are the masks.
-- What the checks add to `self.exc`.
use cluster_genesis.Validate.{Complaint}
use cluster_genesis.Base.{
  ℕ, true, false, none, List, [], ◌∷◌, ◌++◌, if◌then◌else◌, nat_eq, ◌==◌, option_eq, Text, codes,
  text_eq, Result, ◌>>=◌, ok,
}
use cluster_genesis.Base.Value.{Value, port_eq, null}
use cluster_genesis.Config.Access.{attr, iterate, get_index, is_str, path, as_text}
use cluster_genesis.Config.Masks.{Netaddr}
use cluster_genesis.Config.Globals.{otherwise, value_str}
use cluster_genesis.Config.Switches.AccessInfo.{truthy}
use cluster_genesis.Config.Deployer.Client.{
  get_depl_netw_client_cont_ip, get_depl_netw_client_brg_ip, get_depl_netw_client_prefix,
}
use cluster_genesis.Config.Deployer.Mgmt.{
  get_depl_netw_mgmt_cont_ip, get_depl_netw_mgmt_brg_ip, get_depl_netw_mgmt_prefix,
}
use cluster_genesis.DataSwitch.PortGroups.{enumerate}

pub data Message : Type 0 where
  unsupported_version : Value → Message
  either_needed : Message
  both_given : Value → Value → Message
  other_subnet : Text → Text → Message
  has_dash : Text → Message
  undefined_host : Value → List Value → Message
  no_image : Value → Message
  place_of_images : Message
  physical : Complaint → Message

-- A loop that adds messages.
unfoldable pub gather : {A : Type 0} → (A → Result (List Message)) → List A → Result (List Message)
gather f [] = ok []
gather f (x ∷ xs) = do found ← f x; rest ← gather f xs; ok (found ++ rest)

unfoldable pub validate_version : Value → Result (List Message)
validate_version config = do
  version ← attr config (codes "version")
  ok (if is_str (codes "v2.0") version then [] else unsupported_version version ∷ [])

-- A member's netmask and prefix, with `None` for a missing one.
unfoldable pub mask_complaint : Value → Value → List Message
mask_complaint null null = either_needed ∷ []
mask_complaint null prefix = []
mask_complaint netmask null = []
mask_complaint netmask prefix = both_given netmask prefix ∷ []

unfoldable pub check_masks : Value → Result (List Message)
unfolding otherwise mask_complaint
check_masks member = do
  netmask ← otherwise null (attr member (codes "netmask"))
  prefix ← otherwise null (attr member (codes "prefix"))
  ok (mask_complaint netmask prefix)

unfoldable pub validate_netmask_prefix : Value → Result (List Message)
unfolding gather check_masks
validate_netmask_prefix config = do
  mgmt ← path config (codes "deployer" ∷ codes "networks" ∷ codes "mgmt" ∷ [])
  client ← path config (codes "deployer" ∷ codes "networks" ∷ codes "client" ∷ [])
  of_mgmt ← iterate mgmt
  first ← gather check_masks of_mgmt
  of_client ← iterate client
  second ← gather check_masks of_client
  ok (first ++ second)

module _ (net : Netaddr) (network : Text → Result Text) where
  -- `str(IPNetwork(IPNetwork(ip + '/' + str(netp))).network)`
  unfoldable pub network_of : Value → Value → Result Text
  unfolding as_text value_str
  network_of ip netp = do
    address ← as_text ip
    prefix ← value_str netp
    network (address ++ (codes "/" ++ prefix))

  -- A round of the loop over the container addresses.
  unfoldable pub check_subnet : Value → Value → ℕ → Value → Result (List Message)
  unfolding network_of
  check_subnet netprefix br_ip i cip = do
    netp ← get_index netprefix i
    bip ← get_index br_ip i
    net_c ← network_of cip netp
    net_b ← network_of bip netp
    ok (if net_c == net_b then [] else other_subnet net_c net_b ∷ [])

  unfoldable pub check_client : Value → Value → ℕ × Value → Result (List Message)
  unfolding check_subnet
  check_client netprefix br_ip (i, cip) = check_subnet netprefix br_ip i cip

  -- The loop over the management networks leaves out those without a container address.
  unfoldable pub check_mgmt : Value → Value → ℕ × Value → Result (List Message)
  unfolding check_subnet
  check_mgmt netprefix br_ip (i, cip) = elim (truthy cip) [
    | true ↦ check_subnet netprefix br_ip i cip
    | false ↦ ok []
  ]

  unfoldable pub validate_deployer_networks : Value → Result (List Message)
  unfolding validate_netmask_prefix get_depl_netw_client_prefix get_depl_netw_client_cont_ip
      get_depl_netw_client_brg_ip get_depl_netw_mgmt_prefix get_depl_netw_mgmt_cont_ip
      get_depl_netw_mgmt_brg_ip gather check_client check_mgmt enumerate
  validate_deployer_networks config = do
    masks ← validate_netmask_prefix config
    client_prefix ← get_depl_netw_client_prefix net config none
    client_cont ← get_depl_netw_client_cont_ip config none
    client_br ← get_depl_netw_client_brg_ip config none
    client_ips ← iterate client_cont
    client ← gather (check_client client_prefix client_br) (enumerate 0 client_ips)
    mgmt_prefix ← get_depl_netw_mgmt_prefix net config none
    mgmt_cont ← get_depl_netw_mgmt_cont_ip config none
    mgmt_br ← get_depl_netw_mgmt_brg_ip config none
    mgmt_ips ← iterate mgmt_cont
    mgmt ← gather (check_mgmt mgmt_prefix mgmt_br) (enumerate 0 mgmt_ips)
    ok ((masks ++ client) ++ mgmt)
