-- ===== src/Validate/Logic.antt =====
-- scripts/python/lib/validate_config_logic.py: `validate_config_logic`, the checks one after the
-- other on one configuration, which the check of the physical interfaces changes.
use cluster_genesis.Base.{
  List, [], ◌∷◌, ◌++◌, map, nat_eq, option_eq, Text, text_eq, Result, ◌>>=◌,
  user_critical_exception, ok, err,
}
use cluster_genesis.Base.Value.{Value, port_eq}
use cluster_genesis.Config.Masks.{Netaddr}
use cluster_genesis.Validate.Networks.{
  Message, validate_version, validate_deployer_networks, physical,
}
use cluster_genesis.Validate.Hosts.{
  validate_dhcp_lease_time, validate_labels, validate_software_bootstrap,
}
use cluster_genesis.Validate.Images.{Images, validate_os_profiles}
use cluster_genesis.Validate.Aliased.{check_physical}

module _ (net : Netaddr) (network : Text → Result Text) where
  -- `self.exc` behind all checks, unless one of them raises.
  unfoldable pub all_complaints : Images → Value → Result (List Message)
  unfolding validate_version check_physical validate_deployer_networks validate_dhcp_lease_time
      validate_labels validate_software_bootstrap validate_os_profiles
  all_complaints images config = do
    version ← validate_version config
    (complaints, config') ← check_physical config
    networks ← validate_deployer_networks net network config'
    _ ← validate_dhcp_lease_time config'
    labels ← validate_labels config'
    bootstrap ← validate_software_bootstrap config'
    profiles ← validate_os_profiles images config'
    ok (version ++ map physical complaints ++ networks ++ labels ++ bootstrap ++ profiles)

  unfoldable pub validate_config_logic : Images → Value → Result (Unit {0})
  unfolding all_complaints
  validate_config_logic images config = all_complaints images config >>= λ exc. elim exc [
    | [] ↦ ok tt
    | m ∷ ms ↦ err user_critical_exception
  ]
