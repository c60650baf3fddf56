-- ===== src/Tests/Logic.antt =====
-- The checks of a small configuration.
use cluster_genesis.Base.{
  ℕ, ◌≡◌, refl, true, false, List, [], ◌∷◌, map, nat_eq, option_eq, Text, codes, text_beq, text_eq,
  Result, ◌>>=◌, ok,
}
use cluster_genesis.Base.Value.{Value, port_eq, int, str}
use cluster_genesis.Config.Templates.Lists.{get_ntmpl_cnt}
use cluster_genesis.Config.Templates.{node_template, physical_interface}
use cluster_genesis.Config.Templates.Pxe.{get_ntmpl_phyintf_pxe_cnt}
use cluster_genesis.Config.Access.{
  attr, iterate, get_index, len, key_in, path, member_value, get_members,
}
use cluster_genesis.Config.Templates.Ipmi.{
  get_ntmpl_phyintf_ipmi_pt_cnt, get_ntmpl_phyintf_ipmi_cnt,
}
use cluster_genesis.Tests.Yaml.{obj, many}
use cluster_genesis.Validate.{
  Complaint, dupes_from, get_dupes, add_ports_to_ports_list, duplicate_complaints,
  validate_switch_defined, check_phyintf_ipmi, check_ntmpl,
}
use cluster_genesis.Validate.Networks.{check_masks, both_given, no_image}
use cluster_genesis.Validate.Hosts.{digits_end, lease_time_ok}
use cluster_genesis.Validate.Images.{
  without_iso, of_urls, of_files, valid_os_profiles, missing_images,
}
use cluster_genesis.Validate.Aliased.{check_physical}

lease_times :
    map lease_time_ok (
      codes "90"
      ∷ codes "15m"
      ∷ codes "1h\n"
      ∷ codes "infinite"
      ∷ codes "h"
      ∷ codes "1d"
      ∷ codes "1hh"
      ∷ [])
    ≡ true ∷ true ∷ true ∷ true ∷ false ∷ false ∷ false ∷ []
unfolding lease_time_ok digits_end text_beq
lease_times = refl

image_names :
    missing_images
      (valid_os_profiles (record {
        urls = codes "rhel" ∷ [];
        pointers = codes "ubuntu" ∷ [];
        files = (codes "sles.iso", 7) ∷ (codes "empty", 0) ∷ [];
      }))
      (str (codes "rhel.iso") ∷ str (codes "sles") ∷ str (codes "empty") ∷ [])
    ≡ no_image (str (codes "empty")) ∷ []
unfolding missing_images valid_os_profiles text_beq of_urls of_files without_iso
image_names = refl

both_masks :
    check_masks (obj ((codes "netmask", str (codes "m")) ∷ (codes "prefix", int 24) ∷ []))
    ≡ ok (both_given (str (codes "m")) (int 24) ∷ [])
unfolding check_masks obj attr text_beq
both_masks = refl

plug : List Value → Value
plug ports = obj ((codes "switch", str (codes "leaf")) ∷ (codes "ports", many ports) ∷ [])

template : Text → List Value → Value
unfolding plug
template label ports = obj (
    (codes "label", str label)
    ∷ (
      codes "physical_interfaces",
      obj (
          (codes "pxe", many [])
          ∷ (codes "data", many [])
          ∷ (codes "ipmi", many (plug ports ∷ []))
          ∷ []),
    )
    ∷ [])

cfg : Value
unfolding template
cfg = obj (
    (codes "interfaces", many [])
    ∷ (
      codes "switches",
      obj (
          (codes "mgmt", many (obj ((codes "label", str (codes "leaf")) ∷ []) ∷ []))
          ∷ (codes "data", many [])
          ∷ []),
    )
    ∷ (
      codes "node_templates",
      many (template (codes "a") (int 1 ∷ []) ∷ template (codes "b") (int 2 ∷ int 3 ∷ []) ∷ []),
    )
    ∷ [])

hosts_counted : Result (List Complaint × Value) → Result (List Complaint × ℕ)
hosts_counted r = do
  (complaints, cfg') ← r
  n ← get_ntmpl_phyintf_ipmi_pt_cnt cfg' 0 0
  ok (complaints, n)

-- The check of the physical interfaces finds nothing, and leaves the first template the ports of
-- both, which are three.
ports_of_both : hosts_counted (check_physical cfg) ≡ ok ([], 3)
unfolding check_physical hosts_counted get_ntmpl_phyintf_ipmi_pt_cnt cfg path attr obj text_beq
    iterate get_members member_value key_in get_ntmpl_cnt len get_index node_template
    get_ntmpl_phyintf_pxe_cnt get_ntmpl_phyintf_ipmi_cnt physical_interface check_ntmpl
    check_phyintf_ipmi validate_switch_defined add_ports_to_ports_list duplicate_complaints
    get_dupes dupes_from
ports_of_both = refl
