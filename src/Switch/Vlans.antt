-- ===== src/Switch/Vlans.antt =====
-- The VLANs of a switch: `create_vlan`, `delete_vlan` and `is_vlan_created` of
-- scripts/python/lib/switch_common.py. A VLAN is given by its decimal digits.
use cluster_genesis.Base.{
  Bool, true, false, ◌||◌, Option, none, some, List, [], ◌∷◌, ◌++◌, nat_eq, option_eq, Text, codes,
  text_eq, Result, switch_exception, ok, err,
}
use cluster_genesis.Base.Value.{port_eq}
use cluster_genesis.Base.Strings.{split, starts_with}
use cluster_genesis.Exec.{Exec, ◌>>=◌, ◌>>◌, pure, lift}
use cluster_genesis.Switch.{Session, Remote}
use cluster_genesis.Switch.Send.{send_cmd, if_passive, if_active}
use cluster_genesis.Switch.Answers.{answered}

unfoldable pub any_starts : Text → List Text → Bool
unfolding starts_with
any_starts p [] = false
any_starts p (line ∷ ls) = starts_with p line || any_starts p ls

-- `re.search(r'^' + vlan, t, re.MULTILINE)`
unfoldable pub lists_vlan : Text → Text → Bool
unfolding any_starts split
lists_vlan vlan t = any_starts vlan (split 10 t)

unfoldable pub unless_created : Option Bool → Result (Unit {0})
unless_created none = err switch_exception
unless_created (some true) = ok tt
unless_created (some false) = err switch_exception

unfoldable pub unless_left : Option Bool → Result (Unit {0})
unless_left none = ok tt
unless_left (some true) = err switch_exception
unless_left (some false) = ok tt

module _ {D : Type 0} (remote : Remote D) where
  unfoldable pub show_vlans : Exec (Session D) (Option Text)
  unfolding if_passive send_cmd
  show_vlans = if_passive none (send_cmd remote (codes "show vlan"))

  unfoldable pub is_vlan_created : Text → Exec (Session D) (Option Bool)
  unfolding if_passive send_cmd answered lists_vlan
  is_vlan_created vlan = if_passive none (do
    info ← send_cmd remote (codes "show vlan")
    t ← lift (answered info)
    pure (some (lists_vlan vlan t)))

  unfoldable pub create_vlan : Text → Exec (Session D) (Unit {0})
  unfolding send_cmd if_passive is_vlan_created unless_created
  create_vlan vlan =
      send_cmd remote (codes "vlan " ++ vlan)
      >> if_passive tt (is_vlan_created vlan >>= λ created. lift (unless_created created))

  unfoldable pub delete_vlan : Text → Exec (Session D) (Unit {0})
  unfolding send_cmd is_vlan_created unless_left if_active
  delete_vlan vlan =
      send_cmd remote (codes "no vlan " ++ vlan)
      >> if_active tt (is_vlan_created vlan >>= λ created. lift (unless_left created))
