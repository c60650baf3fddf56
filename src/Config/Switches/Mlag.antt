-- ===== src/Config/Switches/Mlag.antt =====
-- scripts/python/lib/config.py: the peers of an MLAG, and the remaining getters of the `switches`
-- section. A label is a text, as the schema of the configuration has it.
use cluster_genesis.Base.{
  ℕ, ◌+◌, Bool, true, false, ◌||◌, none, some, List, [], ◌∷◌, ltb, if◌then◌else◌, nat_eq, option_eq,
  Text, codes, text_eq, Result, ◌>>=◌, type_error, ok, err,
}
use cluster_genesis.Base.Value.{Value, port_eq, null, str}
use cluster_genesis.Config.Access.{attr, iterate, get_index, len, path}
use cluster_genesis.Config.Switches.Labels.{get_sw_data_index_by_label}
use cluster_genesis.Config.Switches.Data.{yield_sw_data_label}
use cluster_genesis.Config.Switches.DataPorts.{
  get_sw_data_links_target, yield_sw_data_links_target, get_sw_data_links_ip,
  get_sw_data_links_vlan,
}
use cluster_genesis.Config.Templates.Settings.{same_scalar}

-- `v in vs`
unfoldable pub in_values : Value → List Value → Bool
unfolding same_scalar
in_values v [] = false
in_values v (w ∷ ws) = same_scalar v w || in_values v ws

unfoldable pub is_null : Value → Bool
is_null null = true
is_null _ = false

-- The first target whose link has a VLAN, from a link on.
unfoldable pub find_peer : (ℕ → Result Value) → ℕ → List Value → Result Value
unfolding is_null
find_peer vlan link_idx [] = ok null
find_peer vlan link_idx (target_link ∷ links) = vlan link_idx >>= λ v. elim (is_null v) [
  | true ↦ find_peer vlan (link_idx + 1) links
  | false ↦ ok target_link
]

-- An unknown label has index `None`, at which the generator of the targets ends without one.
unfoldable pub get_sw_data_mlag_peer : Value → Text → Result Value
unfolding find_peer get_sw_data_index_by_label yield_sw_data_links_target get_sw_data_links_vlan
get_sw_data_mlag_peer cfg label = get_sw_data_index_by_label cfg label >>= λ found. elim found [
  | none ↦ ok null
  | some switch_idx ↦ do
    targets ← yield_sw_data_links_target cfg switch_idx
    find_peer (λ i. get_sw_data_links_vlan cfg switch_idx (some i)) 0 targets
]

-- The switch that numbers the channels so far, and the largest address of a link.
abbrev pub Master : Type 0
Master = Value × ℕ

unfoldable pub higher : Text → ℕ → Master → Master
higher switch ip (mstr_switch, ip_max) =
    if ltb ip_max ip then (str switch, ip) else (mstr_switch, ip_max)

unfoldable pub first_switch : Text → Master → Master
unfolding is_null
first_switch switch (mstr_switch, ip_max) =
    if is_null mstr_switch then (str switch, ip_max) else (mstr_switch, ip_max)

-- `netaddr.IPNetwork(v).value` is a parameter.
module _ (network_value : Value → Result ℕ) where
  -- The loop over the links of a switch: whether a target is in the list is `listed`.
  unfoldable pub master_links :
      (Value → Bool) → (ℕ → Result Value) → Text → ℕ → List Value → Master → Result Master
  unfolding higher first_switch
  master_links listed ipaddr switch link_idx [] m = ok m
  master_links listed ipaddr switch link_idx (link_target ∷ targets) m = elim (listed link_target) [
    | true ↦ do
      v ← ipaddr link_idx
      ip ← network_value v
      master_links listed ipaddr switch (link_idx + 1) targets (higher switch ip m)
    | false ↦ master_links listed ipaddr switch (link_idx + 1) targets (first_switch switch m)
  ]

  unfoldable pub master_of_switch : Value → (Value → Bool) → Text → Master → Result Master
  unfolding get_sw_data_index_by_label get_sw_data_links_target get_sw_data_links_ip master_links
  master_of_switch cfg listed switch m = get_sw_data_index_by_label cfg switch >>= λ found.
      elim found [
        | none ↦ err type_error
        | some sw_idx ↦ do
          members ← get_sw_data_links_target cfg sw_idx none
          targets ← iterate members
          master_links listed (λ i. get_sw_data_links_ip cfg sw_idx (some i)) switch 0 targets m
      ]

  unfoldable pub master_loop : Value → (Value → Bool) → List Value → Master → Result Master
  unfolding master_of_switch
  master_loop cfg listed [] m = ok m
  master_loop cfg listed (str switch ∷ switches) m = elim (listed (str switch)) [
    | false ↦ master_loop cfg listed switches m
    | true ↦ master_of_switch cfg listed switch m >>= λ m'. master_loop cfg listed switches m'
  ]
  master_loop cfg listed (_ ∷ switches) m = err type_error

  unfoldable pub get_sw_data_mstr_switch : Value → List Value → Result Value
  unfolding in_values master_loop yield_sw_data_label
  get_sw_data_mstr_switch cfg switch_list = do
    labels ← yield_sw_data_label cfg
    m ← master_loop cfg (λ v. in_values v switch_list) labels (null, 0)
    ok m.0

unfoldable pub get_sw_mgmt_interfaces_cnt : Value → ℕ → Result ℕ
get_sw_mgmt_interfaces_cnt cfg switch_index = do
  switches ← path cfg (codes "switches" ∷ codes "mgmt" ∷ [])
  switch ← get_index switches switch_index
  interfaces ← attr switch (codes "interfaces")
  len interfaces
