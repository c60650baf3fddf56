-- ===== src/Config/Templates/SwitchPorts.antt =====
-- scripts/python/lib/config.py: `get_client_switch_ports`, the ports of a switch that the node
-- templates use.
use cluster_genesis.Base.{
  ℕ, zero, suc, ◌≡◌, refl, sym, subst, ◌↔◌, ◌⊎◌, inl, inr, Bool, true, false, Option, none, some,
  some-injective, List, [], ◌∷◌, ◌++◌, foldl, arith, if◌then◌else◌, nat_eq, ◌==◌, option_eq,
  Bool-cases, get_elem?, contains, contains-append, Text, text_beq_iff, text_eq,
}
use cluster_genesis.Base.Value.{Port, port_eq}

-- An entry of a type of interfaces.
pub record Item : Type 0 where
  pub switch : Text
  pub ports : List Port

-- `template.physical_interfaces.items()`
abbrev pub PhysicalInterfaces : Type 0
PhysicalInterfaces = List (Text × List Item)

-- `if_type is None or if_type == temp_if_type`
unfoldable pub is_asked : Option Text → Text → Bool
is_asked none temp_if_type = true
is_asked (some if_type) temp_if_type = if_type == temp_if_type

module _ (switch_label : Text) (if_type : Option Text) where
  -- The loop over the ports of an entry appends each.
  unfoldable pub add_item : List Port → Item → List Port
  add_item port_list item' =
      if item'.switch == switch_label then port_list ++ item'.ports else port_list

  unfoldable pub add_type : List Port → Text × List Item → List Port
  add_type port_list (temp_if_type, items) =
      if is_asked if_type temp_if_type then foldl add_item port_list items else port_list

  unfoldable pub add_template : List Port → PhysicalInterfaces → List Port
  add_template port_list template = foldl add_type port_list template

  unfoldable pub get_client_switch_ports : List PhysicalInterfaces → List Port
  get_client_switch_ports node_templates = foldl add_template [] node_templates

module _ {A : Type 0} where
  -- An element satisfies `Q`.
  abbrev pub Any : (A → Type 0) → List A → Type 0
  Any Q xs = (k : ℕ) × (x : A) × (get_elem? xs k ≡ some x) × Q x

  -- A port is in the list after a step if it was before, or the element brings it.
  abbrev Brings : (List Port → A → List Port) → (A → Type 0) → Port → Type 0
  Brings f Q port =
      (l : List Port) (x : A) → (contains (f l x) port ≡ true) ↔ ((contains l port ≡ true) ⊎ Q x)

module _ {A : Type 0} where
  foldl-Brings :
      (f : List Port → A → List Port) (Q : A → Type 0) (port : Port)
      → Brings f Q port
      → Brings (foldl f) (Any Q) port
  foldl-Brings f Q port step l [] = (λ h. inl h, λ h. elim h [ inl e ↦ e | inr (k, x, e, q) ↦ cc ])
  foldl-Brings f Q port step l (x ∷ xs) =
      let (to, from) = foldl-Brings f Q port step (f l x) xs in
      let (to', from') = step l x in
      (
        λ h. elim (to h) [
          | inl e ↦ elim (to' e) [ inl e' ↦ inl e' | inr q ↦ inr (0, x, refl, q) ]
          | inr (k, y, e, q) ↦ inr (suc k, y, e, q)
        ],
        λ h. elim h [
          | inl e ↦ from (inl (from' (inl e)))
          | inr (zero, y, e, q) ↦ from (inl (from' (inr (subst Q (sym (some-injective x y e)) q))))
          | inr (suc k, y, e, q) ↦ from (inr (k, y, e, q))
        ],
      )

module _ (switch_label : Text) (if_type : Option Text) (port : Port) where
  abbrev pub ItemUses : Item → Type 0
  ItemUses item' = (item'.switch ≡ switch_label) × (contains item'.ports port ≡ true)

  abbrev pub TypeUses : Text × List Item → Type 0
  TypeUses (temp_if_type, items) = (is_asked if_type temp_if_type ≡ true) × Any ItemUses items

  false_true {ℓ} : {B : Type ℓ} → false ≡ true → B
  false_true h = cc

  item-Brings : Brings (add_item switch_label if_type) ItemUses port
  unfolding add_item
  item-Brings l x =
      ground (arith, text_beq_iff x.switch switch_label, contains-append l x.ports port)

  type-Brings : Brings (add_type switch_label if_type) TypeUses port
  unfolding add_type
  type-Brings l (ty, items) = elim (Bool-cases (is_asked if_type ty)) [
    | inl y ↦
        let (to, from) =
          foldl-Brings (add_item switch_label if_type) ItemUses port item-Brings l items in
        rw y (
          λ h. elim (to h) [ inl e ↦ inl e | inr u ↦ inr (refl, u) ],
          λ h. elim h [ inl e ↦ from (inl e) | inr (_, u) ↦ from (inr u) ],
        )
    | inr n ↦ rw n (λ h. inl h, λ h. elim h [ inl e ↦ e | inr (e, u) ↦ false_true e ])
  ]

  template-Brings : Brings (add_template switch_label if_type) (Any TypeUses) port
  unfolding add_template
  template-Brings l template =
      foldl-Brings (add_type switch_label if_type) TypeUses port type-Brings l template

  -- A port is in the result exactly if an entry of some node template uses it on the switch, under
  -- the interface type that is asked for, if one is.
  pub get_client_switch_ports_correct :
      (node_templates : List PhysicalInterfaces)
      → (contains (get_client_switch_ports switch_label if_type node_templates) port ≡ true)
        ↔ Any (Any TypeUses) node_templates
  unfolding get_client_switch_ports
  get_client_switch_ports_correct node_templates =
      let (to, from) =
        foldl-Brings (add_template switch_label if_type) (Any TypeUses) port template-Brings []
          node_templates in
      (λ h. elim (to h) [ inl e ↦ false_true e | inr u ↦ u ], λ u. from (inr u))
