-- ===== src/Switch/Found.antt =====
-- What the flags of `show_interfaces` of scripts/python/lib/switch_common.py say.
use cluster_genesis.Base.{
  ℕ, zero, suc, ◌≡◌, refl, sym, ap, ◌∙◌, inl, inr, Bool, true, false, ◌||◌, some, some-injective,
  List, [], ◌∷◌, ◌++◌, arith, nat_eq, ==_refl, option_eq, Bool-cases, get_elem?, Text, text_beq_iff,
  text_eq,
}
use cluster_genesis.Base.Value.{port_eq}
use cluster_genesis.Switch.Interfaces.{Ifc, is_same, names_vlan, look_for}

-- The interface that the arguments describe.
unfoldable pub wanted : Text → Text → Text → Ifc
wanted vlan host netmask = record { vlan_num = vlan; address = host; mask = netmask }

is_same_correct :
    (vlan host netmask : Text) (x : Ifc)
    → (is_same vlan host netmask x ≡ true → x ≡ wanted vlan host netmask)
unfolding is_same wanted
is_same_correct vlan host netmask x h =
    let v : vlan ≡ x.vlan_num = ground (arith, text_beq_iff vlan x.vlan_num) in
    let a : host ≡ x.address = ground (arith, text_beq_iff host x.address) in
    let m : netmask ≡ x.mask = ground (arith, text_beq_iff netmask x.mask) in rw (v, a, m) refl

is_same-wanted :
    (vlan host netmask : Text) → is_same vlan host netmask (wanted vlan host netmask) ≡ true
unfolding is_same wanted
is_same-wanted vlan host netmask = ground (arith, ==_refl vlan, ==_refl host, ==_refl netmask)

or_false : (b c : Bool) → (b || c) ≡ false → c ≡ false
or_false b c h = ground arith

module _ (vlan host netmask : Text) where
  -- A reported interface is the wanted one.
  pub configured_at :
      (ifcs : List Ifc)
      → (look_for vlan host netmask ifcs).configured ≡ true
      → (i : ℕ) × (get_elem? ifcs i ≡ some (wanted vlan host netmask))
  unfolding look_for
  configured_at [] h = cc
  configured_at (x ∷ xs) h = elim (Bool-cases (is_same vlan host netmask x)) [
    | inl e ↦ (0, ap some (is_same_correct vlan host netmask x e))
    | inr e ↦ let (i, at) = configured_at xs (rw e at h) in (suc i, at)
  ]

  pub configured-get_elem? :
      (ifcs : List Ifc) (i : ℕ)
      → get_elem? ifcs i ≡ some (wanted vlan host netmask)
      → (look_for vlan host netmask ifcs).configured ≡ true
  unfolding look_for
  configured-get_elem? [] i at = cc
  configured-get_elem? (x ∷ xs) zero at =
      let same : is_same vlan host netmask x ≡ true =
        ap (is_same vlan host netmask) (some-injective _ _ at) ∙ is_same-wanted vlan host netmask in
      rw same refl
  configured-get_elem? (x ∷ xs) (suc i) at = ground (arith, configured-get_elem? xs i at)

  -- A reported interface names the VLAN.
  pub found_vlan_at :
      (ifcs : List Ifc)
      → (look_for vlan host netmask ifcs).found_vlan ≡ true
      → (i : ℕ) × (x : Ifc) × (get_elem? ifcs i ≡ some x) × (names_vlan vlan x ≡ true)
  unfolding look_for
  found_vlan_at [] h = cc
  found_vlan_at (x ∷ xs) h = elim (Bool-cases (names_vlan vlan x)) [
    | inl e ↦ (0, x, refl, e)
    | inr e ↦ let (i, y, at, n) = found_vlan_at xs (rw e at h) in (suc i, y, at, n)
  ]

  pub not_found_vlan :
      (ifcs : List Ifc)
      → (look_for vlan host netmask ifcs).found_vlan ≡ false
      → (i : ℕ) (x : Ifc) → get_elem? ifcs i ≡ some x
      → names_vlan vlan x ≡ false
  unfolding look_for
  not_found_vlan [] h i x at = cc
  not_found_vlan (y ∷ ys) h zero x at = elim (Bool-cases (names_vlan vlan y)) [
    | inl e ↦ cc
    | inr e ↦ ap (names_vlan vlan) (sym (some-injective _ _ at)) ∙ e
  ]
  not_found_vlan (y ∷ ys) h (suc i) x at =
      not_found_vlan ys (or_false (names_vlan vlan y) _ h) i x at

  pub configured-append :
      (ifcs : List Ifc)
      → (look_for vlan host netmask (ifcs ++ wanted vlan host netmask ∷ [])).configured ≡ true
  unfolding look_for
  configured-append [] = rw (is_same-wanted vlan host netmask) refl
  configured-append (x ∷ xs) = ground (arith, configured-append xs)
