-- ===== src/Validate/Physical.antt =====
-- When `_validate_physical_interfaces` has nothing to complain about.
use cluster_genesis.Base.{
  ◌≡◌, refl, sym, ap, ◌∙◌, subst, ◌↔◌, Bool, true, false, List, [], ◌∷◌, ◌++◌, foldl, append-nil,
  append_assoc, arith, if◌then◌else◌, nat_eq, ◌==◌, option_eq, All, contains, Text, text_eq, keys,
}
use cluster_genesis.Base.Value.{Port, port_eq}
use cluster_genesis.Validate.{
  PhyIfc, NodeTemplate, Checked, add_ports_to_ports_list, ports_at, validate_switch_defined,
  validate_interface_defined, validate_rename, duplicate_complaints, is_bool, check_phyintf,
  check_phyintf_ipmi, check_ntmpl, validate_physical_interfaces,
}
use cluster_genesis.Validate.Ports.{NoRepeat, ports_at-add, duplicate_complaints-none}

-- What loops add to the state: ports for each switch, and complaints unless `Ok` holds.
record Gathers (s s' : Checked) (used : Text → List Port) (Ok : Type 0) : Type 0 where
  ports :
      (switch : Text) → ports_at switch s'.ports_list ≡ ports_at switch s.ports_list ++ used switch
  clean : (s'.exc ≡ []) ↔ ((s.exc ≡ []) × Ok)

Gathers-trans :
    (s s' s'' : Checked) (u v : Text → List Port) (Ok Ok' : Type 0)
    → Gathers s s' u Ok
    → Gathers s' s'' v Ok'
    → Gathers s s'' (λ switch. u switch ++ v switch) (Ok × Ok')
Gathers-trans s s' s'' u v Ok Ok' g h = record {
  ports = λ switch. h.ports switch ∙ ap (λ l. l ++ v switch) (g.ports switch) ∙ simp append_assoc;
  clean = (
    λ e. let (e', o') = h.clean.0 e in let (e'', o) = g.clean.0 e' in (e'', (o, o')),
    λ (e, (o, o')). h.clean.1 (g.clean.1 (e, o), o'),
  );
}

abbrev pub used_by_all {ℓ} : {A : Type ℓ} → (A → Text → List Port) → List A → Text → List Port
used_by_all used [] switch = []
used_by_all used (a ∷ as') switch = used a switch ++ used_by_all used as' switch

module _ {A : Type 0} (f : Checked → A → Checked) (used : A → Text → List Port) (Ok : A → Type 0)
    (step : (s : Checked) (a : A) → Gathers s (f s a) (used a) (Ok a)) where
  foldl-Gathers :
      (s : Checked) (xs : List A) → Gathers s (foldl f s xs) (used_by_all used xs) (All Ok xs)
  foldl-Gathers s [] = record {
    ports = λ switch. sym (append-nil _);
    clean = (λ e. (e, tt), λ h. h.0);
  }
  foldl-Gathers s (a ∷ xs) =
      Gathers-trans s (f s a) (foldl f (f s a) xs) (used a) (used_by_all used xs) (Ok a) (All Ok xs)
        (step s a) (foldl-Gathers (f s a) xs)

append-empty {ℓ} : {A : Type ℓ} (xs ys : List A) → (xs ++ ys ≡ []) ↔ ((xs ≡ []) × (ys ≡ []))
append-empty [] ys = (λ h. (refl, h), λ h. h.1)
append-empty (x ∷ xs) ys = (λ h. cc, λ h. cc)

-- The ports that an entry uses on a switch.
abbrev pub ifc_ports : PhyIfc → Text → List Port
ifc_ports ifc switch = if ifc.switch == switch then ifc.ports else []

abbrev pub ntmpl_ports : NodeTemplate → Text → List Port
ntmpl_ports ntmpl switch =
    (used_by_all ifc_ports ntmpl.data' switch ++ used_by_all ifc_ports ntmpl.pxe switch)
    ++ used_by_all ifc_ports ntmpl.ipmi switch

append-if {ℓ} :
    {A : Type ℓ} (b : Bool) (xs ys : List A)
    → (if b then xs ++ ys else xs) ≡ xs ++ (if b then ys else [])
append-if true xs ys = refl
append-if false xs ys = sym (append-nil xs)

added-ports :
    (s : Checked) (ifc : PhyIfc) (switch : Text)
    → ports_at switch (add_ports_to_ports_list ifc.switch ifc.ports s.ports_list)
      ≡ ports_at switch s.ports_list ++ ifc_ports ifc switch
added-ports s ifc switch =
    ports_at-add switch ifc.switch ifc.ports s.ports_list ∙ append-if (ifc.switch == switch) _ _

module _ (ifc_lbls sw_lbls : List Text) where
  abbrev pub IsDefined : PhyIfc → Type 0
  IsDefined ifc =
      (contains ifc_lbls ifc.interface ≡ true)
      × (is_bool ifc.rename ≡ true)
      × (contains sw_lbls ifc.switch ≡ true)

  abbrev pub HasSwitch : PhyIfc → Type 0
  HasSwitch ifc = contains sw_lbls ifc.switch ≡ true

  abbrev pub IsSound : NodeTemplate → Type 0
  IsSound ntmpl = (All IsDefined ntmpl.data' × All IsDefined ntmpl.pxe) × All HasSwitch ntmpl.ipmi

  switch_none :
      (lbl switch : Text)
      → (validate_switch_defined ifc_lbls sw_lbls lbl switch ≡ [])
        ↔ (contains sw_lbls switch ≡ true)
  unfolding validate_switch_defined
  switch_none lbl switch = ground arith

  interface_none :
      (lbl ifc : Text)
      → (validate_interface_defined ifc_lbls sw_lbls lbl ifc ≡ []) ↔ (contains ifc_lbls ifc ≡ true)
  unfolding validate_interface_defined
  interface_none lbl ifc = ground arith

  rename_none :
      (lbl : Text) (ifc : PhyIfc)
      → (validate_rename ifc_lbls sw_lbls lbl ifc ≡ []) ↔ (is_bool ifc.rename ≡ true)
  unfolding validate_rename
  rename_none lbl ifc = ground arith

  check_phyintf-Gathers :
      (lbl : Text) (s : Checked) (ifc : PhyIfc)
      → Gathers s (check_phyintf ifc_lbls sw_lbls lbl s ifc) (ifc_ports ifc) (IsDefined ifc)
  unfolding check_phyintf
  check_phyintf-Gathers lbl s ifc = record {
    ports = added-ports s ifc;
    clean = ground (
      arith,
      switch_none lbl ifc.switch,
      interface_none lbl ifc.interface,
      rename_none lbl ifc,
      append-empty
          ((s.exc ++ validate_interface_defined ifc_lbls sw_lbls lbl ifc.interface)
            ++ validate_rename ifc_lbls sw_lbls lbl ifc)
          (validate_switch_defined ifc_lbls sw_lbls lbl ifc.switch),
      append-empty (s.exc ++ validate_interface_defined ifc_lbls sw_lbls lbl ifc.interface)
          (validate_rename ifc_lbls sw_lbls lbl ifc),
      append-empty s.exc (validate_interface_defined ifc_lbls sw_lbls lbl ifc.interface),
    );
  }

  check_phyintf_ipmi-Gathers :
      (lbl : Text) (s : Checked) (ifc : PhyIfc)
      → Gathers s (check_phyintf_ipmi ifc_lbls sw_lbls lbl s ifc) (ifc_ports ifc) (HasSwitch ifc)
  unfolding check_phyintf_ipmi
  check_phyintf_ipmi-Gathers lbl s ifc = record {
    ports = added-ports s ifc;
    clean = ground (
      arith,
      switch_none lbl ifc.switch,
      append-empty s.exc (validate_switch_defined ifc_lbls sw_lbls lbl ifc.switch),
    );
  }

  check_ntmpl-Gathers :
      (s : Checked) (ntmpl : NodeTemplate)
      → Gathers s (check_ntmpl ifc_lbls sw_lbls s ntmpl) (ntmpl_ports ntmpl) (IsSound ntmpl)
  unfolding check_ntmpl
  check_ntmpl-Gathers s ntmpl =
      let phy = check_phyintf ifc_lbls sw_lbls ntmpl.label in
      let s₁ = foldl phy s ntmpl.data' in
      let s₂ = foldl phy s₁ ntmpl.pxe in
      let step = check_phyintf-Gathers ntmpl.label in
      Gathers-trans s s₂ _ _ _ _ _
        (Gathers-trans s s₁ s₂ _ _ _ _ (foldl-Gathers phy ifc_ports IsDefined step s ntmpl.data')
          (foldl-Gathers phy ifc_ports IsDefined step s₁ ntmpl.pxe))
        (foldl-Gathers (check_phyintf_ipmi ifc_lbls sw_lbls ntmpl.label) ifc_ports HasSwitch
          (check_phyintf_ipmi-Gathers ntmpl.label) s₂ ntmpl.ipmi)

  -- `_validate_physical_interfaces` complains about nothing exactly if every data and PXE entry of
  -- every node template names a defined interface and switch and has a Boolean `rename`, every
  -- IPMI entry names a defined switch, and no port of any switch is used twice, over all entries
  -- of all templates.
  pub validate_physical_interfaces_correct :
      (node_templates : List NodeTemplate)
      → (validate_physical_interfaces ifc_lbls sw_lbls node_templates ≡ []) ↔ (
          All IsSound node_templates
          × ((switch : Text) → NoRepeat (used_by_all ntmpl_ports node_templates switch)))
  unfolding validate_physical_interfaces
  validate_physical_interfaces_correct node_templates =
      let start : Checked = record { exc = []; ports_list = [] } in
      let s = foldl (check_ntmpl ifc_lbls sw_lbls) start node_templates in
      let g =
        foldl-Gathers (check_ntmpl ifc_lbls sw_lbls) ntmpl_ports IsSound check_ntmpl-Gathers start
          node_templates in
      let (split, join) =
        append-empty s.exc (duplicate_complaints (keys s.ports_list) s.ports_list) in
      let (to, from) = duplicate_complaints-none s.ports_list in
      (
        λ h.
            let (e, d) = split h in
            ((g.clean.0 e).1, λ switch. subst NoRepeat (g.ports switch) (to d switch)),
        λ (sound, once). join (
          g.clean.1 (refl, sound),
          from (λ switch. subst NoRepeat (sym (g.ports switch)) (once switch)),
        ),
      )
