-- ===== src/Config/Templates/Interfaces/Placed.antt =====
-- What `get_ntmpl_interfaces` returns for the labels that it has collected, and when it raises.
use cluster_genesis.Base.{
  ℕ, zero, suc, ◌≡◌, refl, sym, ap, ◌∙◌, subst, ◌⊎◌, inl, inr, Option, none, some, some-injective,
  List, [], ◌∷◌, map, foldl, arith, nat_eq, option_eq, Option-cases, length, get_elem?, set,
  length-set, get_elem?-lt, All, index_of?, index_of?-get_elem?, get_elem?-in, Text, text_eq,
  >>=-eq-ok, ok,
}
use cluster_genesis.Base.Value.{port_eq}
use cluster_genesis.Config.Templates.Interfaces.{
  Interface, strip_addresses, place, nones, all_defined, NetworkDef, Template, collect_labels,
  placed, get_ntmpl_interfaces,
}

-- No label stands at two places.
abbrev pub Distinct : List Text → Type 0
Distinct labels =
    (i j : ℕ) (l : Text) → get_elem? labels i ≡ some l → get_elem? labels j ≡ some l → i ≡ j

All-of-items {ℓ κ} :
    {A : Type ℓ} (Q : A → Type κ) (xs : List A)
    → ((j : ℕ) (x : A) → get_elem? xs j ≡ some x → Q x)
    → All Q xs
All-of-items Q [] h = tt
All-of-items Q (x ∷ xs) h = (h 0 x refl, All-of-items Q xs (λ j y e. h (suc j) y e))

pub none-ne-some {ℓ κ} : {A : Type ℓ} {B : Type κ} {a : A} → some none ≡ some (some a) → B
none-ne-some h = cc

nones_empty : (n i : ℕ) (x : Interface) → get_elem? (nones n) i ≡ some (some x) → ⊥
unfolding nones
nones_empty zero i x h = cc
nones_empty (suc n) zero x h = none-ne-some h
nones_empty (suc n) (suc i) x h = nones_empty n i x h

pub length-nones : (n : ℕ) → length (nones n) ≡ n
unfolding nones
length-nones zero = refl
length-nones (suc n) = ap suc (length-nones n)

pub get_elem?-set_any {ℓ} :
    {A : Type ℓ} (xs : List A) (i j : ℕ) (v : A)
    → (get_elem? (set xs i v) j ≡ get_elem? xs j) ⊎ ((j ≡ i) × (get_elem? (set xs i v) j ≡ some v))
get_elem?-set_any [] i j v = inl refl
get_elem?-set_any (x ∷ xs) zero zero v = inr (refl, refl)
get_elem?-set_any (x ∷ xs) zero (suc j) v = inl refl
get_elem?-set_any (x ∷ xs) (suc i) zero v = inl refl
get_elem?-set_any (x ∷ xs) (suc i) (suc j) v = elim (get_elem?-set_any xs i j v) [
  | inl e ↦ inl e
  | inr (e, at) ↦ inr (ap suc e, at)
]

some-some {ℓ} : {A : Type ℓ} {a b : A} → some (some a) ≡ some (some b) → b ≡ a
some-some h = cc

ok-cons : (y : Interface) (rest out : List Interface) → ok (y ∷ rest) ≡ ok out → out ≡ y ∷ rest
ok-cons y rest out h = cc

all_defined_items :
    (xs : List (Option Interface)) (out : List Interface)
    → all_defined xs ≡ ok out
    → xs ≡ map some out
unfolding all_defined
all_defined_items [] [] h = refl
all_defined_items [] (y ∷ out) h = cc
all_defined_items (none ∷ xs) out h = cc
all_defined_items (some y ∷ xs) out h =
    let (rest, e, h') = >>=-eq-ok (all_defined xs) _ h in
    ap (λ l. some y ∷ l) (all_defined_items xs rest e) ∙ ap (map some) (sym (ok-cons y rest out h'))

get_elem?-map-some {ℓ} :
    {A : Type ℓ} (xs : List A) (i : ℕ) (x : A)
    → get_elem? xs i ≡ some x
    → get_elem? (map some xs) i ≡ some (some x)
get_elem?-map-some [] i x h = cc
get_elem?-map-some (y ∷ xs) zero x h = ap some h
get_elem?-map-some (y ∷ xs) (suc i) x h = get_elem?-map-some xs i x h

length-map-some {ℓ} : {A : Type ℓ} (xs : List A) → length (map some xs) ≡ length xs
length-map-some [] = refl
length-map-some (x ∷ xs) = ap suc (length-map-some xs)

module _ (labels : List Text) where
  place_cases :
      (interfaces : List (Option Interface)) (label : Text) (d : Interface) (i : ℕ) (x : Interface)
      → get_elem? (place labels interfaces (label, d)) i ≡ some (some x)
      → (get_elem? interfaces i ≡ some (some x))
        ⊎ ((index_of? labels label ≡ some i) × (x ≡ strip_addresses d))
  unfolding place
  place_cases interfaces label d i x h = elim (Option-cases (index_of? labels label)) [
    | inl e ↦ inl (rw (e, place) at h)
    | inr (k, e) ↦
        let h' = rw (e, place) at h in
        elim (get_elem?-set_any interfaces k i (some (strip_addresses d))) [
          | inl same ↦ inl (sym same ∙ h')
          | inr (here, at) ↦ inr (e ∙ ap some (sym here), some-some (sym at ∙ h'))
        ]
  ]

  pub length-place :
      (interfaces : List (Option Interface)) (ld : Text × Interface)
      → length (place labels interfaces ld) ≡ length interfaces
  unfolding place
  length-place interfaces (label, d) = elim (Option-cases (index_of? labels label)) [
    | inl e ↦ rw (e, place) refl
    | inr (k, e) ↦ rw (e, place) (length-set interfaces k (some (strip_addresses d)))
  ]

  -- The interface at an index is a definition whose label stands first there.
  abbrev From : List (Text × Interface) → ℕ → Interface → Type 0
  From defs i x =
      (j : ℕ) × (l : Text) × (d : Interface) × (get_elem? defs j ≡ some (l, d))
      × (index_of? labels l ≡ some i)
      × (x ≡ strip_addresses d)

  placed_from :
      (P : ℕ → Interface → Type 0) (defs : List (Text × Interface)) (acc : List (Option Interface))
      → ((i : ℕ) (x : Interface) → get_elem? acc i ≡ some (some x) → P i x)
      → All (λ (l, d). (i : ℕ) → index_of? labels l ≡ some i → P i (strip_addresses d)) defs
      → (length (foldl (place labels) acc defs) ≡ length acc)
        × ((i : ℕ) (x : Interface)
            → get_elem? (foldl (place labels) acc defs) i ≡ some (some x)
            → P i x)
  placed_from P [] acc h a = (refl, h)
  placed_from P ((l, d) ∷ defs) acc h (new, a) =
      let (len, later) =
        placed_from P defs (place labels acc (l, d))
          (λ i x e. elim (place_cases acc l d i x e) [
            | inl old ↦ h i x old
            | inr (at, same) ↦ subst (P i) (sym same) (new i at)
          ])
          a in
      (len ∙ length-place acc (l, d), later)

  placed_items :
      (defs : List (Text × Interface)) (out : List Interface)
      → all_defined (placed labels defs) ≡ ok out
      → (length out ≡ length labels)
        × ((i : ℕ) (x : Interface) → get_elem? out i ≡ some x → From defs i x)
  unfolding placed
  placed_items defs out h =
      let filled = all_defined_items (placed labels defs) out h in
      let (len, items) =
        placed_from (From defs) defs (nones (length labels))
          (λ i x e. absurd (nones_empty (length labels) i x e))
          (All-of-items _ defs (λ j (l, d) e i at. (j, l, d, e, at, refl))) in
      (
        sym (length-map-some out)
            ∙ ap (λ l. length l) (sym filled)
            ∙ len
            ∙ length-nones (length labels),
        λ i x e. items i x (rw filled (get_elem?-map-some out i x e)),
      )

-- The definition with that label stands in the list, and the interface is its copy without the
-- lists of addresses.
abbrev pub DefinedAs : List (Text × Interface) → Text → Interface → Type 0
DefinedAs defs l x =
    (j : ℕ) × (d : Interface) × (get_elem? defs j ≡ some (l, d)) × (x ≡ strip_addresses d)

-- If `get_ntmpl_interfaces` returns, no label was collected twice, and the result has for each
-- label, in the order of the labels, the definition with that label, without its lists of
-- addresses. A label that is collected twice therefore raises, also if it is defined.
pub get_ntmpl_interfaces_aligned :
    (network_defs : List NetworkDef) (interface_defs : List (Text × Interface)) (t : Template)
    (out : List Interface)
    → get_ntmpl_interfaces network_defs interface_defs t ≡ ok out
    → Distinct (collect_labels network_defs t)
      × (length out ≡ length (collect_labels network_defs t))
      × ((i : ℕ) (l : Text)
          → get_elem? (collect_labels network_defs t) i ≡ some l
          → (x : Interface) × (get_elem? out i ≡ some x) × DefinedAs interface_defs l x)
unfolding get_ntmpl_interfaces
get_ntmpl_interfaces_aligned network_defs interface_defs t out h =
    let labels = collect_labels network_defs t in
    let (len, items) = placed_items labels interface_defs out h in
    let found = place_of labels interface_defs out len items in
    (
      λ i j l e e'. found_once labels l i j (found i l e).2.0 (found j l e').2.0,
      len,
      λ i l e. let (x, at, (_, d)) = found i l e in (x, at, d),
    )
  where
    place_of :
        (labels : List Text) (defs : List (Text × Interface)) (out : List Interface)
        → length out ≡ length labels
        → ((i : ℕ) (x : Interface) → get_elem? out i ≡ some x → From labels defs i x)
        → (i : ℕ) (l : Text) → get_elem? labels i ≡ some l
        → (x : Interface) × (get_elem? out i ≡ some x)
          × ((index_of? labels l ≡ some i) × DefinedAs defs l x)
    place_of labels defs out len items i l e =
        let (x, at) = get_elem?-in out i (omega (arith, len, get_elem?-lt labels i l e)) in
        let (j, l', d, has, first, same) = items i x at in
        let one : l' ≡ l = some-injective l' l (sym (index_of?-get_elem? labels l' i first) ∙ e) in
        (x, at, (rw⁻¹ one first, (j, d, rw⁻¹ one has, same)))

    found_once :
        (labels : List Text) (l : Text) (i j : ℕ)
        → index_of? labels l ≡ some i
        → index_of? labels l ≡ some j
        → i ≡ j
    found_once labels l i j e e' = some-injective i j (sym e ∙ e')
