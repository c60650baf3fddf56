-- ===== src/Config/Templates/Interfaces/Total.antt =====
-- When `get_ntmpl_interfaces` returns.
use cluster_genesis.Base.{
  ℕ, zero, suc, ◌<◌, ◌≡◌, refl, ap, ◌∙◌, inl, inr, Bool, true, false, Option, none, some,
  some-injective, List, [], ◌∷◌, foldl, arith, nat_eq, option_eq, Option-cases, length, get_elem?,
  get_elem?-set_self, index_of?, contains-get_elem?, index_of?-get_elem?, index_of?-none,
  get_elem?-in, Text, text_eq, ok,
}
use cluster_genesis.Base.Value.{port_eq}
use cluster_genesis.Config.Templates.Interfaces.{
  Interface, NetworkDef, Template, collect_labels, strip_addresses, place, nones, all_defined,
  placed, get_ntmpl_interfaces,
}
use cluster_genesis.Config.Templates.Interfaces.Placed.{
  Distinct, none-ne-some, length-nones, get_elem?-set_any, length-place,
}

abbrev Filled : List (Option Interface) → ℕ → Type 0
Filled xs i = (x : Interface) × (get_elem? xs i ≡ some (some x))

all_defined_total :
    (xs : List (Option Interface))
    → ((i : ℕ) → i < length xs → Filled xs i)
    → (out : List Interface) × (all_defined xs ≡ ok out)
unfolding all_defined
all_defined_total [] h = ([], refl)
all_defined_total (none ∷ xs) h = let (x, e) = h 0 (omega arith) in none-ne-some e
all_defined_total (some y ∷ xs) h =
    let (out, e) = all_defined_total xs (λ i lt. h (suc i) (omega arith)) in (y ∷ out, rw e refl)

module _ (labels : List Text) where
  place_keeps :
      (acc : List (Option Interface)) (ld : Text × Interface) (i : ℕ)
      → Filled acc i
      → Filled (place labels acc ld) i
  unfolding place
  place_keeps acc (label, d) i (x, h) = elim (Option-cases (index_of? labels label)) [
    | inl e ↦ rw (e, place) (x, h)
    | inr (k, e) ↦
        rw (e, place)
          (elim (get_elem?-set_any acc k i (some (strip_addresses d))) [
            | inl same ↦ (x, same ∙ h)
            | inr (here, at) ↦ (strip_addresses d, at)
          ])
  ]

  place_fills :
      (acc : List (Option Interface)) (label : Text) (d : Interface) (i : ℕ)
      → index_of? labels label ≡ some i
      → i < length acc
      → Filled (place labels acc (label, d)) i
  unfolding place
  place_fills acc label d i e lt =
      rw (e, place) (strip_addresses d, get_elem?-set_self acc i (some (strip_addresses d)) lt)

  fold_keeps :
      (defs : List (Text × Interface)) (acc : List (Option Interface)) (i : ℕ)
      → Filled acc i
      → Filled (foldl (place labels) acc defs) i
  fold_keeps [] acc i h = h
  fold_keeps (ld ∷ defs) acc i h = fold_keeps defs (place labels acc ld) i (place_keeps acc ld i h)

  fold_fills :
      (defs : List (Text × Interface)) (acc : List (Option Interface)) (i : ℕ) (l : Text)
      → index_of? labels l ≡ some i
      → i < length acc
      → (j : ℕ) (d : Interface) → get_elem? defs j ≡ some (l, d)
      → Filled (foldl (place labels) acc defs) i
  fold_fills [] acc i l at lt j d h = cc
  fold_fills ((l', d') ∷ defs) acc i l at lt zero d h =
      let same : l' ≡ l = ap (λ (p : Text × Interface). p.0) (some-injective (l', d') (l, d) h) in
      fold_keeps defs (place labels acc (l', d')) i (place_fills acc l' d' i (rw same at) lt)
  fold_fills ((l', d') ∷ defs) acc i l at lt (suc j) d h =
      fold_fills defs (place labels acc (l', d')) i l at
        (omega (arith, lt, length-place labels acc (l', d'))) j d h

  first_place :
      (i : ℕ) (l : Text)
      → Distinct labels
      → get_elem? labels i ≡ some l
      → index_of? labels l ≡ some i
  first_place i l once e = elim (Option-cases (index_of? labels l)) [
    | inl absent ↦
        absurd (differ (contains-get_elem? labels i l e) (index_of?-none labels l absent))
    | inr (k, at) ↦ at ∙ ap some (once k i l (index_of?-get_elem? labels l k at) e)
  ]
    where
      differ : {b : Bool} → b ≡ true → b ≡ false → ⊥
      differ p q = cc

-- If no label is collected twice and each has a definition, `get_ntmpl_interfaces` returns.
pub get_ntmpl_interfaces_returns :
    (network_defs : List NetworkDef) (interface_defs : List (Text × Interface)) (t : Template)
    → Distinct (collect_labels network_defs t)
    → ((i : ℕ) (l : Text)
        → get_elem? (collect_labels network_defs t) i ≡ some l
        → (j : ℕ) × (d : Interface) × (get_elem? interface_defs j ≡ some (l, d)))
    → (out : List Interface) × (get_ntmpl_interfaces network_defs interface_defs t ≡ ok out)
unfolding get_ntmpl_interfaces placed
get_ntmpl_interfaces_returns network_defs interface_defs t once defined =
    let labels = collect_labels network_defs t in
    let start = nones (length labels) in
    let room = length-foldl labels interface_defs start in
    all_defined_total (placed labels interface_defs) (λ i lt.
      let (l, e) = get_elem?-in labels i (omega (arith, lt, room, length-nones (length labels))) in
      let (j, d, h) = defined i l e in
      fold_fills labels interface_defs start i l (first_place labels i l once e)
        (omega (arith, lt, room)) j d h)
  where
    length-foldl :
        (labels : List Text) (defs : List (Text × Interface)) (acc : List (Option Interface))
        → length (foldl (place labels) acc defs) ≡ length acc
    length-foldl labels [] acc = refl
    length-foldl labels (ld ∷ defs) acc =
        length-foldl labels defs (place labels acc ld) ∙ length-place labels acc ld
