-- ===== src/Validate/Ports.antt =====
-- `get_dupes` finds nothing exactly in a list without repetitions.
use cluster_genesis.Base.{
  ◌≡◌, refl, sym, ap, ◌∙◌, subst, ◌↔◌, ◌⊎◌, inl, inr, false, Option, none, some, List, [], ◌∷◌,
  ◌++◌, arith, if◌then◌else◌, nat_eq, ◌==◌, option_eq, Bool-cases, Option-cases, All, contains,
  contains-append, Text, text_beq_iff, text_eq, Dict, keys, lookup, lookup-insert,
}
use cluster_genesis.Base.Value.{Port, port_beq_iff, port_eq}
use cluster_genesis.Validate.{
  get_dupes, dupes_from, add_ports_to_ports_list, duplicate_complaints, ports_at,
}

-- No port stands twice in the list.
abbrev pub NoRepeat : List Port → Type 0
NoRepeat [] = Unit
NoRepeat (p ∷ ps) = (contains ps p ≡ false) × NoRepeat ps

abbrev pub Apart : List Port → List Port → Type 0
Apart found ps = All (λ p. contains found p ≡ false) ps

Apart-snoc :
    (found : List Port) (p : Port) (ps : List Port)
    → Apart (found ++ p ∷ []) ps ↔ (Apart found ps × (contains ps p ≡ false))
Apart-snoc found p [] = ground arith
Apart-snoc found p (q ∷ ps) = ground (
  arith,
  Apart-snoc found p ps,
  contains-append found (p ∷ []) q,
  port_beq_iff q p,
  port_beq_iff p q,
)

dupes_from-none :
    (found ps : List Port) → (dupes_from found ps ≡ []) ↔ (Apart found ps × NoRepeat ps)
unfolding dupes_from
dupes_from-none found [] = (λ h. (tt, tt), λ h. refl)
dupes_from-none found (p ∷ ps) =
    ground (arith, dupes_from-none (found ++ p ∷ []) ps, Apart-snoc found p ps)

pub get_dupes_none : (ps : List Port) → (get_dupes ps ≡ []) ↔ NoRepeat ps
unfolding get_dupes
get_dupes_none ps =
    let (to, from) = dupes_from-none [] ps in (λ h. (to h).1, λ h. from (all_apart ps, h))
  where
    all_apart : (ps : List Port) → Apart [] ps
    all_apart [] = tt
    all_apart (p ∷ ps) = (refl, all_apart ps)

abbrev or_empty : Option (List Port) → List Port
or_empty none = []
or_empty (some ports) = ports

ports_at-lookup :
    (switch : Text) (d : Dict Text (List Port)) → ports_at switch d ≡ or_empty (lookup switch d)
ports_at-lookup switch d = elim (Option-cases (lookup switch d)) [
  | inl e ↦ rw (e, ports_at) refl
  | inr (ports, e) ↦ rw (e, ports_at) refl
]

add_ports_lookup :
    (switch s : Text) (ports : List Port) (d : Dict Text (List Port))
    → or_empty (lookup switch (add_ports_to_ports_list s ports d))
      ≡ (if s == switch then or_empty (lookup switch d) ++ ports else or_empty (lookup switch d))
unfolding add_ports_to_ports_list
add_ports_lookup switch s ports d = elim (Option-cases (lookup s d)) [
  | inl e ↦
      rw (e, add_ports_to_ports_list)
        (ground (arith, lookup-insert s switch ports d, text_beq_iff s switch, e))
  | inr (old, e) ↦
      rw (e, add_ports_to_ports_list)
        (ground (arith, lookup-insert s switch (old ++ ports) d, text_beq_iff s switch, e))
]

pub ports_at-add :
    (switch s : Text) (ports : List Port) (d : Dict Text (List Port))
    → ports_at switch (add_ports_to_ports_list s ports d)
      ≡ (if s == switch then ports_at switch d ++ ports else ports_at switch d)
ports_at-add switch s ports d =
    rw (ports_at-lookup switch _, ports_at-lookup switch d) (add_ports_lookup switch s ports d)

complaints-none :
    (switches : List Text) (d : Dict Text (List Port))
    → (duplicate_complaints switches d ≡ []) ↔ All (λ s. NoRepeat (ports_at s d)) switches
unfolding duplicate_complaints
complaints-none [] d = (λ h. tt, λ h. refl)
complaints-none (s ∷ ss) d = ground (arith, get_dupes_none (ports_at s d), complaints-none ss d)

at_key {κ} :
    (P : List Port → Type κ) (d d' : Dict Text (List Port)) (switch : Text)
    → All (λ s. P (ports_at s d')) (keys d)
    → (lookup switch d ≡ none) ⊎ P (ports_at switch d')
at_key P [] d' switch h = inl refl
at_key P ((s, ps) ∷ d) d' switch (p, h) = elim (Bool-cases (s == switch)) [
  | inl y ↦ inr (subst (λ u. P (ports_at u d')) ((text_beq_iff s switch).0 y) p)
  | inr n ↦ rw n (at_key P d d' switch h)
]

pub duplicate_complaints-none :
    (d : Dict Text (List Port))
    → (duplicate_complaints (keys d) d ≡ []) ↔ ((switch : Text) → NoRepeat (ports_at switch d))
duplicate_complaints-none d =
    let (to, from) = complaints-none (keys d) d in
    (
      λ h switch. elim (at_key NoRepeat d d switch (to h)) [
        | inl e ↦ subst NoRepeat (sym (ports_at-lookup switch d ∙ ap or_empty e)) tt
        | inr r ↦ r
      ],
      λ h. from (everywhere (keys d) h),
    )
  where
    everywhere :
        (switches : List Text)
        → ((switch : Text) → NoRepeat (ports_at switch d))
        → All (λ s. NoRepeat (ports_at s d)) switches
    everywhere [] h = tt
    everywhere (s ∷ ss) h = (h s, everywhere ss h)
