-- ===== src/Inventory/Macs/FirstRun.antt =====
-- The first run of `_add_macs`, over groups that hold no MAC yet.
use cluster_genesis.Base.{
  ℕ, zero, suc, ◌+◌, ◌≡◌, refl, sym, ap, ◌∙◌, ◌≢◌, inl, inr, true, Option, some, some-injective,
  List, [], ◌∷◌, arith, nat_eq, option_eq, Bool-cases, get_elem?, set, get_elem?-set_self, contains,
  contains-get_elem?, contains-set, Text, text_eq, Dict, lookup, set_item_ok, Result-cases,
  err-ne-ok, ok,
}
use cluster_genesis.Base.Value.{Port, port_str, port_eq}
use cluster_genesis.Inventory.{Group, Macs, port_mac, record_item}
use cluster_genesis.Inventory.Macs.{learn_port, learn_ports, write_mac}
use cluster_genesis.Inventory.Macs.Learned.{
  learn_port_cases, record_item_cases, write_mac-some, learn_port_frame,
}

-- No MAC is recorded at index `i` or above.
abbrev pub FreshFrom : ℕ → List (Option Text) → Type 0
FreshFrom i xs = (k : ℕ) (m : Text) → get_elem? xs (i + k) ≢ some (some m)

record_item-keeps :
    (x m : Text) (i : ℕ) (xs ys : List (Option Text))
    → record_item x i xs ≡ ok ys
    → get_elem? xs i ≢ some (some m)
    → contains xs (some m) ≡ true
    → contains ys (some m) ≡ true
unfolding record_item
record_item-keeps x m i xs ys h free old = elim (Bool-cases (contains xs (some x))) [
  | inl e ↦ let same : ys ≡ xs = ground arith in rw same old
  | inr e ↦
      let (s, lt) = set_item_ok xs i (some x) {ys = ys} (ground arith) in
      rw s (contains-set xs i (some x) (some m) free old)
]

record_item_done :
    (x : Text) (i : ℕ) (xs ys : List (Option Text))
    → record_item x i xs ≡ ok ys
    → contains ys (some x) ≡ true
unfolding record_item
record_item_done x i xs ys h = elim (Bool-cases (contains xs (some x))) [
  | inl e ↦ let same : ys ≡ xs = ground arith in rw same e
  | inr e ↦
      let (s, lt) = set_item_ok xs i (some x) {ys = ys} (ground arith) in
      rw s (contains-get_elem? (set xs i (some x)) i (some x) (get_elem?-set_self xs i (some x) lt))
]

record_item-FreshFrom :
    (x : Text) (i : ℕ) (xs ys : List (Option Text))
    → record_item x i xs ≡ ok ys
    → FreshFrom i xs
    → FreshFrom (i + 1) ys
record_item-FreshFrom x i xs ys h fresh k m q = elim (record_item_cases x i xs ys (i + 1 + k) h) [
  | inl same ↦
      let e : i + 1 + k ≡ i + suc k = omega arith in
      fresh (suc k) m (ap (get_elem? xs) (sym e) ∙ sym same ∙ q)
  | inr (e, at) ↦ absurd (omega arith)
]

module _ (macs : Macs) (p : Port) (i : ℕ) (g g' : Group) (h : learn_port macs p i g ≡ ok g') where
  learn_port-keeps :
      (m : Text)
      → FreshFrom i g.macs
      → contains g.macs (some m) ≡ true
      → contains g'.macs (some m) ≡ true
  learn_port-keeps m fresh old = elim (learn_port_cases macs p i g g' h) [
    | inl e ↦ rw e old
    | inr r ↦
        let e : i + 0 ≡ i = omega arith in
        rw r.result (record_item-keeps r.mac m i g.macs r.ms r.written (rw e at (fresh 0 m)) old)
  ]

  learn_port-FreshFrom : FreshFrom i g.macs → FreshFrom (i + 1) g'.macs
  learn_port-FreshFrom fresh = elim (learn_port_cases macs p i g g' h) [
    | inl e ↦ rw e (λ k m q.
        let f : i + 1 + k ≡ i + suc k = omega arith in
        fresh (suc k) m (ap (get_elem? g.macs) (sym f) ∙ q))
    | inr r ↦ rw r.result (record_item-FreshFrom r.mac i g.macs r.ms r.written fresh)
  ]

module _ (macs : Macs) (p : Port) (i : ℕ) (g : Group) (switch : Text)
    (table : Dict Text (List Text)) (mac : Text) (hs : get_elem? g.switches i ≡ some switch)
    (ht : lookup switch macs ≡ some table) (hm : lookup (port_str p) table ≡ some (mac ∷ [])) where
  -- Where the switch saw one MAC, the guards pass.
  learn_port_seen : learn_port macs p i g ≡ write_mac (some mac) i g
  unfolding learn_port port_mac
  learn_port_seen = rw hs (rw (ht, port_mac) (rw (hm, port_mac) refl))

  learn_port-records :
      (g' : Group) → learn_port macs p i g ≡ ok g' → contains g'.macs (some mac) ≡ true
  learn_port-records g' h =
      let (ms, written, e) = write_mac-some mac i g g' (sym learn_port_seen ∙ h) in
      rw e (record_item_done mac i g.macs ms written)

learn_ports-keeps :
    (macs : Macs) (ps : List Port) (i : ℕ) (g : Group) (m : Text)
    → FreshFrom i g.macs
    → contains g.macs (some m) ≡ true
    → contains (learn_ports macs ps i g).1.macs (some m) ≡ true
unfolding learn_ports
learn_ports-keeps macs [] i g m fresh h = h
learn_ports-keeps macs (p ∷ ps) i g m fresh h = elim (Result-cases (learn_port macs p i g)) [
  | inl (g', e) ↦
      rw (e, learn_ports)
        (learn_ports-keeps macs ps (i + 1) g' m (learn_port-FreshFrom macs p i g g' e fresh)
          (learn_port-keeps macs p i g g' e m fresh h))
  | inr (x, e) ↦ rw (e, learn_ports) h
]

pub learn_ports_complete :
    (macs : Macs) (ps : List Port) (i k : ℕ) (g : Group) (switch : Text) (p : Port)
    (table : Dict Text (List Text)) (mac : Text)
    → (learn_ports macs ps i g).0 ≡ ok tt
    → FreshFrom i g.macs
    → get_elem? ps k ≡ some p
    → get_elem? g.switches (i + k) ≡ some switch
    → lookup switch macs ≡ some table
    → lookup (port_str p) table ≡ some (mac ∷ [])
    → contains (learn_ports macs ps i g).1.macs (some mac) ≡ true
unfolding learn_ports
learn_ports_complete macs [] i k g switch p table mac h fresh hp hs ht hm = cc
learn_ports_complete macs (q ∷ ps) i zero g switch p table mac h fresh hp hs ht hm =
    elim (Result-cases (learn_port macs q i g)) [
      | inl (g', e) ↦
          let same : q ≡ p = some-injective q p hp in
          let here : i + 0 ≡ i = omega arith in
          rw (e, learn_ports)
            (learn_ports-keeps macs ps (i + 1) g' mac (learn_port-FreshFrom macs q i g g' e fresh)
              (learn_port-records macs q i g switch table mac (rw here at hs) ht (rw same hm) g' e))
      | inr (x, e) ↦ err-ne-ok (rw (e, learn_ports) at h)
    ]
learn_ports_complete macs (q ∷ ps) i (suc k) g switch p table mac h fresh hp hs ht hm =
    elim (Result-cases (learn_port macs q i g)) [
      | inl (g', e) ↦
          let f : i + 1 + k ≡ i + suc k = omega arith in
          rw (e, learn_ports)
            (learn_ports_complete macs ps (i + 1) k g' switch p table mac (rw (e, learn_ports) at h)
              (learn_port-FreshFrom macs q i g g' e fresh) hp
              (ap (λ (u : Group). get_elem? u.switches (i + 1 + k))
                  (learn_port_frame macs q i g g' e)
                ∙ ap (get_elem? g.switches) f
                ∙ hs)
              ht hm)
      | inr (x, e) ↦ err-ne-ok (rw (e, learn_ports) at h)
    ]
