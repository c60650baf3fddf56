-- ===== src/Inventory/Macs/Learned.antt =====
-- What `_add_macs` writes, interface by interface.
use cluster_genesis.Base.{
  ℕ, suc, ◌+◌, ◌≡◌, refl, sym, ap, ◌∙◌, ◌⊎◌, inl, inr, Option, none, some, List, [], ◌∷◌, arith,
  nat_eq, option_eq, Bool-cases, get_elem?, get_elem?-set, contains, Text, text_eq, Dict, lookup,
  item, >>=-eq-ok, set_item_ok, Result-cases, ok,
}
use cluster_genesis.Base.Value.{Port, port_str, port_eq}
use cluster_genesis.Inventory.{Group, Macs, port_mac, record_item}
use cluster_genesis.Inventory.Macs.{write_mac, learn_port, learn_ports}

-- The port at index `j` of the group, and the only MAC that its switch saw there.
pub record SeenAt (macs : Macs) (g : Group) (j : ℕ) (mac : Text) : Type 0 where
  pub switch : Text
  pub port : Port
  pub table : Dict Text (List Text)
  pub at_switch : get_elem? g.switches j ≡ some switch
  pub at_port : get_elem? g.ports j ≡ some port
  pub has_table : lookup switch macs ≡ some table
  pub only : lookup (port_str port) table ≡ some (mac ∷ [])

-- How one successful write leaves the list.
pub record_item_cases :
    (x : Text) (i : ℕ) (xs ys : List (Option Text)) (j : ℕ)
    → record_item x i xs ≡ ok ys
    → (get_elem? ys j ≡ get_elem? xs j) ⊎ ((j ≡ i) × (get_elem? ys j ≡ some (some x)))
unfolding record_item
record_item_cases x i xs ys j h = elim (Bool-cases (contains xs (some x))) [
  | inl e ↦ inl (ground arith)
  | inr e ↦
      let (s, lt) = set_item_ok xs i (some x) {ys = ys} (ground arith) in
      rw s (get_elem?-set xs i j (some x) lt)
]

-- The facts under which one round records a MAC.
pub record Recorded (macs : Macs) (p : Port) (i : ℕ) (g g' : Group) : Type 0 where
  pub mac : Text
  pub ms : List (Option Text)
  pub switch : Text
  pub table : Dict Text (List Text)
  pub at_switch : get_elem? g.switches i ≡ some switch
  pub has_table : lookup switch macs ≡ some table
  pub only : lookup (port_str p) table ≡ some (mac ∷ [])
  pub written : record_item mac i g.macs ≡ ok ms
  pub result : g' ≡ record g { macs = ms }

port_mac-some :
    (macs : Macs) (switch port : Text) (mac : Text)
    → port_mac macs switch port ≡ ok (some mac)
    → (table : Dict Text (List Text)) × (lookup switch macs ≡ some table)
      × (lookup port table ≡ some (mac ∷ []))
unfolding port_mac
port_mac-some macs switch port mac h = ground arith

pub write_mac-some :
    (mac : Text) (i : ℕ) (g g' : Group)
    → write_mac (some mac) i g ≡ ok g'
    → (ms : List (Option Text)) × (record_item mac i g.macs ≡ ok ms) × (g' ≡ record g { macs = ms })
unfolding write_mac
write_mac-some mac i g g' h = ground arith

-- A round leaves the group as it is, or records a MAC.
pub learn_port_cases :
    (macs : Macs) (p : Port) (i : ℕ) (g g' : Group)
    → learn_port macs p i g ≡ ok g'
    → (g' ≡ g) ⊎ Recorded macs p i g g'
unfolding learn_port
learn_port_cases macs p i g g' h =
    let (switch, hs, h₁) = >>=-eq-ok (item g.switches i) _ h in
    let (found, hf, h₂) = >>=-eq-ok (port_mac macs switch (port_str p)) _ h₁ in
    by_found found switch hs hf h₂
  where
    by_found :
        (found : Option Text) (switch : Text)
        → item g.switches i ≡ ok switch
        → port_mac macs switch (port_str p) ≡ ok found
        → write_mac found i g ≡ ok g'
        → (g' ≡ g) ⊎ Recorded macs p i g g'
    by_found none switch hs hf h₂ = inl (unfold write_mac in ground arith)
    by_found (some m) switch hs hf h₂ =
        let (t, ht, only') = port_mac-some macs switch (port_str p) m hf in
        let (l, hl, e) = write_mac-some m i g g' h₂ in
        inr (record {
          mac = m;
          ms = l;
          switch = switch;
          table = t;
          at_switch = ground arith;
          has_table = ht;
          only = only';
          written = hl;
          result = e;
        })

-- The entry at `j` is the old one, or the MAC that the switch saw at the port of `j`.
abbrev pub KeptOrSeen : Macs → Group → List (Option Text) → List (Option Text) → ℕ → Type 0
KeptOrSeen macs g old new j =
    (get_elem? new j ≡ get_elem? old j)
    ⊎ ((mac : Text) × (get_elem? new j ≡ some (some mac)) × SeenAt macs g j mac)

learn_port_step :
    (macs : Macs) (p : Port) (i : ℕ) (g g' : Group) (j : ℕ)
    → learn_port macs p i g ≡ ok g'
    → get_elem? g.ports i ≡ some p
    → KeptOrSeen macs g g.macs g'.macs j
learn_port_step macs p i g g' j h hp = elim (learn_port_cases macs p i g g' h) [
  | inl e ↦ inl (rw e)
  | inr r ↦ elim (record_item_cases r.mac i g.macs r.ms j r.written) [
    | inl same ↦ inl (rw r.result same)
    | inr new ↦ inr (
      r.mac,
      rw r.result new.1,
      record {
        switch = r.switch;
        port = p;
        table = r.table;
        at_switch = rw new.0 r.at_switch;
        at_port = rw new.0 hp;
        has_table = r.has_table;
        only = r.only;
      },
    )
  ]
]

-- A round changes nothing but the MACs.
pub learn_port_frame :
    (macs : Macs) (p : Port) (i : ℕ) (g g' : Group)
    → learn_port macs p i g ≡ ok g'
    → g' ≡ record g { macs = g'.macs }
learn_port_frame macs p i g g' h = elim (learn_port_cases macs p i g g' h) [
  | inl e ↦ rw e
  | inr r ↦ rw r.result
]

pub learn_ports_frame :
    (macs : Macs) (ps : List Port) (i : ℕ) (g : Group)
    → (learn_ports macs ps i g).1 ≡ record g { macs = (learn_ports macs ps i g).1.macs }
unfolding learn_ports
learn_ports_frame macs [] i g = refl
learn_ports_frame macs (p ∷ ps) i g = elim (Result-cases (learn_port macs p i g)) [
  | inl (g', h) ↦
      rw (h, learn_ports)
        (learn_ports_frame macs ps (i + 1) g'
          ∙ ap (λ (u : Group). record u { macs = (learn_ports macs ps (i + 1) g').1.macs })
              (learn_port_frame macs p i g g' h))
  | inr (e, h) ↦ rw (h, learn_ports)
]

-- `ps` is what is left of the ports of the group from index `i` on.
abbrev pub Rest : List Port → ℕ → Group → Type 0
Rest ps i g = (k : ℕ) → get_elem? ps k ≡ get_elem? g.ports (i + k)

pub Rest-head :
    (p : Port) (ps : List Port) (i : ℕ) (g : Group)
    → Rest (p ∷ ps) i g
    → get_elem? g.ports i ≡ some p
Rest-head p ps i g h = let e : i + 0 ≡ i = omega arith in rw e at (sym (h 0))

pub Rest-tail :
    (p : Port) (ps : List Port) (i : ℕ) (g : Group) → Rest (p ∷ ps) i g → Rest ps (i + 1) g
Rest-tail p ps i g h k = let e : i + 1 + k ≡ i + suc k = omega arith in rw e (h (suc k))

KeptOrSeen-trans :
    (macs : Macs) (g g' : Group) (new : List (Option Text)) (j : ℕ)
    → g' ≡ record g { macs = g'.macs }
    → KeptOrSeen macs g g.macs g'.macs j
    → KeptOrSeen macs g' g'.macs new j
    → KeptOrSeen macs g g.macs new j
KeptOrSeen-trans macs g g' new j e (inl kept) (inl same) = inl (same ∙ kept)
KeptOrSeen-trans macs g g' new j e (inr (m, at, seen)) (inl same) = inr (m, same ∙ at, seen)
KeptOrSeen-trans macs g g' new j e first (inr (m, at, seen)) = inr (
  m,
  at,
  record {
    switch = seen.switch;
    port = seen.port;
    table = seen.table;
    at_switch = ap (λ (u : Group). get_elem? u.switches j) (sym e) ∙ seen.at_switch;
    at_port = ap (λ (u : Group). get_elem? u.ports j) (sym e) ∙ seen.at_port;
    has_table = seen.has_table;
    only = seen.only;
  },
)

learn_ports_sound :
    (macs : Macs) (ps : List Port) (i : ℕ) (g : Group) (j : ℕ)
    → Rest ps i g
    → KeptOrSeen macs g g.macs (learn_ports macs ps i g).1.macs j
unfolding learn_ports
learn_ports_sound macs [] i g j h = inl refl
learn_ports_sound macs (p ∷ ps) i g j h = elim (Result-cases (learn_port macs p i g)) [
  | inl (g', e) ↦
      let frame = learn_port_frame macs p i g g' e in
      rw (e, learn_ports)
        (KeptOrSeen-trans macs g g' (learn_ports macs ps (i + 1) g').1.macs j frame
          (learn_port_step macs p i g g' j e (Rest-head p ps i g h))
          (learn_ports_sound macs ps (i + 1) g' j (λ k.
            Rest-tail p ps i g h k
            ∙ ap (λ (u : Group). get_elem? u.ports (i + 1 + k)) (sym frame))))
  | inr (x, e) ↦ rw (e, learn_ports) (inl refl)
]

-- Whether or not the loop of `_add_macs` raises on a group, each entry of its MAC list is
-- afterwards the one before, or the only MAC that the table of the entry's own switch has at the
-- entry's own port; nothing but the MAC list changes.
pub learn_ports_correct :
    (macs : Macs) (g : Group)
    → let g' = (learn_ports macs g.ports 0 g).1 in
      ((j : ℕ) → KeptOrSeen macs g g.macs g'.macs j) × (g' ≡ record g { macs = g'.macs })
learn_ports_correct macs g = (
  λ j. learn_ports_sound macs g.ports 0 g j (λ k. ap (get_elem? g.ports) (omega arith)),
  learn_ports_frame macs g.ports 0 g,
)
