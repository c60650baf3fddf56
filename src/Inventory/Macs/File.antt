-- ===== src/Inventory/Macs/File.antt =====
-- The errors of `add_macs_ipmi`, `add_macs_pxe` and `add_macs_data`, and what the file then holds.
use cluster_genesis.Base.{
  ℕ, zero, suc, ◌+◌, ◌<◌, ◌≡◌, refl, ap, ◌∙◌, ◌⊎◌, inl, inr, Option, none, some, List, [], ◌∷◌,
  arith, nat_eq, option_eq, Bool-cases, length, get_elem?, set, length-set, All, contains, Text,
  text_eq, Exc, Result, set_item, Result-cases, user_exception, ok, err,
}
use cluster_genesis.Base.Value.{Port, port_str, port_eq}
use cluster_genesis.Inventory.{Group, Node, Kind, group, Macs, port_mac, record_item}
use cluster_genesis.Inventory.Macs.{
  write_mac, learn_port, learn_ports, each_node, add_macs_node, add_macs, Inventory, add_macs_ipmi,
  add_macs_pxe, add_macs_data, dump_after,
}

-- Every port has a switch and a place for its MAC.
pub record IsAligned (g : Group) : Type 0 where
  pub switches : length g.switches ≡ length g.ports
  pub macs : length g.macs ≡ length g.ports

pub get_elem?-some {ℓ} :
    {A : Type ℓ} (xs : List A) (i : ℕ) → i < length xs → (a : A) × (get_elem? xs i ≡ some a)
get_elem?-some [] i h = elim h [ ]
get_elem?-some (x ∷ xs) zero h = (x, refl)
get_elem?-some (x ∷ xs) (suc i) h = get_elem?-some xs i (omega arith)

record_item_total :
    (x : Text) (i : ℕ) (xs : List (Option Text))
    → i < length xs
    → (ys : List (Option Text)) × (record_item x i xs ≡ ok ys) × (length ys ≡ length xs)
unfolding record_item
record_item_total x i xs h = elim (Bool-cases (contains xs (some x))) [
  | inl e ↦ (xs, rw e, refl)
  | inr e ↦
      let (old, at) = get_elem?-some xs i h in
      (set xs i (some x), rw e (rw (at, set_item) refl), length-set xs i (some x))
]

port_mac_raises :
    (macs : Macs) (switch port : Text) (x : Exc)
    → port_mac macs switch port ≡ err x
    → x ≡ user_exception
unfolding port_mac
port_mac_raises macs switch port x h = ground arith

write_mac_total :
    (found : Option Text) (i : ℕ) (g : Group)
    → IsAligned g
    → i < length g.ports
    → (g' : Group) × (write_mac found i g ≡ ok g') × IsAligned g' × (g'.ports ≡ g.ports)
unfolding write_mac
write_mac_total none i g al h = (g, refl, al, refl)
write_mac_total (some mac) i g al h =
    let (ys, e, n) = record_item_total mac i g.macs (omega (arith, al.macs)) in
    (record g { macs = ys }, rw e, record { switches = al.switches; macs = n ∙ al.macs }, refl)

-- One round raises nothing but a `UserException`.
learn_port_safe :
    (macs : Macs) (p : Port) (i : ℕ) (g : Group)
    → IsAligned g
    → i < length g.ports
    → (learn_port macs p i g ≡ err user_exception)
      ⊎ ((g' : Group) × (learn_port macs p i g ≡ ok g') × IsAligned g' × (g'.ports ≡ g.ports))
unfolding learn_port
learn_port_safe macs p i g al h =
    let (switch, at) = get_elem?-some g.switches i (omega (arith, al.switches)) in
    elim (Result-cases (port_mac macs switch (port_str p))) [
      | inl (found, e) ↦
          let (g', w, al', same) = write_mac_total found i g al h in
          inr (g', rw at (rw e w), al', same)
      | inr (x, e) ↦
          inl
            (rw at (rw e (ap (λ (y : Exc). err y) (port_mac_raises macs switch (port_str p) x e))))
    ]

learn_ports_safe :
    (macs : Macs) (ps : List Port) (i : ℕ) (g : Group)
    → IsAligned g
    → i + length ps ≡ length g.ports
    → ((learn_ports macs ps i g).0 ≡ ok tt) ⊎ ((learn_ports macs ps i g).0 ≡ err user_exception)
unfolding learn_ports
learn_ports_safe macs [] i g al h = inl refl
learn_ports_safe macs (p ∷ ps) i g al h = elim (learn_port_safe macs p i g al (omega arith)) [
  | inl e ↦ inr (rw (e, learn_ports))
  | inr (g', e, al', same) ↦
      rw (e, learn_ports)
        (learn_ports_safe macs ps (i + 1) g' al'
          (omega (arith, ap (λ (l : List Port). length l) same)))
]

each_node_safe :
    (f : Node → Result (Unit {0}) × Node) (ns : List Node)
    → All (λ n. ((f n).0 ≡ ok tt) ⊎ ((f n).0 ≡ err user_exception)) ns
    → ((each_node f ns).0 ≡ ok tt) ⊎ ((each_node f ns).0 ≡ err user_exception)
each_node_safe f [] h = inl refl
each_node_safe f (n ∷ ns) (inl e, hs) = rw (e, each_node) (each_node_safe f ns hs)
each_node_safe f (n ∷ ns) (inr e, hs) = inr (rw (e, each_node))

All-map {ℓ κ ι} :
    {A : Type ℓ} (P : A → Type κ) (Q : A → Type ι) (xs : List A)
    → ((a : A) → P a → Q a)
    → All P xs
    → All Q xs
All-map P Q [] f h = tt
All-map P Q (x ∷ xs) f (h, hs) = (f x h, All-map P Q xs f hs)

add_macs_safe :
    (macs : Macs) (k : Kind) (nodes : List Node)
    → All (λ n. IsAligned (group k n)) nodes
    → ((add_macs macs k nodes).0 ≡ ok tt) ⊎ ((add_macs macs k nodes).0 ≡ err user_exception)
unfolding add_macs
add_macs_safe macs k nodes h = each_node_safe (add_macs_node macs k) nodes (
    All-map _ _ nodes
      (λ n al. learn_ports_safe macs (group k n).ports 0 (group k n) al (omega arith)) h)

-- What a caller may rely on: the file holds what is in memory, or a `UserException` left it alone.
abbrev pub SavedOrRaised : List Node → Result (Unit {0}) × Inventory → Type 0
SavedOrRaised old (r, inv) =
    ((r ≡ ok tt) × (inv.file ≡ inv.nodes)) ⊎ ((r ≡ err user_exception) × (inv.file ≡ old))

dump_after_safe :
    (out : Result (Unit {0}) × List Node) (old : List Node)
    → (out.0 ≡ ok tt) ⊎ (out.0 ≡ err user_exception)
    → SavedOrRaised old (dump_after out old)
dump_after_safe (r, ns) old (inl e) = rw (e, dump_after) (inl (refl, refl))
dump_after_safe (r, ns) old (inr e) = rw (e, dump_after) (inr (refl, refl))

-- Where every port of the nodes has a switch and a place for its MAC, each of the three methods
-- returns with the file holding the nodes in memory, or raises a `UserException` and leaves the
-- file as it was. No `IndexError` leaves them.
pub add_macs_file :
    (macs : Macs) (inv : Inventory)
    → ((k : Kind) → All (λ n. IsAligned (group k n)) inv.nodes)
    → SavedOrRaised inv.file (add_macs_ipmi macs inv)
      × SavedOrRaised inv.file (add_macs_pxe macs inv)
      × SavedOrRaised inv.file (add_macs_data macs inv)
unfolding add_macs_ipmi add_macs_pxe add_macs_data
add_macs_file macs inv h = (
  dump_after_safe _ inv.file (add_macs_safe macs Kind.ipmi inv.nodes (h Kind.ipmi)),
  dump_after_safe _ inv.file (add_macs_safe macs Kind.pxe inv.nodes (h Kind.pxe)),
  dump_after_safe _ inv.file (add_macs_safe macs Kind.data' inv.nodes (h Kind.data')),
)
