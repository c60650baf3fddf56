-- ===== src/Items/Conserved.antt =====
-- The addresses given to the interfaces with a label are those taken from its list, in order.
use cluster_genesis.Base.{
  ◌≡◌, refl, sym, ap, ◌∙◌, subst, inl, inr, false, Option, none, some, List, [], ◌∷◌, ◌++◌, map,
  nat_eq, ◌==◌, ==_refl, option_eq, Bool-cases, Option-cases, Text, text_beq_iff, text_eq, lookup,
  insert, lookup-insert, >>=-eq-ok, err-ne-ok, ok,
}
use cluster_genesis.Base.Value.{port_eq, str}
use cluster_genesis.Config.Templates.Interfaces.{Interface}
use cluster_genesis.Reserve.Manager.{Netaddr}
use cluster_genesis.Items.Given.{given, address_of-insert, given-own, given-other, given-none}
use cluster_genesis.Items.{list_key, Source, Pools, next_ip, assign_interface_ips, text, address}

ok-pair {ℓ κ} : {A : Type ℓ} {B : Type κ} (p q : A × B) → ok p ≡ ok q → (p.0 ≡ q.0) × (q.1 ≡ p.1)
ok-pair p q h = let e : p ≡ q = cc in (ap (λ x. x.0) e, ap (λ x. x.1) (sym e))

module _ (net : Netaddr) where
  open net use {plus}

  abbrev pub strings : List Text → List (Source net)
  strings [] = []
  strings (ip ∷ ips) = text ip ∷ strings ips

  next_ip_strings :
      (label : Text) (pools pools' : Pools net) (ips : List Text) (ip : Text)
      → lookup label pools ≡ some (strings ips)
      → next_ip net label pools ≡ ok (ip, pools')
      → (left : List Text) × (ips ≡ ip ∷ left) × (pools' ≡ insert label (strings left) pools)
  unfolding next_ip
  next_ip_strings label pools pools' [] ip h run = err-ne-ok (rw (h, next_ip) at run)
  next_ip_strings label pools pools' (i ∷ ips) ip h run =
      let (same, left) = ok-pair _ _ (rw (h, next_ip) at run) in (ips, ap (λ x. x ∷ ips) same, left)

  from_sources :
      (label : Text) (pools pools' : Pools net) (ip : Text) (o : Option (List (Source net)))
      → lookup label pools ≡ o
      → next_ip net label pools ≡ ok (ip, pools')
      → (sources : List (Source net)) × (pools' ≡ insert label sources pools)
  unfolding next_ip
  from_sources label pools pools' ip none e run = err-ne-ok (rw (e, next_ip) at run)
  from_sources label pools pools' ip (some []) e run = err-ne-ok (rw (e, next_ip) at run)
  from_sources label pools pools' ip (some (text i ∷ rest)) e run =
      (rest, (ok-pair _ _ (rw (e, next_ip) at run)).1)
  from_sources label pools pools' ip (some (address a ∷ rest)) e run =
      let (b, _, r) = >>=-eq-ok (plus a 1) _ (rw (e, next_ip) at run) in
      (rest ++ address b ∷ [], (ok-pair _ _ r).1)

  next_ip_inserts :
      (label : Text) (pools pools' : Pools net) (ip : Text)
      → next_ip net label pools ≡ ok (ip, pools')
      → (sources : List (Source net)) × (pools' ≡ insert label sources pools)
  unfolding next_ip
  next_ip_inserts label pools pools' ip run =
      from_sources label pools pools' ip (lookup label pools) refl run

  next_ip_other :
      (l label : Text) (pools pools' : Pools net) (ip : Text)
      → (l == label) ≡ false
      → next_ip net l pools ≡ ok (ip, pools')
      → lookup label pools' ≡ lookup label pools
  next_ip_other l label pools pools' ip differ run =
      let (sources, e) = next_ip_inserts l pools pools' ip run in
      rw e (lookup-insert l label sources pools ∙ rw differ refl)

  -- The addresses before are those given and, behind them, those left.
  abbrev Conserves : Text → List Text → List (Text × Interface) → Pools net → Type 0
  Conserves label ips out pools' =
      (left : List Text) × (lookup label pools' ≡ some (strings left))
      × (map str ips ≡ given label out ++ map str left)

  Conserves-some :
      (l label ip : Text) (d : Interface) (key : Text) (pools pools₁ pools' : Pools net)
      (ips : List Text) (done : List (Text × Interface))
      → list_key d ≡ some key
      → lookup label pools ≡ some (strings ips)
      → next_ip net l pools ≡ ok (ip, pools₁)
      → ((left : List Text)
          → lookup label pools₁ ≡ some (strings left)
          → Conserves label left done pools')
      → Conserves label ips ((l, insert key (str ip) d) ∷ done) pools'
  Conserves-some l label ip d key pools pools₁ pools' ips done k h run later =
      elim (Bool-cases (l == label)) [
        | inr n ↦
            let (left, e, all) = later ips (next_ip_other l label pools pools₁ ip n run ∙ h) in
            (left, e, all ∙ ap (λ g. g ++ map str left) (sym (given-other l label _ done n)))
        | inl y ↦
            let same = (text_beq_iff l label).0 y in
            let (left, all, e) = next_ip_strings label pools pools₁ ips ip h (rw same at run) in
            let (left', e', all') =
              later left
                (rw e (lookup-insert label label (strings left) pools ∙ rw (==_refl label) refl)) in
            let own : given label ((l, insert key (str ip) d) ∷ done) ≡ str ip ∷ given label done =
              rw same (
                given-own label (insert key (str ip) d) (str ip) done
                  (address_of-insert d key (str ip) k)) in
            (
              left',
              e',
              ap (map str) all ∙ ap (λ g. str ip ∷ g) all' ∙ ap (λ g. g ++ map str left') (sym own),
            )
      ]

  Conserves-none :
      (l label : Text) (d : Interface) (ips : List Text) (done : List (Text × Interface))
      (pools' : Pools net)
      → list_key d ≡ none
      → Conserves label ips done pools'
      → Conserves label ips ((l, d) ∷ done) pools'
  Conserves-none l label d ips done pools' k (left, e, all) =
      (left, e, all ∙ ap (λ g. g ++ map str left) (sym (given-none l label d done k)))

  Conserves-at :
      (label : Text) (ips : List Text) (out out₁ : List (Text × Interface))
      (pools pools₁ : Pools net)
      → out₁ ≡ out
      → pools ≡ pools₁
      → Conserves label ips out₁ pools₁
      → Conserves label ips out pools
  Conserves-at label ips out out₁ pools pools₁ e e' c =
      subst (λ o. Conserves label ips o pools) e
        (subst (λ p. Conserves label ips out₁ p) (sym e') c)

  -- If `_assign_interface_ips` returns, and the list of a label holds strings only, then the list
  -- before is the addresses that the interfaces with the label have got, in their order, followed
  -- by the list after: none is given twice, skipped or lost.
  pub assign_interface_ips-Conserves :
      (interfaces out : List (Text × Interface)) (pools pools' : Pools net) (label : Text)
      (ips : List Text)
      → lookup label pools ≡ some (strings ips)
      → assign_interface_ips net interfaces pools ≡ ok (out, pools')
      → Conserves label ips out pools'
  unfolding assign_interface_ips
  assign_interface_ips-Conserves [] out pools pools' label ips h run =
      let (e, e') = ok-pair ([], pools) (out, pools') run in
      Conserves-at label ips out [] pools' pools e e' (ips, h, refl)
  assign_interface_ips-Conserves ((l, d) ∷ interfaces) out pools pools' label ips h run =
      elim (Option-cases (list_key d)) [
        | inl k ↦
            let (p, e, r) =
              >>=-eq-ok (assign_interface_ips net interfaces pools) _
                (rw (k, assign_interface_ips) at run) in
            let (o, q) = ok-pair ((l, d) ∷ p.0, p.1) (out, pools') r in
            Conserves-at label ips out _ pools' p.1 o q (
              Conserves-none l label d ips p.0 p.1 k
                (assign_interface_ips-Conserves interfaces p.0 pools p.1 label ips h e))
        | inr (key, k) ↦
            let (a, e, r) =
              >>=-eq-ok (next_ip net l pools) _ (rw (k, assign_interface_ips) at run) in
            let (p, e', r') = >>=-eq-ok (assign_interface_ips net interfaces a.1) _ r in
            let (o, q) = ok-pair ((l, insert key (str a.0) d) ∷ p.0, p.1) (out, pools') r' in
            Conserves-at label ips out _ pools' p.1 o q (
              Conserves-some l label a.0 d key pools a.1 p.1 ips p.0 k h e
                (λ left at. assign_interface_ips-Conserves interfaces p.0 a.1 p.1 label left at e'))
      ]
