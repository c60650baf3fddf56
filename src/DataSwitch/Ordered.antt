-- ===== src/DataSwitch/Ordered.antt =====
-- Each VLAN is created once for a switch and before a port of the switch is allowed it, in
-- scripts/python/configure_data_switches.py.
use cluster_genesis.Base.{
  ℕ, ◌≡◌, refl, ◌∙◌, inl, inr, true, false, List, [], ◌∷◌, ◌++◌, arith, nat_eq, ◌==◌, ==_refl,
  option_eq, Bool-cases, All, contains, contains-append, Text, text_eq, Dict, Result,
}
use cluster_genesis.Base.Value.{port_eq}
use cluster_genesis.DataSwitch.{Call, creates_vlan, sets_mode, allows_vlans}
use cluster_genesis.DataSwitch.Traces.{made, Fine, Good}
use cluster_genesis.DataSwitch.Hoare.{Hoare, returns, bind, weaken, tries, performs}
use cluster_genesis.DataSwitch.Program.{create_new, program_ports}
use cluster_genesis.DataSwitch.Calls.{perform, try_switch}
use cluster_genesis.Switch.Commands.{trunk, add}

-- No VLAN was created on these switches.
unfoldable pub Untouched : List Text → List Call → Type 0
Untouched ks cs = All (λ k. (v : ℕ) → made k v cs ≡ false) ks

-- `vlans` are the VLANs that were created on the switch; those of `ks` come later.
pub record Inv (sw : Text) (vlans : List ℕ) (ks : List Text) (cs : List Call) : Type 0 where
  pub good : Good cs
  pub same : (v : ℕ) → made sw v cs ≡ contains vlans v
  pub later : Untouched ks cs

unfoldable pub Other : Text → List Text → Type 0
Other sw ks = All (λ k. (sw == k) ≡ false) ks

later_created :
    (sw : Text) (v : ℕ) (ks : List Text) (cs : List Call)
    → Other sw ks
    → Untouched ks cs
    → Untouched ks (creates_vlan sw v ∷ cs)
unfolding Untouched Other made
later_created sw v [] cs o u = tt
later_created sw v (k ∷ ks) cs o u = ((λ n. rw o.0 (u.0 n)), later_created sw v ks cs o.1 u.1)

grown :
    (sw : Text) (vlans : List ℕ) (v : ℕ) (cs : List Call)
    → ((n : ℕ) → made sw n cs ≡ contains vlans n)
    → (n : ℕ) → made sw n (creates_vlan sw v ∷ cs) ≡ contains (vlans ++ v ∷ []) n
unfolding made
grown sw vlans v cs same n = ground (arith, ==_refl sw, same n, contains-append vlans (v ∷ []) n)

created :
    (sw : Text) (vlans : List ℕ) (v : ℕ) (ks : List Text) (cs : List Call)
    → Other sw ks
    → contains vlans v ≡ false
    → Inv sw vlans ks cs
    → Inv sw (vlans ++ v ∷ []) ks (creates_vlan sw v ∷ cs)
unfolding Good Fine
created sw vlans v ks cs o h i = record {
  good = (i.same v ∙ h, i.good);
  same = grown sw vlans v cs i.same;
  later = later_created sw v ks cs o i.later;
}

later_other :
    (c : Call) (ks : List Text) (cs : List Call)
    → ((k : Text) (v : ℕ) → made k v (c ∷ cs) ≡ made k v cs)
    → Untouched ks cs
    → Untouched ks (c ∷ cs)
unfolding Untouched
later_other c [] cs e u = tt
later_other c (k ∷ ks) cs e u = (λ v. e k v ∙ u.0 v, later_other c ks cs e u.1)

kept :
    (sw : Text) (vlans : List ℕ) (ks : List Text) (c : Call) (cs : List Call)
    → ((k : Text) (v : ℕ) → made k v (c ∷ cs) ≡ made k v cs)
    → Fine c cs
    → Inv sw vlans ks cs
    → Inv sw vlans ks (c ∷ cs)
unfolding Good
kept sw vlans ks c cs e f i = record {
  good = (f, i.good);
  same = λ v. e sw v ∙ i.same v;
  later = later_other c ks cs e i.later;
}

-- All of the VLANs were created, and what was there before still is.
record Has (vlans : List ℕ) (vs vlans' : List ℕ) : Type 0 where
  all : All (λ v. contains vlans' v ≡ true) vs
  keeps : (n : ℕ) → contains vlans n ≡ true → contains vlans' n ≡ true

Has-here :
    (vlans vs vlans' : List ℕ) (v : ℕ)
    → contains vlans v ≡ true
    → Has vlans vs vlans'
    → Has vlans (v ∷ vs) vlans'
Has-here vlans vs vlans' v h has = record { all = (has.keeps v h, has.all); keeps = has.keeps }

Has-new :
    (vlans vs vlans' : List ℕ) (v : ℕ) → Has (vlans ++ v ∷ []) vs vlans' → Has vlans (v ∷ vs) vlans'
Has-new vlans vs vlans' v has = record {
  all = (has.keeps v (contains-append vlans (v ∷ []) v ∙ ground (arith, ==_refl v)), has.all);
  keeps = λ n h. has.keeps n (contains-append vlans (v ∷ []) n ∙ rw h refl);
}

All-made :
    (sw : Text) (vlans vs : List ℕ) (cs : List Call)
    → ((n : ℕ) → made sw n cs ≡ contains vlans n)
    → All (λ v. contains vlans v ≡ true) vs
    → All (λ v. made sw v cs ≡ true) vs
All-made sw vlans [] cs same h = tt
All-made sw vlans (v ∷ vs) cs same h = (same v ∙ h.0, All-made sw vlans vs cs same h.1)

module _ {S : Type 0} (handle : Call → S → Result (Unit {0}) × S) where
  create_new-Hoare :
      (sw : Text) (ks : List Text) (vlans vs : List ℕ)
      → Other sw ks
      → Hoare
          (λ w. Inv sw vlans ks w.calls)
          (create_new handle sw vlans vs)
          (λ vlans' w. Inv sw vlans' ks w.calls × Has vlans vs vlans')
          (λ w. Good w.calls)
  unfolding create_new
  create_new-Hoare sw ks vlans [] o =
      returns vlans λ w i. (i, record { all = tt; keeps = λ n h. h })
  create_new-Hoare sw ks vlans (v ∷ vs) o = elim (Bool-cases (contains vlans v)) [
    | inl e ↦
        let rest =
          weaken (λ l w q. (q.0, Has-here vlans vs l v e q.1)) (λ w g. g)
            (create_new-Hoare sw ks vlans vs o) in
        record { runs = λ w i. rw (e, create_new) (rest.runs w i) }
    | inr e ↦
        let rest =
          weaken (λ l w q. (q.0, Has-new vlans vs l v q.1)) (λ w g. g)
            (create_new-Hoare sw ks (vlans ++ v ∷ []) vs o) in
        let first =
          weaken (λ u w q. q) (λ w i. i.good)
            (performs handle (creates_vlan sw v) (Inv sw vlans ks) (Inv sw (vlans ++ v ∷ []) ks)
              λ cs i. created sw vlans v ks cs o e i) in
        let whole = bind _ _ first λ u. rest in
        record { runs = λ w i. rw (e, create_new) (whole.runs w i) }
  ]

  step-Hoare :
      (sw : Text) (vlans vs : List ℕ) (ks : List Text) (c : Call)
      → ((k : Text) (v : ℕ) (cs : List Call) → made k v (c ∷ cs) ≡ made k v cs)
      → ((cs : List Call) → All (λ v. made sw v cs ≡ true) vs → Fine c cs)
      → All (λ v. contains vlans v ≡ true) vs
      → Hoare
          (λ w. Inv sw vlans ks w.calls)
          (try_switch (perform handle c))
          (λ u w. Inv sw vlans ks w.calls)
          (λ w. Good w.calls)
  step-Hoare sw vlans vs ks c m f h =
      weaken (λ u w i. i) (λ w i. i.good)
        (tries (
          performs handle c (Inv sw vlans ks) (Inv sw vlans ks) λ cs i.
            kept sw vlans ks c cs (λ k v. m k v cs) (f cs (All-made sw vlans vs cs i.same h)) i))

  pub program_ports-Hoare :
      (sw : Text) (ks : List Text) (vlans : List ℕ) (ports : Dict Text (List ℕ))
      → Other sw ks
      → Hoare
          (λ w. Inv sw vlans ks w.calls)
          (program_ports handle sw vlans ports)
          (λ u w. Good w.calls × Untouched ks w.calls)
          (λ w. Good w.calls)
  unfolding program_ports made Fine
  program_ports-Hoare sw ks vlans [] o = returns tt λ w i. (i.good, i.later)
  program_ports-Hoare sw ks vlans ((port, vs) ∷ ports) o =
      bind _ _ (create_new-Hoare sw ks vlans vs o) λ l. record {
        runs = λ w q.
            (bind _ _
                (step-Hoare sw l vs ks (sets_mode sw port trunk) (λ k v cs. refl) (λ cs h. tt)
                  q.1.all)
                λ u.
                  bind _ _
                    (step-Hoare sw l vs ks (allows_vlans sw port add vs) (λ k v cs. refl)
                      (λ cs h. h) q.1.all)
                    λ u2. program_ports-Hoare sw ks l ports o).runs
              w q.0;
      }
