-- ===== src/DataSwitch/Once.antt =====
-- What the programming of the VLANs in scripts/python/configure_data_switches.py promises.
use cluster_genesis.Base.{
  refl, List, [], ◌∷◌, nat_eq, option_eq, Text, text_eq, keys, Result, ok, err,
}
use cluster_genesis.Base.Value.{port_eq}
use cluster_genesis.DataSwitch.{PortTree, Call, World}
use cluster_genesis.DataSwitch.Traces.{made, Good}
use cluster_genesis.DataSwitch.Hoare.{Hoare, Post, bind, returns}
use cluster_genesis.DataSwitch.Program.{program_vlans}
use cluster_genesis.DataSwitch.Ordered.{Inv, Untouched, Other, program_ports-Hoare}

-- The keys of a dict differ.
unfoldable pub Distinct : List Text → Type 0
unfolding Other
Distinct [] = Unit
Distinct (k ∷ ks) = Other k ks × Distinct ks

start :
    (sw : Text) (ks : List Text) (cs : List Call)
    → Good cs
    → Untouched (sw ∷ ks) cs
    → Inv sw [] ks cs
unfolding Untouched
start sw ks cs g u = record { good = g; same = u.0; later = u.1 }

module _ {S : Type 0} (handle : Call → S → Result (Unit {0}) × S) where
  program_vlans-Hoare :
      (tree : PortTree)
      → Distinct (keys tree)
      → Hoare
          (λ w. Good w.calls × Untouched (keys tree) w.calls)
          (program_vlans handle tree)
          (λ u w. Good w.calls)
          (λ w. Good w.calls)
  unfolding program_vlans Distinct
  program_vlans-Hoare [] d = returns tt λ w p. p.0
  program_vlans-Hoare ((sw, ports) ∷ rest) d = record {
    runs = λ w p.
        (bind _ _ (program_ports-Hoare handle sw (keys rest) [] ports d.0)
            λ u. program_vlans-Hoare rest d.1).runs
          w (start sw (keys rest) w.calls p.0 p.1);
  }

  at_first-Untouched : (ks : List Text) → Untouched ks []
  unfolding Untouched made
  at_first-Untouched [] = tt
  at_first-Untouched (k ∷ ks) = (λ v. refl, at_first-Untouched ks)

  either_way :
      (r : Result (Unit {0}) × World S)
      → Post (λ u w. Good w.calls) (λ w. Good w.calls) r
      → Good r.1.calls
  unfolding Post
  either_way (ok u, w) g = g
  either_way (err x, w) g = g

  -- Whatever the switches do and wherever a call raises: of the calls that the programming of the
  -- VLANs makes for a tree with different switches, each creation is the first of its VLAN on its
  -- switch, and each call that allows VLANs on a port stands behind the creation of all of them
  -- on the switch.
  pub program_vlans_ordered :
      (tree : PortTree) (s : S)
      → Distinct (keys tree)
      → Good (program_vlans handle tree (record { calls = []; switches = s })).1.calls
  unfolding Good
  program_vlans_ordered tree s d =
      either_way _ ((program_vlans-Hoare tree d).runs _ (tt, at_first-Untouched (keys tree)))
