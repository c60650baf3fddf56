-- ===== src/DataSwitch/Rows.antt =====
-- The list of the MTUs of scripts/python/configure_data_switches.py as rows that are put into a tree,
-- one for each physical interface that has an MTU.
use cluster_genesis.Base.{
  ℕ, ◌≡◌, refl, sym, ap, ◌∙◌, Option, none, some, List, [], ◌∷◌, ◌++◌, nat_eq, option_eq, Text,
  text_eq, Result, ◌>>=◌, each, ok, err,
}
use cluster_genesis.Base.Value.{Value, Port, port_eq}
use cluster_genesis.Config.Access.{as_text, iterate}
use cluster_genesis.Config.Templates.Ifcs.{get_interface, yield_ntmpl_phyintf_data_ind}
use cluster_genesis.Config.Templates.Data.{
  get_ntmpl_phyintf_data_switch, get_ntmpl_phyintf_data_ifc, get_ntmpl_phyintf_data_ports,
}
use cluster_genesis.Config.Templates.Lists.{yield_ntmpl_ind}
use cluster_genesis.DataSwitch.{MtuTree}
use cluster_genesis.DataSwitch.Vlans.{as_port, add_vlan, loop}
use cluster_genesis.DataSwitch.Mtus.{
  ifc_mtu, add_with_mtu, add_phyintf_mtu, add_ntmpl_mtus, get_mtu_list,
}

-- A switch, an MTU and ports that have it.
abbrev pub Row : Type 0
Row = Text × ℕ × List Port

-- The rows of a list of indices, in their order.
unfoldable pub collect : (ℕ → Result (List Row)) → List ℕ → Result (List Row)
collect f [] = ok []
collect f (i ∷ is) = do rows ← f i; rest ← collect f is; ok (rows ++ rest)

unfoldable pub rows_with_mtu : Value → ℕ → ℕ → Option ℕ → Result (List Row)
unfolding as_text as_port
rows_with_mtu cfg ntmpl_ind phyintf_idx none = ok []
rows_with_mtu cfg ntmpl_ind phyintf_idx (some mtu) = do
  sw ← get_ntmpl_phyintf_data_switch cfg ntmpl_ind (some phyintf_idx)
  switch ← as_text sw
  members ← get_ntmpl_phyintf_data_ports cfg ntmpl_ind phyintf_idx none
  items ← iterate members
  ports ← each as_port items
  ok ((switch, mtu, ports) ∷ [])

-- A physical interface has one row, or none.
unfoldable pub phyintf_rows : Value → ℕ → ℕ → Result (List Row)
unfolding as_text ifc_mtu rows_with_mtu
phyintf_rows cfg ntmpl_ind phyintf_idx = do
  found ← get_ntmpl_phyintf_data_ifc cfg ntmpl_ind (some phyintf_idx)
  phy_ifc ← as_text found
  ifc ← get_interface cfg phy_ifc
  mtu ← ifc_mtu ifc
  rows_with_mtu cfg ntmpl_ind phyintf_idx mtu

unfoldable pub ntmpl_rows : Value → ℕ → Result (List Row)
unfolding collect phyintf_rows
ntmpl_rows cfg ntmpl_ind = do
  inds ← yield_ntmpl_phyintf_data_ind cfg ntmpl_ind
  collect (phyintf_rows cfg ntmpl_ind) inds

-- The rows of all physical interfaces of all node templates.
unfoldable pub mtu_rows : Value → Result (List Row)
unfolding collect ntmpl_rows
mtu_rows cfg = do inds ← yield_ntmpl_ind cfg; collect (ntmpl_rows cfg) inds

unfoldable pub add_rows : List Row → MtuTree → MtuTree
unfolding add_vlan
add_rows [] tree = tree
add_rows ((sw, mtu, ports) ∷ rows) tree = add_rows rows (add_vlan sw mtu ports tree)

add_rows-append :
    (rs rs' : List Row) (tree : MtuTree)
    → add_rows (rs ++ rs') tree ≡ add_rows rs' (add_rows rs tree)
unfolding add_rows
add_rows-append [] rs' tree = refl
add_rows-append ((sw, mtu, ports) ∷ rs) rs' tree =
    add_rows-append rs rs' (add_vlan sw mtu ports tree)

-- The rows of a computation, put into the tree.
unfoldable pub put : MtuTree → List Row → Result MtuTree
unfolding add_rows
put tree rows = ok (add_rows rows tree)

bind_through :
    {A B C : Type 0} (m : Result A) (f : A → Result C) (g : A → Result B) (h : B → Result C)
    → ((a : A) → f a ≡ (g a >>= h))
    → (m >>= f) ≡ ((m >>= g) >>= h)
bind_through (ok a) f g h e = e a
bind_through (err x) f g h e = refl

put-append :
    (rs : List Row) (m : Result (List Row)) (tree : MtuTree)
    → (m >>= put (add_rows rs tree)) ≡ ((m >>= λ rest. ok (rs ++ rest)) >>= put tree)
unfolding put add_rows
put-append rs (ok rest) tree = ap ok (sym (add_rows-append rs rest tree))
put-append rs (err x) tree = refl

put-bind :
    (m : Result (List Row)) (k : MtuTree → Result MtuTree) (c : Result (List Row)) (tree : MtuTree)
    → ((t : MtuTree) → k t ≡ (c >>= put t))
    → ((m >>= put tree) >>= k) ≡ ((m >>= λ rows. c >>= λ rest. ok (rows ++ rest)) >>= put tree)
unfolding put add_rows
put-bind (ok rows) k c tree e = e (add_rows rows tree) ∙ put-append rows c tree
put-bind (err x) k c tree e = refl

-- A loop whose steps put rows into the tree puts all of them.
loop-collect :
    (f : MtuTree → ℕ → Result MtuTree) (g : ℕ → Result (List Row))
    → ((tree : MtuTree) (i : ℕ) → f tree i ≡ (g i >>= put tree))
    → (is : List ℕ) (tree : MtuTree) → loop f tree is ≡ (collect g is >>= put tree)
unfolding loop collect put add_rows
loop-collect f g e [] tree = refl
loop-collect f g e (i ∷ is) tree =
    ap (λ m. m >>= λ t. loop f t is) (e tree i)
    ∙ put-bind (g i) (λ t. loop f t is) (collect g is) tree (loop-collect f g e is)

with_mtu-put :
    (cfg : Value) (n i : ℕ) (tree : MtuTree) (mtu : Option ℕ)
    → add_with_mtu cfg n i tree mtu ≡ (rows_with_mtu cfg n i mtu >>= put tree)
unfolding add_with_mtu rows_with_mtu put add_rows
with_mtu-put cfg n i tree none = refl
with_mtu-put cfg n i tree (some mtu) =
    bind_through (get_ntmpl_phyintf_data_switch cfg n (some i)) _ _ _ (λ sw.
      bind_through (as_text sw) _ _ _ (λ switch.
        bind_through (get_ntmpl_phyintf_data_ports cfg n i none) _ _ _ (λ members.
          bind_through (iterate members) _ _ _
            (λ items. bind_through (each as_port items) _ _ _ (λ ports. refl)))))

phyintf-put :
    (cfg : Value) (n : ℕ) (tree : MtuTree) (i : ℕ)
    → add_phyintf_mtu cfg n tree i ≡ (phyintf_rows cfg n i >>= put tree)
unfolding add_phyintf_mtu phyintf_rows
phyintf-put cfg n tree i = bind_through (get_ntmpl_phyintf_data_ifc cfg n (some i)) _ _ _ (λ found.
    bind_through (as_text found) _ _ _ (λ phy_ifc.
      bind_through (get_interface cfg phy_ifc) _ _ _
        (λ ifc. bind_through (ifc_mtu ifc) _ _ _ (with_mtu-put cfg n i tree))))

ntmpl-put :
    (cfg : Value) (tree : MtuTree) (n : ℕ)
    → add_ntmpl_mtus cfg tree n ≡ (ntmpl_rows cfg n >>= put tree)
unfolding add_ntmpl_mtus ntmpl_rows
ntmpl-put cfg tree n = bind_through (yield_ntmpl_phyintf_data_ind cfg n) _ _ _ (λ inds.
    loop-collect (add_phyintf_mtu cfg n) (phyintf_rows cfg n) (phyintf-put cfg n) inds tree)

pub get_mtu_list-put : (cfg : Value) → get_mtu_list cfg ≡ (mtu_rows cfg >>= put [])
unfolding get_mtu_list mtu_rows
get_mtu_list-put cfg =
    bind_through (yield_ntmpl_ind cfg) _ _ _
      (λ inds. loop-collect (add_ntmpl_mtus cfg) (ntmpl_rows cfg) (ntmpl-put cfg) inds [])
