-- ===== src/Tests/Interfaces.antt =====
-- A node template with a PXE interface and one more interface.
use cluster_genesis.Base.{
  ℕ, zero, suc, ◌≡◌, refl, ap, some, some-injective, List, [], ◌∷◌, nat_eq, option_eq, length,
  get_elem?, Text, codes, text_beq, text_eq, user_exception, ok, err,
}
use cluster_genesis.Base.Value.{port_eq, null, str, list, nil}
use cluster_genesis.Config.Templates.Interfaces.{
  Interface, Template, add_label, add_network, collect_labels, until_underscore, delete,
  replace_key, strip_addresses, place, nones, all_defined, placed, get_ntmpl_interfaces,
}
use cluster_genesis.Config.Templates.Interfaces.Placed.{
  Distinct, DefinedAs, get_ntmpl_interfaces_aligned,
}
use cluster_genesis.Config.Templates.Interfaces.Total.{get_ntmpl_interfaces_returns}

abbrev first : Interface
first = (codes "label", str (codes "a")) ∷ (codes "address_list", list nil) ∷ []

abbrev second : Interface
second = (codes "label", str (codes "b")) ∷ []

-- The second definition stands first.
abbrev definitions : List (Text × Interface)
definitions = (codes "b", second) ∷ (codes "a", first) ∷ []

abbrev template : Template
template = record {
  pxe = codes "a" ∷ [];
  data' = [];
  interfaces = codes "b" ∷ codes "a" ∷ [];
  networks = [];
}

abbrev returned : List Interface
returned = ((codes "label", str (codes "a")) ∷ (codes "address", null) ∷ []) ∷ second ∷ []

returns : get_ntmpl_interfaces [] definitions template ≡ ok returned
unfolding get_ntmpl_interfaces placed all_defined nones place strip_addresses replace_key delete
    until_underscore collect_labels add_network add_label text_beq
returns = refl

collected : collect_labels [] template ≡ codes "a" ∷ codes "b" ∷ []
unfolding collect_labels add_network add_label text_beq
collected = refl

get_ntmpl_interfaces_aligned_example :
    Distinct (collect_labels [] template)
    × (length returned ≡ length (collect_labels [] template))
    × ((i : ℕ) (l : Text)
        → get_elem? (collect_labels [] template) i ≡ some l
        → (x : Interface) × (get_elem? returned i ≡ some x) × DefinedAs definitions l x)
get_ntmpl_interfaces_aligned_example =
    get_ntmpl_interfaces_aligned [] definitions template returned returns

two_defined :
    (i : ℕ) (l : Text)
    → get_elem? (codes "a" ∷ codes "b" ∷ []) i ≡ some l
    → (j : ℕ) × (d : Interface) × (get_elem? definitions j ≡ some (l, d))
two_defined zero l h = (1, first, ap (λ u. some (u, first)) (some-injective _ l h))
two_defined (suc zero) l h = (0, second, ap (λ u. some (u, second)) (some-injective _ l h))
two_defined (suc (suc i)) l h = cc

all_labels_defined :
    (i : ℕ) (l : Text)
    → get_elem? (collect_labels [] template) i ≡ some l
    → (j : ℕ) × (d : Interface) × (get_elem? definitions j ≡ some (l, d))
all_labels_defined = rw collected two_defined

labels-Distinct : Distinct (collect_labels [] template)
labels-Distinct = (get_ntmpl_interfaces_aligned [] definitions template returned returns).0

get_ntmpl_interfaces_returns_example :
    (out : List Interface) × (get_ntmpl_interfaces [] definitions template ≡ ok out)
get_ntmpl_interfaces_returns_example =
    get_ntmpl_interfaces_returns [] definitions template labels-Distinct all_labels_defined

-- A label that the PXE and the data interfaces share raises, though it is defined.
shared_label_raises :
    get_ntmpl_interfaces [] definitions
      (record { pxe = codes "a" ∷ []; data' = codes "a" ∷ []; interfaces = []; networks = [] })
    ≡ err user_exception
unfolding get_ntmpl_interfaces placed all_defined nones place strip_addresses replace_key delete
    until_underscore collect_labels add_network add_label text_beq
shared_label_raises = refl
