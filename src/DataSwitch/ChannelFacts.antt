-- ===== src/DataSwitch/ChannelFacts.antt =====
-- The channels of scripts/python/configure_data_switches.py: their numbers, MTUs and MLAG pairs.
use cluster_genesis.Base.{
  ℕ, ◌≤◌, min, ◌≡◌, refl, ◌∙◌, ◌⊎◌, inl, inr, Bool, true, false, ◌&&◌, none, List, [], ◌∷◌, foldl,
  arith, nat_eq, option_eq, All, contains, Text, text_eq, Dict, ok,
}
use cluster_genesis.Base.Value.{Port, port_eq, num, name}
use cluster_genesis.DataSwitch.{MtuTree}
use cluster_genesis.DataSwitch.PortVlans.{
  subtree, mtu_of, get_port_mtu, port_numbers, least, get_channel_num,
}

min_cases : (n k : ℕ) → (min n k ≡ n) ⊎ (min n k ≡ k)
min_cases n k = ground arith

least_at :
    (n k : ℕ) (ks : List ℕ) (m : ℕ)
    → (m ≡ min n k) ⊎ (contains ks m ≡ true)
    → (m ≡ n) ⊎ (contains (k ∷ ks) m ≡ true)
least_at n k ks m (inl e) = elim (min_cases n k) [
  | inl f ↦ inl (e ∙ f)
  | inr f ↦ inr (ground (arith, e ∙ f))
]
least_at n k ks m (inr h) = inr (ground arith)

among :
    (n : ℕ) (ns : List ℕ) (m : ℕ) → (m ≡ n) ⊎ (contains ns m ≡ true) → contains (n ∷ ns) m ≡ true
among n ns m (inl e) = ground arith
among n ns m (inr h) = ground arith

foldl-min :
    (n : ℕ) (ns : List ℕ)
    → (foldl min n ns ≤ n)
      × All (λ k. foldl min n ns ≤ k) ns
      × ((foldl min n ns ≡ n) ⊎ (contains ns (foldl min n ns) ≡ true))
foldl-min n [] = (omega arith, tt, inl refl)
foldl-min n (k ∷ ks) =
    let (below, others, at) = foldl-min (min n k) ks in
    (
      omega (arith, below),
      (omega (arith, below), others),
      least_at n k ks (foldl min (min n k) ks) at,
    )

channel_number :
    (grp : List Text) (n : ℕ) (ns : List ℕ)
    → port_numbers grp ≡ ok (n ∷ ns)
    → get_channel_num grp ≡ ok (foldl min n ns)
unfolding get_channel_num least
channel_number grp n ns h = rw (h, get_channel_num) refl

-- The channel number of a port group whose last parts are the numbers `n ∷ ns` is one of them, and
-- none of them is smaller.
pub get_channel_num_least :
    (grp : List Text) (n : ℕ) (ns : List ℕ)
    → port_numbers grp ≡ ok (n ∷ ns)
    → (m : ℕ) × (get_channel_num grp ≡ ok m)
      × (contains (n ∷ ns) m ≡ true)
      × All (λ k. m ≤ k) (n ∷ ns)
get_channel_num_least grp n ns h =
    let (below, others, at) = foldl-min n ns in
    (foldl min n ns, channel_number grp n ns h, among n ns _ at, (below, others))

-- Only ports with a name, such as `1/12`.
unfoldable pub all_names : List Port → Bool
all_names [] = true
all_names (num n ∷ ports) = false
all_names (name t ∷ ports) = all_names ports

unfoldable pub all_named : Dict ℕ (List Port) → Bool
unfolding all_names
all_named [] = true
all_named ((mtu, ports) ∷ rest) = all_names ports && all_named rest

no_number : (n : ℕ) (ports : List Port) → all_names ports ≡ true → contains ports (num n) ≡ false
unfolding all_names
no_number n [] h = refl
no_number n (num k ∷ ports) h = cc
no_number n (name t ∷ ports) h = no_number n ports h

no_mtu : (n : ℕ) (mtus : Dict ℕ (List Port)) → all_named mtus ≡ true → mtu_of (num n) mtus ≡ none
unfolding mtu_of all_named
no_mtu n [] h = refl
no_mtu n ((mtu, ports) ∷ rest) h = ground (arith, no_number n ports, no_mtu n rest)

-- Where a switch's ports have names, no channel number has an MTU: the script asks for the MTU of
-- the channel's number, which is no port.
pub get_port_mtu-none :
    (sw : Text) (n : ℕ) (mtu_list : MtuTree)
    → all_named (subtree sw mtu_list) ≡ true
    → get_port_mtu sw (num n) mtu_list ≡ none
unfolding get_port_mtu
get_port_mtu-none sw n mtu_list h = no_mtu n (subtree sw mtu_list) h
