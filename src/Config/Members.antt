-- ===== src/Config/Members.antt =====
-- The two forms of a getter, with an index and without, agree.
use cluster_genesis.Base.{
  Bool, if◌then◌else◌, ℕ, zero, suc, ◌+◌, ◌<◌, ◌≡◌, refl, sym, ap, ◌∙◌, inl, inr, true, false, none,
  some, List, [], ◌∷◌, arith, leb, nat_eq, option_eq, Bool-cases, Option-cases, length, get_elem?,
  get_elem?-in, get_elem?-out, Text, codes, text_eq, Result, ◌>>=◌, item, >>=-eq-ok, ok-injective,
  err-ne-ok, each, user_exception, ok, err,
}
use cluster_genesis.Base.Value.{Value, Fields, Values, port_eq, null, int, list, dict}
use cluster_genesis.Config.Access.{
  of_values, to_values, iterate, get_index, get_members, member_value, range, range_from,
  find_field, attr, get_key, key_in,
}
use cluster_genesis.Config.Masks.{
  Netaddr, netmasks, netmask_to_prefix, prefix_to_netmask, prefixes, count_ones, member_netmask,
  member_prefix,
}

module _ {ℓ κ} {A : Type ℓ} {B : Type κ} (f : A → Result B) where
  each-cons :
      (x : A) (xs : List A) (ys : List B)
      → each f (x ∷ xs) ≡ ok ys
      → (y : B) × (zs : List B) × (f x ≡ ok y) × (each f xs ≡ ok zs) × (y ∷ zs ≡ ys)
  each-cons x xs ys h =
      let (y, e, h') = >>=-eq-ok (f x) _ h in
      let (zs, e', h'') = >>=-eq-ok (each f xs) (λ ws. ok (y ∷ ws)) h' in (y, zs, e, e', cc)

  -- What a call gives at an index, the list of all calls has there.
  pub each-item :
      (xs : List A) (ys : List B) → each f xs ≡ ok ys → (i : ℕ) → (item xs i >>= f) ≡ item ys i
  each-item [] [] h i = refl
  each-item [] (y ∷ ys) h i = cc
  each-item (x ∷ xs) ys h zero = let (y, zs, e, e', t) = each-cons x xs ys h in rw⁻¹ t e
  each-item (x ∷ xs) ys h (suc i) =
      let (y, zs, e, e', t) = each-cons x xs ys h in rw⁻¹ t (each-item xs zs e' i)

  pub each-length : (xs : List A) (ys : List B) → each f xs ≡ ok ys → length ys ≡ length xs
  each-length [] [] h = refl
  each-length [] (y ∷ ys) h = cc
  each-length (x ∷ xs) ys h =
      let (y, zs, e, e', t) = each-cons x xs ys h in rw⁻¹ t (ap suc (each-length xs zs e'))

pub of_values-to_values : (vs : List Value) → of_values (to_values vs) ≡ vs
of_values-to_values [] = refl
of_values-to_values (v ∷ vs) = ap (λ l. v ∷ l) (of_values-to_values vs)

abbrev items_of : Result Value → List Value
items_of (ok (list vs)) = of_values vs
items_of _ = []

-- Both forms of a getter that calls `f` for a member.
both_forms :
    (f : Value → Result Value) (vs ws : Values)
    → (each f (of_values vs) >>= λ l. ok (list (to_values l))) ≡ ok (list ws)
    → (length (of_values ws) ≡ length (of_values vs))
      × ((i : ℕ) → (item (of_values vs) i >>= f) ≡ item (of_values ws) i)
both_forms f vs ws h =
    let (l, e, e') = >>=-eq-ok (each f (of_values vs)) (λ l. ok (list (to_values l))) h in
    let t : l ≡ of_values ws = sym (of_values-to_values l) ∙ ap items_of e' in
    (rw⁻¹ t (each-length f (of_values vs) l e), λ i. rw⁻¹ t (each-item f (of_values vs) l e i))

-- The value of a member of a list under a key: what it has there, or `None`.
pub data ValueOf (key : Text) (fs : Fields) (v : Value) : Type 0 where
  present : find_field fs key ≡ some v → ValueOf key fs v
  missing : find_field fs key ≡ none → v ≡ null → ValueOf key fs v

-- The netmask of a member: what it has under `netmask`, or else what netaddr makes of its prefix.
pub data NetmaskOf (net : Netaddr) (fs : Fields) (v : Value) : Type 0 where
  given : find_field fs (codes "netmask") ≡ some v → NetmaskOf net fs v
  made :
      (prefix : Value)
      → find_field fs (codes "netmask") ≡ none
      → find_field fs (codes "prefix") ≡ some prefix
      → net.netmask prefix ≡ ok v
      → NetmaskOf net fs v

-- The prefix of a member: what it has under `prefix`, or else the ones among the bits of its
-- netmask, or 32 if it is no netmask.
pub data PrefixOf (net : Netaddr) (fs : Fields) (v : Value) : Type 0 where
  given : find_field fs (codes "prefix") ≡ some v → PrefixOf net fs v
  counted :
      (netmask : Value) (bits : Text)
      → find_field fs (codes "prefix") ≡ none
      → find_field fs (codes "netmask") ≡ some netmask
      → net.is_netmask netmask ≡ ok true
      → net.bits netmask ≡ ok bits
      → v ≡ int (count_ones bits)
      → PrefixOf net fs v
  invalid :
      (netmask : Value)
      → find_field fs (codes "prefix") ≡ none
      → find_field fs (codes "netmask") ≡ some netmask
      → net.is_netmask netmask ≡ ok false
      → v ≡ int 32
      → PrefixOf net fs v

-- The result of a getter for a list against its members: as many values, of which each belongs to
-- the member at its index; and `at`, the getter for one index, gives the value there.
pub record Agrees (Of : Fields → Value → Type 0) (vs ws : Values) (at : ℕ → Result Value)
    : Type 0 where
  pub same_length : length (of_values ws) ≡ length (of_values vs)
  pub at_index : (i : ℕ) → at i ≡ item (of_values ws) i
  pub belongs :
      (i : ℕ) (fs : Fields) (v : Value)
      → get_elem? (of_values vs) i ≡ some (dict fs)
      → get_elem? (of_values ws) i ≡ some v
      → Of fs v

item-some : {A : Type 0} (xs : List A) (i : ℕ) (a : A) → get_elem? xs i ≡ some a → item xs i ≡ ok a
item-some xs i a h = rw h refl

both_agree :
    (f : Value → Result Value) (Of : Fields → Value → Type 0) (vs ws : Values)
    (at : ℕ → Result Value)
    → (each f (of_values vs) >>= λ l. ok (list (to_values l))) ≡ ok (list ws)
    → ((i : ℕ) → at i ≡ (item (of_values vs) i >>= f))
    → ((fs : Fields) (v : Value) → f (dict fs) ≡ ok v → Of fs v)
    → Agrees Of vs ws at
both_agree f Of vs ws at h same of =
    let (len, read) = both_forms f vs ws h in
    record {
      same_length = len;
      at_index = λ i. same i ∙ read i;
      belongs = λ i fs v m w. of fs v (
          sym (ap (λ r. r >>= f) (item-some (of_values vs) i (dict fs) m))
          ∙ read i
          ∙ item-some (of_values ws) i v w);
    }

member_value-ValueOf :
    (key : Text) (fs : Fields) (v : Value) → member_value key (dict fs) ≡ ok v → ValueOf key fs v
unfolding member_value key_in attr
member_value-ValueOf key fs v h = elim (Option-cases (find_field fs key)) [
  | inl e ↦ missing e (ok-injective (sym (rw e at h)))
  | inr (w, e) ↦ present (e ∙ ap some (ok-injective (rw e at h)))
]

member_netmask-NetmaskOf :
    (net : Netaddr) (fs : Fields) (v : Value)
    → member_netmask net (dict fs) ≡ ok v
    → NetmaskOf net fs v
unfolding member_netmask prefix_to_netmask key_in get_key
member_netmask-NetmaskOf net fs v h = elim (Option-cases (find_field fs (codes "netmask"))) [
  | inr (w, e) ↦ given (e ∙ ap some (ok-injective (rw e at (rw e at h))))
  | inl e ↦ elim (Option-cases (find_field fs (codes "prefix"))) [
    | inr (p, e') ↦ made p e e' (rw e' at (rw (e, e') at h))
    | inl e' ↦ err-ne-ok (rw (e, e') at h)
  ]
]

counted_or_invalid :
    (net : Netaddr) (fs : Fields) (v m : Value)
    → find_field fs (codes "prefix") ≡ none
    → find_field fs (codes "netmask") ≡ some m
    → netmask_to_prefix net m ≡ ok v
    → PrefixOf net fs v
unfolding netmask_to_prefix
counted_or_invalid net fs v m e e' h =
    let (valid, n, h1) = >>=-eq-ok (net.is_netmask m) _ h in
    elim (Bool-cases valid) [
      | inl t ↦
          let (bits, b, h2) = >>=-eq-ok (net.bits m) _ (rw t at h1) in
          counted m bits e e' (n ∙ ap ok t) b (sym (ok-injective h2))
      | inr t ↦ invalid m e e' (n ∙ ap ok t) (sym (ok-injective (rw t at h1)))
    ]

member_prefix-PrefixOf :
    (net : Netaddr) (fs : Fields) (v : Value)
    → member_prefix net (dict fs) ≡ ok v
    → PrefixOf net fs v
unfolding member_prefix key_in get_key
member_prefix-PrefixOf net fs v h = elim (Option-cases (find_field fs (codes "prefix"))) [
  | inr (w, e) ↦ given (e ∙ ap some (ok-injective (rw e at (rw e at h))))
  | inl e ↦ elim (Option-cases (find_field fs (codes "netmask"))) [
    | inr (m, e') ↦ counted_or_invalid net fs v m e e' (rw e' at (rw (e, e') at h))
    | inl e' ↦ err-ne-ok (rw (e, e') at h)
  ]
]

bind-ext :
    {A B : Type 0} (r : Result A) {f g : A → Result B}
    → ((a : A) → f a ≡ g a)
    → (r >>= f) ≡ (r >>= g)
bind-ext (ok a) h = h a
bind-ext (err x) h = refl

if-elim :
    {A : Type 0} (b : Bool) (x y : A) → (elim b [ true ↦ x | false ↦ y ]) ≡ (if b then x else y)
if-elim true x y = refl
if-elim false x y = refl

-- The branches with an index against the rounds of the loops.
pub get_members-item :
    (vs : Values) (key : Text) (i : ℕ)
    → get_members (list vs) key (some i) ≡ (item (of_values vs) i >>= member_value key)
unfolding get_members get_index member_value
get_members-item vs key i =
    bind-ext (item (of_values vs) i)
      λ obj. bind-ext (key_in key obj) λ found. if-elim found (attr obj key) (ok null)

netmasks-item :
    (net : Netaddr) (vs : Values) (i : ℕ)
    → netmasks net (list vs) (some i) ≡ (item (of_values vs) i >>= member_netmask net)
unfolding netmasks get_index member_netmask
netmasks-item net vs i = refl

prefixes-item :
    (net : Netaddr) (vs : Values) (i : ℕ)
    → prefixes net (list vs) (some i) ≡ (item (of_values vs) i >>= member_prefix net)
unfolding prefixes get_index member_prefix
prefixes-item net vs i = refl

-- If `_get_members` gives a list for a list of members, then it has the value under the key for
-- each member that is a dict, and `None` where the key is missing; it is as long as the list of
-- the members; and with an index `_get_members` gives the item of that list, and an `IndexError`
-- behind its end.
pub get_members-Agrees :
    (vs ws : Values) (key : Text)
    → get_members (list vs) key none ≡ ok (list ws)
    → Agrees (ValueOf key) vs ws (λ i. get_members (list vs) key (some i))
unfolding get_members iterate get_index
get_members-Agrees vs ws key h =
    both_agree (member_value key) (ValueOf key) vs ws _ h (get_members-item vs key)
      (member_value-ValueOf key)

-- If a getter of netmasks gives a list for a list of members, then it has the netmask of each
-- member that is a dict: what stands under `netmask`, and only where nothing does, what netaddr
-- makes of the prefix; it is as long as the list of the members; and with an index the getter
-- gives the item of that list, and an `IndexError` behind its end.
pub netmasks-Agrees :
    (net : Netaddr) (vs ws : Values)
    → netmasks net (list vs) none ≡ ok (list ws)
    → Agrees (NetmaskOf net) vs ws (λ i. netmasks net (list vs) (some i))
unfolding netmasks iterate get_index
netmasks-Agrees net vs ws h =
    both_agree (member_netmask net) (NetmaskOf net) vs ws _ h (netmasks-item net vs)
      (member_netmask-NetmaskOf net)

-- If a getter of prefixes gives a list for a list of members, then it has the prefix of each member
-- that is a dict: what stands under `prefix`, and only where nothing does, the number of ones of the
-- netmask's bits, or 32 if netaddr says that it is no netmask; it is as long as the list of the
-- members; and with an index the getter gives the item of that list, and an `IndexError` behind
-- its end.
pub prefixes-Agrees :
    (net : Netaddr) (vs ws : Values)
    → prefixes net (list vs) none ≡ ok (list ws)
    → Agrees (PrefixOf net) vs ws (λ i. prefixes net (list vs) (some i))
unfolding prefixes iterate get_index
prefixes-Agrees net vs ws h =
    both_agree (member_prefix net) (PrefixOf net) vs ws _ h (prefixes-item net vs)
      (member_prefix-PrefixOf net)

get_elem?-range_from : (n k i : ℕ) → i < n → get_elem? (range_from n k) i ≡ some (k + i)
get_elem?-range_from zero k i h = absurd (omega arith)
get_elem?-range_from (suc n) k zero h = ap some (omega arith)
get_elem?-range_from (suc n) k (suc i) h =
    get_elem?-range_from n (k + 1) i (omega arith) ∙ ap some (omega arith)

get_elem?-range : (n i : ℕ) → i < n → get_elem? (range n) i ≡ some i
get_elem?-range n i h = get_elem?-range_from n 0 i h ∙ ap some (omega arith)

length-range_from : (n k : ℕ) → length (range_from n k) ≡ n
length-range_from zero k = refl
length-range_from (suc n) k = ap suc (length-range_from n (k + 1))

-- A loop over `range(cnt)` against a guarded call at one index.
pub each-range {ℓ κ} :
    {A : Type ℓ} {B : Type κ} (f : ℕ → Result A) (g : A → B) (cnt i : ℕ) (l : List A)
    → each f (range cnt) ≡ ok l
    → (elim (leb cnt i) [ true ↦ err user_exception | false ↦ f i >>= λ a. ok (g a) ])
      ≡ (elim (get_elem? l i) [ none ↦ err user_exception | some a ↦ ok (g a) ])
each-range f g cnt i l h =
    let len : length l ≡ cnt = each-length f (range cnt) l h ∙ length-range_from cnt 0 in
    elim (Bool-cases (leb cnt i)) [
      | inl out ↦ rw (out, get_elem?-out l i (ground (arith, len, out))) refl
      | inr inside ↦
          let lt : i < cnt = ground (arith, inside) in
          let (a, e) = get_elem?-in l i (omega (arith, len, lt)) in
          let called = each-item f (range cnt) l h i in
          let here : f i ≡ ok a = rw (get_elem?-range cnt i lt, e) at called in
          rw (inside, e, here) refl
    ]
