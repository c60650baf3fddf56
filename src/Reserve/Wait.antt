-- ===== src/Reserve/Wait.antt =====
-- The end of `inv_set_ipmi_pxe_ip`: the rounds in which the BMCs are asked at their new addresses.
pub mod Remaining
use cluster_genesis.Base.{
  ℕ, zero, suc, ◌+◌, Bool, ◌&&◌, ◌||◌, List, [], ◌∷◌, ◌++◌, leb, if◌then◌else◌, ◌==◌, nat_eq,
  option_eq, Text, codes, text_eq, Result, user_exception, index_error, ok, err,
}
use cluster_genesis.Base.Value.{port_eq}
use cluster_genesis.Reserve.Assign.{Pending}

-- What a BMC answers in a round: whether it is connected, and the status it gives if it is.
pub record Answer : Type 0 where
  pub is_connected : Bool
  pub chassis_power : Text

-- The guards of a round: connected, and a status in `('on', 'off')`.
unfoldable pub responds : Answer → Bool
responds a = a.is_connected && (a.chassis_power == codes "on" || a.chassis_power == codes "off")

-- `del xs[i]`
unfoldable pub del_item {ℓ} : {A : Type ℓ} → List A → ℕ → Result (List A)
del_item [] i = err index_error
del_item (x ∷ xs) zero = ok xs
del_item (x ∷ xs) (suc i) = elim (del_item xs i) [ err e ↦ err e | ok ys ↦ ok (x ∷ ys) ]

-- `sorted(…, reverse=True)`
unfoldable pub insert_descending : ℕ → List ℕ → List ℕ
insert_descending i [] = i ∷ []
insert_descending i (j ∷ js) =
    let rest = insert_descending i js in if leb j i then i ∷ j ∷ js else j ∷ rest

unfoldable pub sorted_reverse : List ℕ → List ℕ
sorted_reverse [] = []
sorted_reverse (i ∷ is) = insert_descending i (sorted_reverse is)

-- `for remove_index in …: del nodes_list[remove_index]`
unfoldable pub del_items {ℓ} : {A : Type ℓ} → List ℕ → List A → Result (List A)
del_items [] xs = ok xs
del_items (i ∷ is) xs = elim (del_item xs i) [ err e ↦ err e | ok ys ↦ del_items is ys ]

-- The state of the rounds: who is waited for, and the addresses written to the inventory.
pub record Waiting : Type 0 where
  pub nodes_list : List Pending
  pub ipmi_ipaddrs : List (ℕ × Text)

-- The loop over `enumerate(nodes_list)` from an index on: `success_list`.
unfoldable pub success_list : (Pending → Answer) → ℕ → List Pending → List ℕ
success_list ask list_index [] = []
success_list ask list_index (node ∷ nodes) =
    let rest = success_list ask (list_index + 1) nodes in
    if responds (ask node) then list_index ∷ rest else rest

-- The calls of `set_nodes_ipmi_ipaddr` in the same loop.
unfoldable pub written : (Pending → Answer) → List Pending → List (ℕ × Text)
written ask [] = []
written ask (node ∷ nodes) =
    let rest = written ask nodes in
    if responds (ask node) then (node.index, node.ipmi_new_ipaddr) ∷ rest else rest

-- One round of the `while`.
unfoldable pub round : (Pending → Answer) → Waiting → Result Waiting
round ask w = elim (del_items (sorted_reverse (success_list ask 0 w.nodes_list)) w.nodes_list) [
  | err e ↦ err e
  | ok left ↦
      ok (record { nodes_list = left; ipmi_ipaddrs = w.ipmi_ipaddrs ++ written ask w.nodes_list })
]

-- The `while`: the list holds the answers of the rounds there is time for.
unfoldable pub rounds : List (Pending → Answer) → Waiting → Result Waiting
rounds [] w = ok w
rounds (ask ∷ asks) w = elim w.nodes_list [
  | [] ↦ ok w
  | _ ∷ _ ↦ elim (round ask w) [ err e ↦ err e | ok w' ↦ rounds asks w' ]
]

-- The `while` and the check behind it.
unfoldable pub wait : List (Pending → Answer) → Waiting → Result Waiting
wait asks w = elim (rounds asks w) [
  | err e ↦ err e
  | ok w' ↦ elim w'.nodes_list [ [] ↦ ok w' | _ ∷ _ ↦ err user_exception ]
]
