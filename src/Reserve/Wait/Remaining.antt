-- ===== src/Reserve/Wait/Remaining.antt =====
-- Deleting by descending index leaves the nodes that did not respond.
use cluster_genesis.Base.{
  ℕ, ◌+◌, ◌<◌, ◌≡◌, refl, sym, ap, ◌∙◌, ◌≢◌, ◌⊎◌, inl, inr, List, [], ◌∷◌, ◌++◌, append_assoc,
  arith, if◌then◌else◌, nat_eq, option_eq, Bool-cases, List-cases, length, length-append, All,
  text_eq, Result-cases, err-ne-ok, user_exception, ok, err,
}
use cluster_genesis.Base.Value.{port_eq}
use cluster_genesis.Reserve.Assign.{Pending}
use cluster_genesis.Reserve.Wait.{
  Answer, responds, del_item, insert_descending, sorted_reverse, del_items, success_list, Waiting,
  written, round, rounds, wait,
}

module _ {ℓ} {A : Type ℓ} where
  del_item-append :
      (pre : List A) (x : A) (post : List A)
      → del_item (pre ++ x ∷ post) (length pre) ≡ ok (pre ++ post)
  unfolding del_item
  del_item-append [] x post = refl
  del_item-append (p ∷ pre) x post = rw (del_item-append pre x post) refl

  del_items-one : (i : ℕ) (xs : List A) → del_items (i ∷ []) xs ≡ del_item xs i
  unfolding del_items
  del_items-one i xs = elim (Result-cases (del_item xs i)) [
    | inl (ys, e) ↦ rw (e, del_items) refl
    | inr (x, e) ↦ rw (e, del_items) refl
  ]

  del_items-snoc :
      (is : List ℕ) (i : ℕ) (xs ys : List A)
      → del_items is xs ≡ ok ys
      → del_items (is ++ i ∷ []) xs ≡ del_item ys i
  unfolding del_items
  del_items-snoc [] i xs ys h = del_items-one i xs ∙ (cc)
  del_items-snoc (j ∷ is) i xs ys h = elim (Result-cases (del_item xs j)) [
    | inl (zs, e) ↦ rw (e, del_items) (del_items-snoc is i zs ys (rw (e, del_items) at h))
    | inr (x, e) ↦ err-ne-ok (rw (e, del_items) at h)
  ]

Above : ℕ → List ℕ → Type 0
Above i = All (λ j. i < j)

insert-smallest :
    (i : ℕ) (js : List ℕ) → All (λ j. i < j) js → insert_descending i js ≡ js ++ i ∷ []
unfolding insert_descending
insert-smallest i [] h = refl
insert-smallest i (j ∷ js) (lt, h) = ground (arith, insert-smallest i js h)

insert-above :
    (k i : ℕ) (js : List ℕ)
    → k < i
    → All (λ j. k < j) js
    → All (λ j. k < j) (insert_descending i js)
unfolding insert_descending
insert-above k i [] lt h = (lt, tt)
insert-above k i (j ∷ js) lt (l, h) = ground (arith, insert-above k i js lt h, l, h)

sorted-above : (k : ℕ) (is : List ℕ) → All (λ j. k < j) is → All (λ j. k < j) (sorted_reverse is)
unfolding sorted_reverse
sorted-above k [] h = tt
sorted-above k (i ∷ is) (l, h) = insert-above k i (sorted_reverse is) l (sorted-above k is h)

success-above :
    (ask : Pending → Answer) (k i : ℕ) (nodes : List Pending)
    → k < i
    → All (λ j. k < j) (success_list ask i nodes)
unfolding success_list
success-above ask k i [] lt = tt
success-above ask k i (n ∷ nodes) lt =
    ground (arith, success-above ask k (i + 1) nodes (omega arith))

unfoldable pub silent : (Pending → Answer) → List Pending → List Pending
silent ask [] = []
silent ask (n ∷ nodes) = let rest = silent ask nodes in if responds (ask n) then rest else n ∷ rest

del_items-next :
    (ask : Pending → Answer) (pre : List Pending) (n : Pending) (nodes : List Pending)
    → del_items
        (sorted_reverse (success_list ask (length (pre ++ n ∷ [])) nodes))
        ((pre ++ n ∷ []) ++ nodes)
      ≡ ok ((pre ++ n ∷ []) ++ silent ask nodes)
    → del_items (sorted_reverse (success_list ask (length pre + 1) nodes)) (pre ++ n ∷ nodes)
      ≡ ok (pre ++ n ∷ silent ask nodes)
del_items-next ask pre n nodes h =
    let e : (pre ++ n ∷ []) ++ nodes ≡ pre ++ n ∷ nodes = simp append_assoc in
    let e' : (pre ++ n ∷ []) ++ silent ask nodes ≡ pre ++ n ∷ silent ask nodes =
      simp append_assoc in
    rw (length-append pre (n ∷ []), e, e') at h

del_items-success :
    (ask : Pending → Answer) (pre nodes : List Pending)
    → del_items (sorted_reverse (success_list ask (length pre) nodes)) (pre ++ nodes)
      ≡ ok (pre ++ silent ask nodes)
unfolding sorted_reverse success_list silent del_items
del_items-success ask pre [] = refl
del_items-success ask pre (n ∷ nodes) = elim (Bool-cases (responds (ask n))) [
  | inl y ↦
      let later = success_list ask (length pre + 1) nodes in
      let above : All (λ j. length pre < j) later =
        success-above ask (length pre) (length pre + 1) nodes (omega arith) in
      let smallest =
        insert-smallest (length pre) (sorted_reverse later)
          (sorted-above (length pre) later above) in
      rw y (
        rw smallest (
          del_items-snoc (sorted_reverse later) (length pre) (pre ++ n ∷ nodes)
            (pre ++ n ∷ silent ask nodes)
            (del_items-next ask pre n nodes (del_items-success ask (pre ++ n ∷ []) nodes))
          ∙ del_item-append pre n (silent ask nodes)))
  | inr y ↦ rw y (del_items-next ask pre n nodes (del_items-success ask (pre ++ n ∷ []) nodes))
]

-- A round never raises: it takes from the list the nodes that responded, keeps the others in their
-- order, and writes the new addresses of those that responded to the inventory.
pub round_correct :
    (ask : Pending → Answer) (w : Waiting)
    → round ask w
      ≡ ok (record {
        nodes_list = silent ask w.nodes_list;
        ipmi_ipaddrs = w.ipmi_ipaddrs ++ written ask w.nodes_list;
      })
unfolding round
round_correct ask w = rw (del_items-success ask [] w.nodes_list, round) refl

-- The nodes that respond in none of the rounds.
unfoldable pub silent_always : List (Pending → Answer) → List Pending → List Pending
silent_always [] nodes = nodes
silent_always (ask ∷ asks) nodes = silent_always asks (silent ask nodes)

silent_always-empty : (asks : List (Pending → Answer)) → silent_always asks [] ≡ []
unfolding silent_always silent
silent_always-empty [] = refl
silent_always-empty (ask ∷ asks) = silent_always-empty asks

rounds-step :
    (ask : Pending → Answer) (asks : List (Pending → Answer)) (w w' : Waiting) (n : Pending)
    (ns : List Pending)
    → w.nodes_list ≡ n ∷ ns
    → round ask w ≡ ok w'
    → rounds (ask ∷ asks) w ≡ rounds asks w'
unfolding rounds
rounds-step ask asks w w' n ns e h = rw (e, rounds) (rw h refl)

rounds-silent :
    (asks : List (Pending → Answer)) (w : Waiting)
    → (w' : Waiting) × (rounds asks w ≡ ok w') × (w'.nodes_list ≡ silent_always asks w.nodes_list)
unfolding rounds silent_always silent
rounds-silent [] w = (w, refl, refl)
rounds-silent (ask ∷ asks) w = elim (List-cases w.nodes_list) [
  | inl e ↦ (
    w,
    rw (e, rounds) (ap (λ l. ok (record { nodes_list = l; ipmi_ipaddrs = w.ipmi_ipaddrs })) e),
    rw e (sym (silent_always-empty asks)),
  )
  | inr (n, ns, e) ↦
      let (w', done, s) = rounds-silent asks (record {
        nodes_list = silent ask w.nodes_list;
        ipmi_ipaddrs = w.ipmi_ipaddrs ++ written ask w.nodes_list;
      }) in
      (w', rounds-step ask asks w _ n ns e (round_correct ask w) ∙ done, s)
]

-- The wait ends without an exception if every node responds in one of the rounds; if a node
-- responds in none of them it ends with a `UserException`.
pub wait_correct :
    (asks : List (Pending → Answer)) (w : Waiting)
    → ((silent_always asks w.nodes_list ≡ []) × (w' : Waiting) × (wait asks w ≡ ok w'))
      ⊎ ((silent_always asks w.nodes_list ≢ []) × (wait asks w ≡ err user_exception))
unfolding wait
wait_correct asks w =
    let (w', e, s) = rounds-silent asks w in
    elim (List-cases w'.nodes_list) [
      | inl none_left ↦ inl (sym s ∙ none_left, w', rw (e, wait) (rw none_left refl))
      | inr (n, ns, some_left) ↦ inr (λ empty. cc, rw (e, wait) (rw some_left refl))
    ]
