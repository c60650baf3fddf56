-- ===== src/DataSwitch/Hoare.antt =====
-- Methods that keep a predicate, whether they return or raise.
use cluster_genesis.Base.{
  List, ◌∷◌, nat_eq, option_eq, text_eq, Result, user_exception, switch_exception, key_error,
  index_error, value_error, attribute_error, type_error, ssh_exception, user_critical_exception,
  system_exit, ok, err,
}
use cluster_genesis.Base.Value.{port_eq}
use cluster_genesis.Exec.{Exec, ◌>>=◌, pure, continue}
use cluster_genesis.DataSwitch.{Call, World}
use cluster_genesis.DataSwitch.Calls.{perform, caught, try_switch}

module _ {S : Type 0} where
  -- What holds of a run's end: `Q` where it returned, `E` where it raised.
  unfoldable pub Post : {A : Type 0} → (A → S → Type 0) → (S → Type 0) → Result A × S → Type 0
  Post Q E (ok a, s) = Q a s
  Post Q E (err x, s) = E s

  pub record Hoare {A : Type 0} (P : S → Type 0) (m : Exec S A) (Q : A → S → Type 0)
      (E : S → Type 0) : Type 0 where
    pub runs : (s : S) → P s → Post Q E (m s)

  then-Post :
      {A B : Type 0} (Q : A → S → Type 0) (R : B → S → Type 0) (E : S → Type 0) (k : A → Exec S B)
      (r : Result A × S)
      → Post Q E r
      → ((a : A) (s : S) → Q a s → Post R E (k a s))
      → Post R E (continue r.0 k r.1)
  unfolding Post
  then-Post Q R E k (ok a, s) p next = next a s p
  then-Post Q R E k (err x, s) p next = p

  pub bind :
      {A B : Type 0} {P : S → Type 0} {Q : A → S → Type 0} {R : B → S → Type 0} {E : S → Type 0}
      (m : Exec S A) (k : A → Exec S B)
      → Hoare P m Q E
      → ((a : A) → Hoare (Q a) (k a) R E)
      → Hoare P (m >>= k) R E
  bind {Q = Q} {R = R} {E = E} m k first next = record {
    runs = λ s p. then-Post Q R E k (m s) (first.runs s p) λ a t q. (next a).runs t q;
  }

  weaker :
      {A : Type 0} {Q Q' : A → S → Type 0} {E E' : S → Type 0}
      → ((a : A) (s : S) → Q a s → Q' a s)
      → ((s : S) → E s → E' s)
      → (r : Result A × S) → Post Q E r
      → Post Q' E' r
  unfolding Post
  weaker q e (ok a, s) p = q a s p
  weaker q e (err x, s) p = e s p

  pub weaken :
      {A : Type 0} {P : S → Type 0} {Q Q' : A → S → Type 0} {E E' : S → Type 0} {m : Exec S A}
      → ((a : A) (s : S) → Q a s → Q' a s)
      → ((s : S) → E s → E' s)
      → Hoare P m Q E
      → Hoare P m Q' E'
  weaken {m = m} q e h = record { runs = λ s p. weaker q e (m s) (h.runs s p) }

  pub returns :
      {A : Type 0} {P : S → Type 0} {Q : A → S → Type 0} {E : S → Type 0} (a : A)
      → ((s : S) → P s → Q a s)
      → Hoare P (pure a) Q E
  unfolding Post
  returns a h = record { runs = h }

  caught-Post :
      (Q : S → Type 0) (r : Result (Unit {0}) × S) → Post (λ u. Q) Q r → Post (λ u. Q) Q (caught r)
  unfolding Post caught
  caught-Post Q (ok tt, s) p = p
  caught-Post Q (err switch_exception, s) p = p
  caught-Post Q (err user_exception, s) p = p
  caught-Post Q (err key_error, s) p = p
  caught-Post Q (err index_error, s) p = p
  caught-Post Q (err value_error, s) p = p
  caught-Post Q (err attribute_error, s) p = p
  caught-Post Q (err type_error, s) p = p
  caught-Post Q (err user_critical_exception, s) p = p
  caught-Post Q (err ssh_exception, s) p = p
  caught-Post Q (err system_exit, s) p = p

  pub tries :
      {P Q : S → Type 0} {m : Exec S (Unit {0})}
      → Hoare P m (λ u. Q) Q
      → Hoare P (try_switch m) (λ u. Q) Q
  unfolding try_switch
  tries {Q = Q} {m = m} h = record { runs = λ s p. caught-Post Q (m s) (h.runs s p) }

both :
    {S : Type 0} (Q : List Call → Type 0) (r : Result (Unit {0})) (w : World S)
    → Q w.calls
    → Post (λ u v. Q v.calls) (λ v. Q v.calls) (r, w)
unfolding Post
both Q (ok u) w q = q
both Q (err x) w q = q

-- A predicate on the calls so far that the next call keeps holds behind it, also if it raised.
pub performs :
    {S : Type 0} (handle : Call → S → Result (Unit {0}) × S) (c : Call) (P Q : List Call → Type 0)
    → ((cs : List Call) → P cs → Q (c ∷ cs))
    → Hoare (λ w. P w.calls) (perform handle c) (λ u w. Q w.calls) (λ w. Q w.calls)
unfolding perform
performs handle c P Q step = record { runs = λ w p. both Q _ _ (step w.calls p) }
