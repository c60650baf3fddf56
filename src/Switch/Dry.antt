-- ===== src/Switch/Dry.antt =====
-- The passive mode of scripts/python/lib/switch_common.py: commands go to a file.
use cluster_genesis.Base.{
  ◌≡◌, refl, sym, ap, ◌∙◌, subst, inl, inr, Bool, true, false, [], ◌∷◌, ◌++◌, append-nil,
  append_assoc, nat_eq, ◌==◌, option_eq, Text, codes, text_beq, text_beq_iff, text_eq, Exc, Result,
  Result-cases, err,
}
use cluster_genesis.Base.Value.{port_eq}
use cluster_genesis.Exec.{Exec, ◌>>=◌, lift, continue, pure, raise}
use cluster_genesis.Switch.{Session, Remote}
use cluster_genesis.Switch.Send.{send_cmd, is_passive, if_passive, if_active, unless, require}

-- A passive switch stays passive, its device is untouched, and the file only grows.
pub record Grown {D : Type 0} (s t : Session D) : Type 0 where
  pub same_mode : t.mode ≡ s.mode
  pub same_device : t.device ≡ s.device
  pub written : Text
  pub appended : t.outfile ≡ s.outfile ++ written

Grown-trans : {D : Type 0} {s t u : Session D} → Grown s t → Grown t u → Grown s u
Grown-trans {D} {s} {t} {u} g h = record {
  same_mode = h.same_mode ∙ g.same_mode;
  same_device = h.same_device ∙ g.same_device;
  written = g.written ++ h.written;
  appended =
      h.appended ∙ ap (λ f. f ++ h.written) g.appended ∙ append_assoc s.outfile g.written h.written;
}

Grown-refl : {D : Type 0} (s : Session D) → Grown s s
Grown-refl s = record {
  same_mode = refl;
  same_device = refl;
  written = [];
  appended = sym (append-nil s.outfile);
}

-- A method that leaves the device alone in passive mode.
pub record Dry {D A : Type 0} (m : Exec (Session D) A) : Type 0 where
  pub runs_dry : (s : Session D) → is_passive s ≡ true → Grown s (m s).1

is_passive-Grown :
    {D : Type 0} {s t : Session D} → Grown s t → is_passive s ≡ true → is_passive t ≡ true
unfolding is_passive
is_passive-Grown g p = rw g.same_mode p

not_active : {D : Type 0} (s : Session D) → is_passive s ≡ true → (s.mode == codes "active") ≡ false
unfolding is_passive text_beq
not_active s p = rw ((text_beq_iff s.mode (codes "passive")).0 p) refl

module _ {D A : Type 0} where
  pub lift-Dry : (r : Result A) → Dry (lift {S = Session D} r)
  lift-Dry r = record { runs_dry = λ s p. Grown-refl s }

  pub raise-Dry : (x : Exc) → Dry (raise {S = Session D} {A = A} x)
  raise-Dry x = record { runs_dry = λ s p. Grown-refl s }

  pub pure-Dry : (a : A) → Dry (pure {S = Session D} a)
  pure-Dry a = record { runs_dry = λ s p. Grown-refl s }

  then-Grown :
      {B : Type 0} (m : Exec (Session D) A) (k : A → Exec (Session D) B)
      → Dry m
      → ((a : A) → Dry (k a))
      → (s : Session D) → is_passive s ≡ true
      → Grown s ((m >>= k) s).1
  then-Grown m k dm dk s p = elim (Result-cases (m s).0) [
    | inl (a, e) ↦
        let g = dm.runs_dry s p in
        let same : ((m >>= k) s) ≡ k a (m s).1 = ap (λ r. continue r k (m s).1) e in
        subst (λ r. Grown s r.1) (sym same)
          (Grown-trans g ((dk a).runs_dry (m s).1 (is_passive-Grown g p)))
    | inr (x, e) ↦
        let same : ((m >>= k) s) ≡ (err x, (m s).1) = ap (λ r. continue r k (m s).1) e in
        subst (λ r. Grown s r.1) (sym same) (dm.runs_dry s p)
  ]

  pub >>=-Dry :
      {B : Type 0} {m : Exec (Session D) A} {k : A → Exec (Session D) B}
      → Dry m
      → ((a : A) → Dry (k a))
      → Dry (m >>= k)
  >>=-Dry {B} {m} {k} dm dk = record { runs_dry = then-Grown m k dm dk }

  pub elim-Dry :
      (b : Bool) {m k : Exec (Session D) A} → Dry m → Dry k → Dry (elim b [ true ↦ m | false ↦ k ])
  elim-Dry true dm dk = dm
  elim-Dry false dm dk = dk

  pub if_passive-Dry : (a : A) (m : Exec (Session D) A) → Dry (if_passive a m)
  unfolding if_passive
  if_passive-Dry a m = record { runs_dry = λ s p. rw (p, if_passive) (Grown-refl s) }

  pub if_active-Dry : (a : A) (m : Exec (Session D) A) → Dry (if_active a m)
  unfolding if_active
  if_active-Dry a m = record { runs_dry = λ s p. rw (not_active s p, if_active) (Grown-refl s) }

pub unless-Dry :
    {D : Type 0} (b : Bool) (m : Exec (Session D) (Unit {0})) → Dry m → Dry (unless b m)
unfolding unless
unless-Dry true m dm = record { runs_dry = λ s p. Grown-refl s }
unless-Dry false m dm = record { runs_dry = dm.runs_dry }

pub require-Dry : {D : Type 0} (b : Bool) → Dry (require {D = D} b)
unfolding require
require-Dry true = record { runs_dry = λ s p. Grown-refl s }
require-Dry false = record { runs_dry = λ s p. Grown-refl s }

pub send_cmd-Dry : {D : Type 0} (remote : Remote D) (cmd : Text) → Dry (send_cmd remote cmd)
unfolding send_cmd
send_cmd-Dry remote cmd = record {
  runs_dry = λ s p.
      rw (p, send_cmd)
        record {
          same_mode = refl;
          same_device = refl;
          written = cmd ++ 10 ∷ [];
          appended = append_assoc s.outfile cmd (10 ∷ []);
        };
}

pub ruleset dry = (
  raise-Dry, unless-Dry, require-Dry, >>=-Dry, lift-Dry, pure-Dry, if_passive-Dry, if_active-Dry,
  send_cmd-Dry,
)
