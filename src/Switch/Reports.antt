-- ===== src/Switch/Reports.antt =====
-- What scripts/python/lib/switch_common.py relies on: a switch whose lock is free and that answers
-- from its configuration, and the methods on it as functions of the configuration.
use cluster_genesis.Base.{
  ℕ, suc, ◌≡◌, refl, ap, ◌∙◌, subst, Bool, true, false, some, if◌then◌else◌, nat_eq, ◌==◌,
  option_eq, Text, codes, text_beq, text_eq, Exc, Result, ok-injective, err-ne-ok, switch_exception,
  ok, err,
}
use cluster_genesis.Base.Value.{port_eq}
use cluster_genesis.Exec.{Exec, ◌>>=◌, continue, pure, lift}
use cluster_genesis.Switch.{Session, Remote}
use cluster_genesis.Switch.Send.{
  delivered, if_active, unless, require, is_passive, if_passive, acquire, enable_remote_config,
  deliver, send_cmd,
}
use cluster_genesis.Base.Strings.{starts_with}

-- A device as a configuration of type `V`, with what a command answers and changes. Taking and
-- releasing the lock does not change it, and neither does a command that shows something.
pub record Reports {D : Type 0} (remote : Remote D) (V : Type 0) : Type 0 where
  pub view : D → V
  pub answer : Text → V → Text
  pub change : Text → V → V
  pub lock_free : (d : D) → (remote.try_lock d).0 ≡ true
  pub lock_keeps : (d : D) → view (remote.try_lock d).1 ≡ view d
  pub release_keeps : (d : D) → view (remote.release d) ≡ view d
  pub answers :
      (cmd : Text) (d : D)
      → (remote.exec_cmd (enable_remote_config cmd) d).0 ≡ ok (answer cmd (view d))
  pub changes :
      (cmd : Text) (d : D)
      → view (remote.exec_cmd (enable_remote_config cmd) d).1 ≡ change cmd (view d)
  pub show_keeps : (cmd : Text) (v : V) → starts_with (codes "show ") cmd ≡ true → change cmd v ≡ v

module _ {D V : Type 0} {remote : Remote D} (reports : Reports remote V) where
  -- A session in active mode on a switch of configuration `v`.
  pub record Now (s : Session D) (v : V) : Type 0 where
    pub is_active : s.mode ≡ codes "active"
    pub viewed : reports.view s.device ≡ v

  -- How a run ended: its result, and the configuration that it left.
  pub record Ends {A : Type 0} (m : Exec (Session D) A) (s : Session D) (o : Result A) (v : V)
      : Type 0 where
    pub outcome : (m s).0 ≡ o
    pub left : Now (m s).1 v

  Now-is_passive : {s : Session D} {v : V} → Now s v → is_passive s ≡ false
  unfolding is_passive text_beq
  Now-is_passive now = rw now.is_active refl

  pub then-Ends :
      {A B : Type 0} (m : Exec (Session D) A) (k : A → Exec (Session D) B) {s : Session D} {a : A}
      {o : Result B} {v w : V}
      → Ends m s (ok a) v
      → ((t : Session D) → Now t v → Ends (k a) t o w)
      → Ends (m >>= k) s o w
  then-Ends m k {s} {a} first next =
      let rest = next (m s).1 first.left in
      let same : ((m >>= k) s) ≡ k a (m s).1 = ap (λ r. continue r k (m s).1) first.outcome in
      record { outcome = rw same rest.outcome; left = rw same rest.left }

  pub then_raises :
      {A B : Type 0} (m : Exec (Session D) A) (k : A → Exec (Session D) B) {s : Session D} {x : Exc}
      {v : V}
      → Ends m s (err x) v
      → Ends (m >>= k) s (err x) v
  then_raises m k {s} {x} first =
      let same : ((m >>= k) s) ≡ (err x, (m s).1) = ap (λ r. continue r k (m s).1) first.outcome in
      record { outcome = rw same refl; left = rw same first.left }

  pub lift-Ends :
      {A : Type 0} {r : Result A} {s : Session D} {v : V} → Now s v → Ends (lift r) s r v
  lift-Ends now = record { outcome = refl; left = now }

  pub pure-Ends : {A : Type 0} {a : A} {s : Session D} {v : V} → Now s v → Ends (pure a) s (ok a) v
  pure-Ends now = record { outcome = refl; left = now }

  acquire_free : (n : ℕ) (d : D) → acquire remote (suc n) d ≡ (true, (remote.try_lock d).1)
  unfolding acquire
  acquire_free n d = rw (reports.lock_free d, acquire) refl

  run_view :
      (cmd : Text) (d : D)
      → reports.view
          (remote.release (remote.exec_cmd (enable_remote_config cmd) (remote.try_lock d).1).1)
        ≡ reports.change cmd (reports.view d)
  run_view cmd d =
      reports.release_keeps _
      ∙ reports.changes cmd _
      ∙ ap (reports.change cmd) (reports.lock_keeps d)

  delivered-ok :
      (p : Result Text × D) (s : Session D) (a : Text)
      → p.0 ≡ ok a
      → delivered remote p s ≡ (ok (some a), record s { device = remote.release p.1 })
  unfolding delivered
  delivered-ok (ok b, d) s a h =
      ap (λ t. (ok (some t), record s { device = remote.release d })) (ok-injective h)
  delivered-ok (err x, d) s a h = err-ne-ok h

  -- A command in active mode: the answer, and the switch behind it.
  send-runs :
      (cmd : Text) {s : Session D} {v : V}
      → Now s v
      → send_cmd remote cmd s ≡ (
        ok (some (reports.answer cmd v)),
        record s {
          device =
              remote.release
                (remote.exec_cmd (enable_remote_config cmd) (remote.try_lock s.device).1).1;
        },
      )
  unfolding send_cmd deliver
  send-runs cmd {s} {v} now =
      rw (Now-is_passive now, acquire_free 4 s.device, send_cmd)
        (delivered-ok _ s (reports.answer cmd v) (
          reports.answers cmd _
          ∙ ap (λ w. ok (reports.answer cmd w)) (reports.lock_keeps s.device ∙ now.viewed)))

  pub send-Ends :
      (cmd : Text) {s : Session D} {v : V}
      → Now s v
      → Ends (send_cmd remote cmd) s (ok (some (reports.answer cmd v))) (reports.change cmd v)
  send-Ends cmd {s} {v} now = record {
    outcome = ap (λ r. r.0) (send-runs cmd now);
    left = rw (send-runs cmd now) record {
      is_active = now.is_active;
      viewed = run_view cmd s.device ∙ ap (reports.change cmd) now.viewed;
    };
  }

  pub asked-Ends :
      {A : Type 0} (a : A) (m : Exec (Session D) A) {s : Session D} {r : Result A} {v w : V}
      → Now s v
      → Ends m s r w
      → Ends (if_passive a m) s r w
  unfolding if_passive
  asked-Ends a m now e = record {
    outcome = rw (Now-is_passive now, if_passive) e.outcome;
    left = rw (Now-is_passive now, if_passive) e.left;
  }

  pub active-Ends :
      {A : Type 0} (a : A) (m : Exec (Session D) A) {s : Session D} {r : Result A} {v w : V}
      → Now s v
      → Ends m s r w
      → Ends (if_active a m) s r w
  unfolding if_active text_beq
  active-Ends a m {s} now e =
      let active : (s.mode == codes "active") ≡ true =
        ap (λ t. t == codes "active") now.is_active in
      record { outcome = rw (active, if_active) e.outcome; left = rw (active, if_active) e.left }

  pub unless-Ends :
      {b : Bool} (m : Exec (Session D) (Unit {0})) {s : Session D} {r : Result (Unit {0})} {w : V}
      → b ≡ false
      → Ends m s r w
      → Ends (unless b m) s r w
  unfolding unless
  unless-Ends m h e = record { outcome = rw (h, unless) e.outcome; left = rw (h, unless) e.left }

  pub returns-Ends :
      {b : Bool} (m : Exec (Session D) (Unit {0})) {s : Session D} {v : V}
      → b ≡ true
      → Now s v
      → Ends (unless b m) s (ok tt) v
  unfolding unless
  returns-Ends m h now = record { outcome = rw (h, unless) refl; left = rw (h, unless) now }

  pub show-Ends :
      (cmd : Text) {s : Session D} {v : V}
      → starts_with (codes "show ") cmd ≡ true
      → Now s v
      → Ends (send_cmd remote cmd) s (ok (some (reports.answer cmd v))) v
  show-Ends cmd {s} {v} p now =
      subst (λ w. Ends (send_cmd remote cmd) s (ok (some (reports.answer cmd v))) w)
        (reports.show_keeps cmd v p) (send-Ends cmd now)

  pub refused-Ends :
      {b : Bool} {s : Session D} {v : V}
      → b ≡ false
      → Now s v
      → Ends (require b) s (err switch_exception) v
  unfolding require
  refused-Ends h now = record { outcome = rw (h, require) refl; left = rw (h, require) now }

  pub granted-Ends :
      {b : Bool} {s : Session D} {v : V} → b ≡ true → Now s v → Ends (require b) s (ok tt) v
  unfolding require
  granted-Ends h now = record { outcome = rw (h, require) refl; left = rw (h, require) now }

  pub require-Ends :
      (b : Bool) {s : Session D} {v : V}
      → Now s v
      → Ends (require b) s (if b then ok tt else err switch_exception) v
  unfolding require
  require-Ends true now = record { outcome = refl; left = now }
  require-Ends false now = record { outcome = refl; left = now }

  pub Ends-outcome :
      {A : Type 0} {m : Exec (Session D) A} {s : Session D} {o p : Result A} {v : V}
      → o ≡ p
      → Ends m s o v
      → Ends m s p v
  Ends-outcome e ends = record { outcome = ends.outcome ∙ e; left = ends.left }
