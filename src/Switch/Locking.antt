-- ===== src/Switch/Locking.antt =====
-- The lock loop of `send_cmd` of scripts/python/lib/switch_common.py, and what it delivers.
use cluster_genesis.Base.{
  ℕ, zero, suc, ◌<◌, ◌≡◌, refl, sym, ap, ◌∙◌, ◌⊎◌, inl, inr, Bool, true, false, some, arith, nat_eq,
  option_eq, Bool-cases, Text, text_eq, Exc, Result, switch_exception, ok, err,
}
use cluster_genesis.Base.Value.{port_eq}
use cluster_genesis.Switch.{Session, Remote}
use cluster_genesis.Switch.Send.{
  acquire, is_passive, enable_remote_config, deliver, send_cmd, delivered,
}

module _ {D : Type 0} (remote : Remote D) where
  -- The device before attempt `i` to take the lock, and the outcome of the attempt.
  unfoldable pub before_attempt : ℕ → D → D
  before_attempt zero d = d
  before_attempt (suc i) d = before_attempt i (remote.try_lock d).1

  unfoldable pub attempt : ℕ → D → Bool
  unfolding before_attempt
  attempt i d = (remote.try_lock (before_attempt i d)).0

  -- Attempt `i` is the first one that takes the lock.
  pub record First (i : ℕ) (d : D) : Type 0 where
    pub takes : attempt i d ≡ true
    pub fails : (j : ℕ) → j < i → attempt j d ≡ false

  fails_later :
      (n : ℕ) (d : D)
      → attempt 0 d ≡ false
      → ((j : ℕ) → j < n → attempt j (remote.try_lock d).1 ≡ false)
      → (j : ℕ) → j < suc n
      → attempt j d ≡ false
  unfolding attempt before_attempt
  fails_later n d e f zero l = e
  fails_later n d e f (suc j) l = f j (omega arith)

  First-later :
      (i : ℕ) (d : D) → attempt 0 d ≡ false → First i (remote.try_lock d).1 → First (suc i) d
  unfolding attempt before_attempt
  First-later i d e f = record { takes = f.takes; fails = fails_later i d e f.fails }

  acquire_cases :
      (n : ℕ) (d : D)
      → ((i : ℕ) × First i d × (i < n) × (acquire remote n d ≡ (true, before_attempt (suc i) d)))
        ⊎ (((j : ℕ) → j < n → attempt j d ≡ false)
            × (acquire remote n d ≡ (false, before_attempt n d)))
  unfolding acquire attempt before_attempt
  acquire_cases zero d = inr (λ j l. elim l [ ], refl)
  acquire_cases (suc n) d = elim (Bool-cases (remote.try_lock d).0) [
    | inl e ↦
        inl (0, record { takes = e; fails = λ j l. elim l [ ] }, omega arith, rw (e, acquire) refl)
    | inr e ↦ elim (acquire_cases n (remote.try_lock d).1) [
      | inl (i, f, l, same) ↦ inl (suc i, First-later i d e f, omega arith, rw (e, acquire) same)
      | inr (f, same) ↦ inr (fails_later n d e f, rw (e, acquire) same)
    ]
  ]

  -- The run of the command behind attempt `i`, which took the lock.
  unfoldable pub ran : Text → ℕ → D → Result Text × D
  unfolding before_attempt enable_remote_config
  ran cmd i d = remote.exec_cmd (enable_remote_config cmd) (before_attempt (suc i) d)

  -- How `send_cmd` ends behind attempt `i`.
  pub data Delivered (cmd : Text) (s : Session D) (i : ℕ) : Type 0 where
    answered :
        (t : Text)
        → (ran cmd i s.device).0 ≡ ok t
        → send_cmd remote cmd s
          ≡ (ok (some t), record s { device = remote.release (ran cmd i s.device).1 })
        → Delivered cmd s i
    raised :
        (x : Exc)
        → (ran cmd i s.device).0 ≡ err x
        → send_cmd remote cmd s ≡ (err x, record s { device = (ran cmd i s.device).1 })
        → Delivered cmd s i

  delivered_cases :
      (cmd : Text) (s : Session D) (i : ℕ) (p : Result Text × D)
      → ran cmd i s.device ≡ p
      → send_cmd remote cmd s ≡ delivered remote p s
      → Delivered cmd s i
  unfolding delivered
  delivered_cases cmd s i (ok t, d) e run =
      answered t (ap (λ q. q.0) e)
        (run ∙ ap (λ q. (ok (some t), record s { device = remote.release q.1 })) (sym e))
  delivered_cases cmd s i (err x, d) e run =
      raised x (ap (λ q. q.0) e) (run ∙ ap (λ q. (err x, record s { device = q.1 })) (sym e))

  -- Outside of passive mode `send_cmd` either runs its command once, behind the first of at most
  -- five attempts that takes the lock: if the switch answers it releases the lock and returns the
  -- answer, and if the run raises, `send_cmd` raises the same and does not call the lock's release;
  -- or all five attempts fail, the command is not run and it raises a SwitchException. The output
  -- file is left as it is.
  pub send_cmd_delivers :
      (cmd : Text) (s : Session D)
      → is_passive s ≡ false
      → ((i : ℕ) × First i s.device × (i < 5) × Delivered cmd s i)
        ⊎ (((j : ℕ) → j < 5 → attempt j s.device ≡ false)
            × (send_cmd remote cmd s
                ≡ (err switch_exception, record s { device = before_attempt 5 s.device })))
  unfolding send_cmd deliver ran before_attempt
  send_cmd_delivers cmd s p = elim (acquire_cases 5 s.device) [
    | inl (i, f, l, same) ↦
        inl (i, f, l, delivered_cases cmd s i _ refl (rw (p, same, send_cmd) refl))
    | inr (f, same) ↦ inr (f, rw (p, same, send_cmd) refl)
  ]
