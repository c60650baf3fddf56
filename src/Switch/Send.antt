-- ===== src/Switch/Send.antt =====
-- `send_cmd` of scripts/python/lib/switch_common.py: a command in passive and in active mode.
use cluster_genesis.Base.{
  ℕ, zero, suc, Bool, true, false, Option, none, some, [], ◌∷◌, ◌++◌, nat_eq, ◌==◌, option_eq, Text,
  codes, text_eq, Result, switch_exception, ok, err,
}
use cluster_genesis.Base.Value.{port_eq}
use cluster_genesis.Exec.{Exec}
use cluster_genesis.Switch.{Session, Remote}

unfoldable pub is_passive : {D : Type 0} → Session D → Bool
is_passive s = s.mode == codes "passive"

-- `if self.mode == 'passive': return a`, before the rest of a method.
unfoldable pub if_passive : {D A : Type 0} → A → Exec (Session D) A → Exec (Session D) A
unfolding is_passive
if_passive a m s = elim (is_passive s) [ true ↦ (ok a, s) | false ↦ m s ]

-- `if b: return`, before the rest, and `if not b: raise SwitchException`.
unfoldable pub unless :
    {D : Type 0} → Bool → Exec (Session D) (Unit {0}) → Exec (Session D) (Unit {0})
unless true m s = (ok tt, s)
unless false m s = m s

unfoldable pub require : {D : Type 0} → Bool → Exec (Session D) (Unit {0})
require true s = (ok tt, s)
require false s = (err switch_exception, s)

-- What a method does in active mode only.
unfoldable pub if_active : {D A : Type 0} → A → Exec (Session D) A → Exec (Session D) A
if_active a m s = elim (s.mode == codes "active") [ true ↦ m s | false ↦ (ok a, s) ]

-- `while cnt < 5 and not lock.is_locked`, with the number of attempts that are left.
unfoldable pub acquire : {D : Type 0} → Remote D → ℕ → D → Bool × D
acquire remote zero d = (false, d)
acquire remote (suc n) d =
    let (locked, d') = remote.try_lock d in
    elim locked [ true ↦ (true, d') | false ↦ acquire remote n d' ]

-- `ENABLE_REMOTE_CONFIG.format(cmd)`
unfoldable pub enable_remote_config : Text → Text
enable_remote_config cmd = codes "configure terminal ; " ++ cmd ++ codes " "

module _ {D : Type 0} (remote : Remote D) where
  -- What the run of the command gave. Where it raised, the lock is not released.
  unfoldable pub delivered : Result Text × D → Exec (Session D) (Option Text)
  delivered (ok answer, d) s = (ok (some answer), record s { device = remote.release d })
  delivered (err x, d) s = (err x, record s { device = d })

  -- The command on the switch, behind the attempts to take the lock.
  unfoldable pub deliver : Text → Bool × D → Exec (Session D) (Option Text)
  unfolding enable_remote_config delivered
  deliver cmd (false, d) s = (err switch_exception, record s { device = d })
  deliver cmd (true, d) s = delivered (remote.exec_cmd (enable_remote_config cmd) d) s

  unfoldable pub send_cmd : Text → Exec (Session D) (Option Text)
  unfolding is_passive deliver acquire
  send_cmd cmd s = elim (is_passive s) [
    | true ↦ (ok none, record s { outfile = s.outfile ++ cmd ++ 10 ∷ [] })
    | false ↦ deliver cmd (acquire remote 5 s.device) s
  ]
