-- ===== src/DataSwitch/Calls.antt =====
-- How scripts/python/configure_data_switches.py calls the switches.
use cluster_genesis.Base.{◌∷◌, nat_eq, option_eq, text_eq, Result, switch_exception, ok, err}
use cluster_genesis.Base.Value.{port_eq}
use cluster_genesis.Exec.{Exec}
use cluster_genesis.DataSwitch.{Call, World}

module _ {S : Type 0} (handle : Call → S → Result (Unit {0}) × S) where
  -- A call of a switch object: what `handle` does, which may raise.
  unfoldable pub perform : Call → Exec (World S) (Unit {0})
  perform c w =
      let (r, s) = handle c w.switches in (r, record { calls = c ∷ w.calls; switches = s })

-- `try: … except SwitchException:` with a log in the handler.
unfoldable pub caught : {S : Type 0} → Result (Unit {0}) × S → Result (Unit {0}) × S
caught (err switch_exception, w) = (ok tt, w)
caught (r, w) = (r, w)

unfoldable pub try_switch : {S : Type 0} → Exec S (Unit {0}) → Exec S (Unit {0})
unfolding caught
try_switch m w = caught (m w)
