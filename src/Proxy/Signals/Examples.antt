-- ===== src/Proxy/Signals/Examples.antt =====
-- pftp/proxy.go: runs of the goroutines of a session.
use pftp.Base.{false, ◌≡◌, ◌↔◌, refl}
use pftp.Proxy.Signals.Order.{is_passing, Reach-quiet}
use pftp.Proxy.Signals.Progress.{is_doomed, CanEnd}
use pftp.Proxy.Signals.Hang.{Reach-CanEnd, Reach-races}
use pftp.Proxy.Signals.{
  handing, selecting, stopping, asking, awaiting, Signals, Step, Reach, here, next, fresh, reads,
  hands, starts, takes_stop, suspends, switches,
}

-- a reply that has been read before the handler of USER asks the loop to stop
abbrev racing : Signals
racing = record {
  reader = handing;
  relay = selecting;
  switcher = asking;
  stop = false;
  pass_through = false;
}

racing-Reach : Reach fresh racing
racing-Reach =
    next
      (next (next (next (next here (starts refl refl refl)) (reads refl)) (hands refl refl))
        (suspends refl))
      (switches refl)

abbrev taken : Signals
taken = record {
  reader = handing;
  relay = stopping;
  switcher = awaiting;
  stop = false;
  pass_through = false;
}

Reach-quiet_example : (is_passing stopping ≡ false) × (taken.pass_through ≡ false)
Reach-quiet_example = Reach-quiet {y = taken} (next racing-Reach (takes_stop refl refl)) refl

Reach-CanEnd_example : CanEnd racing ↔ (is_doomed asking selecting handing ≡ false)
Reach-CanEnd_example = Reach-CanEnd racing racing-Reach

Reach-races_example : CanEnd racing × ((z : Signals) × Step racing z × ¬ CanEnd z)
Reach-races_example = Reach-races racing racing-Reach refl refl refl
