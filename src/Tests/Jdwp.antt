-- ===== src/Tests/Jdwp.antt =====
-- A JDWP process and the control socket at concrete values.
use adbd.Jdwp.Control.{Settled, jdwp_control_init, control_bind, jdwp_control_init-Settled}
use adbd.Base.{none, some, ◌≡◌, refl, true, false, List, [], ◌∷◌, codes}
use adbd.Io.{eintr, give, fault}
use adbd.Jdwp.Process.{scan_pid, pos, negsuc, freed}
use adbd.Jdwp.Passing.{Calls, Event}
use adbd.Jdwp.Runs.{Action, run, Served, connected, quiet, run-connected-Served, connects, happens}

abbrev good_calls : Calls
good_calls = record { getfl = true; setfl = true; sends = eintr ∷ []; restored = true }

-- The pid comes in two pieces, with an interruption between them.
abbrev pid_comes : Event
pid_comes = record {
  readable = true;
  can_write = true;
  input = record { bytes = codes "01a7"; plan = give 1 ∷ (fault eintr ∷ (give 7 ∷ [])) };
  calls = good_calls;
}

abbrev writes : Event
writes = record {
  readable = false;
  can_write = true;
  input = record { bytes = []; plan = [] };
  calls = good_calls;
}

-- The process ends, with one descriptor still waiting.
abbrev hangs_up : Event
hangs_up = record {
  readable = true;
  can_write = true;
  input = record { bytes = []; plan = [] };
  calls = good_calls;
}

abbrev actions : List Action
actions =
    happens pid_comes
    ∷ (connects (some (20, 21))
        ∷ (connects (some (22, 23))
            ∷ (happens writes
                ∷ (connects (some (24, 25)) ∷ (happens writes ∷ (happens hangs_up ∷ []))))))

run-connected-Served_example : Served 9 (run (connected 9) quiet [] actions)
run-connected-Served_example =
    run-connected-Served 9 actions (refl, (tt, (tt, (refl, (tt, (refl, (refl, tt)))))))

-- The first two have gone through, and the third is closed with the process.
run_delivers :
    run (connected 9) quiet [] actions
    ≡ some (
      freed (record { closed = 21 ∷ 23 ∷ 9 ∷ 25 ∷ []; passed = 21 ∷ 23 ∷ [] }),
      21 ∷ 23 ∷ 25 ∷ [],
    )
unfolding run
run_delivers = refl

scan_pid_tests :
    (scan_pid (codes "01a7") ≡ some (pos 423))
    × (scan_pid (codes " -2x") ≡ some (negsuc 1))
    × (scan_pid (codes "0x1f") ≡ some (pos 31))
    × (scan_pid (codes "zzzz") ≡ none)
unfolding scan_pid
scan_pid_tests = (refl, refl, refl, refl)

-- fdevent_create fails.
jdwp_control_init-Settled_example : Settled (3 ∷ []) (none, 3 ∷ [])
unfolding jdwp_control_init control_bind
jdwp_control_init-Settled_example =
    jdwp_control_init-Settled
      (record { sock = some 7; bound = true; listening = true; created = false }) 13 (3 ∷ [])
