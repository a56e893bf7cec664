-- ===== src/Jdwp/Runs.antt =====
-- A JDWP process (src/adbd/jdwp_service.c) over any sequence of connections and events.
use adbd.Jdwp.Handling.{Handles, connect_process-Delivers, jdwp_process_event-Handles, taken_on}
use adbd.Base.{All}
use adbd.Jdwp.Process.{After, negsuc, freed}
use adbd.Jdwp.Passing.{Event, jdwp_process_event}
use adbd.Base.{Option, none, some, ℕ, ◌≡◌, refl, true, false, List, [], ◌∷◌, ◌++◌, arith}
use adbd.Jdwp.Process.{Process, Log, kept}
use adbd.Jdwp.Passing.{connect_process}
use adbd.Jdwp.Fifo.{Delivers}

-- What can happen to a process: a service asks for a connection, or the event loop calls.
pub data Action : Type 0 where
  connects : Option (ℕ × ℕ) → Action
  happens : Event → Action

-- The actions in turn, until the process is freed; `q` collects what is accepted.
unfoldable pub run : Process → Log → List ℕ → List Action → Option (After × List ℕ)
unfolding connect_process jdwp_process_event
run p l q [] = some (kept false p l, q)
run p l q (connects pair ∷ rest) =
    let r = connect_process p pair in run r.1 l (q ++ taken_on r pair) rest
run p l q (happens e ∷ rest) = elim (jdwp_process_event p l e) [
  | none ↦ none
  | some (kept u p' l') ↦ run p' l' q rest
  | some (freed l') ↦ some (freed l', q)
]

-- fcntl puts the flags of the socket back.
abbrev pub Restores : Action → Type 0
Restores (connects pair) = Unit
Restores (happens e) = e.calls.restored ≡ true

-- Everything accepted, to the end of the run.
abbrev pub Served : ℕ → Option (After × List ℕ) → Type 0
Served s none = ⊥
Served s (some (a, q)) = Delivers s q a

run-Served :
    (s : ℕ) (q : List ℕ) (p : Process) (l : Log) (actions : List Action)
    → All Restores actions
    → Delivers s q (kept false p l)
    → Served s (run p l q actions)
unfolding run
run-Served s q p l [] r h = h
run-Served s q p l (connects pair ∷ rest) r h =
    run-Served s (q ++ taken_on (connect_process p pair) pair) (connect_process p pair).1 l rest r.1
      (connect_process-Delivers s q p l pair h)
run-Served s q p l (happens e ∷ rest) r h =
    go (jdwp_process_event p l e) (jdwp_process_event-Handles s q p l e r.0 h)
      (λ p' l' h'. run-Served s q p' l' rest r.1 h')
  where
    go :
        (o : Option After)
        → Handles s q o
        → ((p' : Process) (l' : Log)
            → Delivers s q (kept false p' l')
            → Served s (run p' l' q rest))
        → Served s (elim o [
          | none ↦ none
          | some (kept u p' l') ↦ run p' l' q rest
          | some (freed l') ↦ some (freed l', q)
        ])
    go none h' ih = h'
    go (some (kept u p' l')) h' ih = ih p' l' h'
    go (some (freed l')) h' ih = h'

-- A process that has just connected.
abbrev pub connected : ℕ → Process
connected s = record {
  pid = negsuc 0;
  socket = s;
  in_buff = [];
  out_fds = 0 ∷ 0 ∷ 0 ∷ 0 ∷ [];
  out_count = 0;
  writable = false;
}

abbrev pub quiet : Log
quiet = record { closed = []; passed = [] }

-- For a JDWP process that has just connected, through any connections that services ask for and any
-- events with any results of their calls, save that fcntl never fails to put the flags of the
-- socket back: the process behaves as a queue of at most four descriptors. Those accepted have been
-- passed on or wait, in the order of their acceptance; FDE_WRITE is asked for exactly while one
-- waits; the buffer of the pid holds no more than its four bytes; each that was passed on is closed
-- once, in that order; a process that is freed has closed its socket and each that waited, once; and
-- the read loops end.
pub run-connected-Served :
    (s : ℕ) (actions : List Action)
    → All Restores actions
    → Served s (run (connected s) quiet [] actions)
run-connected-Served s actions r = run-Served s [] (connected s) quiet actions r (
  record { slots = refl; in_slots = omega arith; watched = refl; in_buffer = omega arith },
  refl,
  refl,
  refl,
)
