-- ===== src/Registry/Turns.antt =====
-- The end of a transport's life (src/adbd/transport.c): `kick_transport` and `transport_unref`, by
-- threads that take turns. A turn ends where a thread gives the lock back, and behind the test that
-- `kick_transport` makes without it: the call of `t->kick` is a turn of its own.
use adbd.Base.{ℕ, zero, suc, ◌+◌, ◌-◌, Bool, true, false, List, [], ◌∷◌, ◌==◌, if◌then◌else◌}

-- The counter, the flag, and how often `t->kick`, `t->close` and `remove_transport` were called.
pub record Life : Type 0 where
  pub ref_count : ℕ
  pub kicked : Bool
  pub kicks : ℕ
  pub closes : ℕ
  pub removals : ℕ

-- Where a thread stands: in front of `kick_transport`; behind the first test of the flag; with the
-- flag set by it and `t->kick` to call; at `transport_unref`; at its end. The truth value says
-- whether it releases a reference afterwards, as the two threads of the transport do.
pub data Stage : Type 0 where
  ahead tested flagged : Bool → Stage
  releasing over : Stage

unfoldable pub after_kick : Bool → Stage
after_kick true = releasing
after_kick false = over

-- `transport_unref_locked`, with the lock held to its end.
unfoldable pub transport_unref : Life → Life
transport_unref t =
    let n = t.ref_count - 1 in
    if n == 0
    then record {
      ref_count = n;
      kicked = true;
      kicks = (if t.kicked then t.kicks else suc t.kicks);
      closes = suc t.closes;
      removals = suc t.removals;
    }
    else record t { ref_count = n }

-- The next turn of a thread: of `kick_transport` the test, what it does with the lock, and the call.
unfoldable pub kick_transport : Stage → Life → Stage × Life
unfolding after_kick
kick_transport (ahead u) t = if t.kicked then (after_kick u, t) else (tested u, t)
kick_transport (tested u) t =
    if t.kicked then (after_kick u, t) else (flagged u, record t { kicked = true })
kick_transport (flagged u) t = (after_kick u, record t { kicks = suc t.kicks })
kick_transport releasing t = (releasing, t)
kick_transport over t = (over, t)

unfoldable pub turn : Stage → Life → Stage × Life
unfolding kick_transport transport_unref
turn (ahead u) t = kick_transport (ahead u) t
turn (tested u) t = kick_transport (tested u) t
turn (flagged u) t = kick_transport (flagged u) t
turn releasing t = (over, transport_unref t)
turn over t = (over, t)

-- A turn of the thread with the given number, if there is one.
unfoldable pub turn_of : ℕ → List Stage → Life → List Stage × Life
unfolding turn
turn_of i [] t = ([], t)
turn_of zero (p ∷ ps) t = let r = turn p t in (r.0 ∷ ps, r.1)
turn_of (suc i) (p ∷ ps) t = let r = turn_of i ps t in (p ∷ r.0, r.1)

-- The turns of a schedule.
unfoldable pub moves : List ℕ → List Stage → Life → List Stage × Life
unfolding turn_of
moves [] ps t = (ps, t)
moves (i ∷ is) ps t = let r = turn_of i ps t in moves is r.0 r.1

-- As `transport_registration_func` leaves a transport: one reference for each of its two threads.
abbrev pub born : Life
born = record { ref_count = 2; kicked = false; kicks = 0; closes = 0; removals = 0 }

abbrev pub others : ℕ → List Stage
others zero = []
others (suc n) = ahead false ∷ others n

-- The transport's two threads, which kick and then release, and `n` other calls of `kick_transport`.
abbrev pub threads : ℕ → List Stage
threads n = ahead true ∷ (ahead true ∷ others n)

abbrev pub one_if : Bool → ℕ
one_if true = 1
one_if false = 0

-- Whether a thread has a reference, and whether it is about to call `t->kick`.
abbrev pub holds : Stage → ℕ
holds (ahead u) = one_if u
holds (tested u) = one_if u
holds (flagged u) = one_if u
holds releasing = 1
holds over = 0

abbrev pub calls : Stage → ℕ
calls (ahead u) = 0
calls (tested u) = 0
calls (flagged u) = 1
calls releasing = 0
calls over = 0

module _ (w : Stage → ℕ) where
  abbrev pub total : List Stage → ℕ
  total [] = 0
  total (p ∷ ps) = w p + total ps

-- The references that are held, and the threads that are about to call `t->kick`.
abbrev pub held : List Stage → ℕ
held = total holds

abbrev pub about_to_kick : List Stage → ℕ
about_to_kick = total calls

-- One when nothing is left.
abbrev pub gone : ℕ → ℕ
gone zero = 1
gone (suc n) = 0
