-- ===== src/Registry/Outside.antt =====
-- Which threads can be about to call `t->kick` (src/adbd/transport.c): at most the calls from outside
-- and those that hold a reference.
use adbd.Registry.Turns.{
  Life, Stage, about_to_kick, after_kick, ahead, calls, flagged, held, holds, kick_transport, moves,
  one_if, others, over, releasing, tested, total, turn, turn_of,
}
use adbd.Base.{
  ℕ, zero, suc, ◌+◌, ◌-◌, ◌≤◌, ◌≡◌, refl, Bool, true, false, List, [], ◌∷◌, arith, if◌then◌else◌,
}

-- A call of `kick_transport` that no release follows, as long as it lasts.
abbrev pub outside : Stage → ℕ
outside (ahead u) = 1 - one_if u
outside (tested u) = 1 - one_if u
outside (flagged u) = 1 - one_if u
outside releasing = 0
outside over = 0

pub calls-holds : (p : Stage) → calls p ≤ holds p + outside p
calls-holds (ahead u) = omega arith
calls-holds (tested u) = omega arith
calls-holds (flagged true) = omega arith
calls-holds (flagged false) = omega arith
calls-holds releasing = omega arith
calls-holds over = omega arith

pub total-calls-holds : (ps : List Stage) → about_to_kick ps ≤ held ps + total outside ps
total-calls-holds [] = omega arith
total-calls-holds (p ∷ ps) = omega (arith, calls-holds p, total-calls-holds ps)

pub after_kick-outside : (u : Bool) → outside (after_kick u) ≤ 1 - one_if u
unfolding after_kick
after_kick-outside true = omega arith
after_kick-outside false = omega arith

pub turn-outside : (p : Stage) (t : Life) → outside (turn p t).0 ≤ outside p
unfolding turn kick_transport
turn-outside (ahead u) t = go t.kicked
  where
    go :
        (b : Bool)
        → outside (if◌then◌else◌ {A = Stage × Life} b (after_kick u, t) (tested u, t)).0
          ≤ 1 - one_if u
    go true = after_kick-outside u
    go false = omega arith
turn-outside (tested u) t = go t.kicked
  where
    go :
        (b : Bool)
        → outside
            (if◌then◌else◌ {A = Stage × Life} b
              (after_kick u, t)
              (flagged u, record t { kicked = true })).0
          ≤ 1 - one_if u
    go true = after_kick-outside u
    go false = omega arith
turn-outside (flagged u) t = after_kick-outside u
turn-outside releasing t = omega arith
turn-outside over t = omega arith

pub turn_of-outside :
    (i : ℕ) (ps : List Stage) (t : Life) → total outside (turn_of i ps t).0 ≤ total outside ps
unfolding turn_of
turn_of-outside i [] t = omega arith
turn_of-outside zero (p ∷ ps) t = omega (arith, turn-outside p t)
turn_of-outside (suc i) (p ∷ ps) t = omega (arith, turn_of-outside i ps t)

pub moves-outside :
    (is : List ℕ) (ps : List Stage) (t : Life) → total outside (moves is ps t).0 ≤ total outside ps
unfolding moves
moves-outside [] ps t = omega arith
moves-outside (i ∷ is) ps t =
    omega (arith, turn_of-outside i ps t, moves-outside is (turn_of i ps t).0 (turn_of i ps t).1)

pub others-outside : (n : ℕ) → total outside (others n) ≡ n
others-outside zero = refl
others-outside (suc n) = omega (arith, others-outside n)
