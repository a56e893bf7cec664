-- ===== src/Registry/Life.antt =====
-- How often a transport is kicked, closed and removed (src/adbd/transport.c), over the turns of its
-- threads.
use adbd.Registry.Outside.{moves-outside, others-outside, total-calls-holds}
use adbd.Registry.Turns.{
  Life, Stage, about_to_kick, after_kick, ahead, born, calls, flagged, gone, held, holds,
  kick_transport, moves, one_if, others, over, releasing, tested, threads, transport_unref, turn,
  turn_of,
}
use adbd.Base.{
  ℕ, zero, suc, ◌+◌, ◌-◌, ◌≤◌, ◌<◌, ◌≡◌, refl, ap, subst, Bool, true, false, List, [], ◌∷◌, arith,
  ◌==◌, if◌then◌else◌,
}

-- The counter agrees with the references; close and removal were asked for once if no reference is
-- left, else not at all; the kicks made and those that a thread is about to make are as many as the
-- flag says; and without references the flag is set.
record IsLife (refs about : ℕ) (t : Life) : Type 0 where
  pub counted : t.ref_count ≡ refs
  pub closed : t.closes ≡ gone refs
  pub removed : t.removals ≡ gone refs
  pub kicked_once : t.kicks + about ≡ one_if t.kicked
  pub kicked_first : gone refs ≤ one_if t.kicked

holds-after_kick : (u : Bool) → holds (after_kick u) ≡ one_if u
unfolding after_kick
holds-after_kick true = refl
holds-after_kick false = refl

calls-after_kick : (u : Bool) → calls (after_kick u) ≡ 0
unfolding after_kick
calls-after_kick true = refl
calls-after_kick false = refl

gone-held : (n : ℕ) → 0 < n → gone n ≡ 0
gone-held zero h = absurd (omega arith)
gone-held (suc n) h = refl

-- The state of one thread, with `r` references and `a` calls of the others.
abbrev Keeps : ℕ → ℕ → Stage × Life → Type 0
Keeps r a (p, t) = IsLife (holds p + r) (calls p + a) t

same-IsLife : {r r' a a' : ℕ} {t : Life} → r ≡ r' → a ≡ a' → IsLife r a t → IsLife r' a' t
same-IsLife {r} {r'} {a} {a'} {t} e f h =
    subst (λ r. IsLife r a' t) e (subst (λ a. IsLife r a t) f h)

after_kick-Keeps :
    (r a : ℕ) (u : Bool) (t : Life) → IsLife (one_if u + r) a t → Keeps r a (after_kick u, t)
unfolding after_kick
after_kick-Keeps r a true t h = same-IsLife refl (omega arith) h
after_kick-Keeps r a false t h = same-IsLife refl (omega arith) h

unref-IsLife : (r a : ℕ) (t : Life) → IsLife (suc r) a t → IsLife r a (transport_unref t)
unfolding transport_unref
unref-IsLife r a t h = go (t.ref_count - 1) r (omega (arith, h.counted)) t.kicked h.kicked_once
  where
    go :
        (n r : ℕ)
        → n ≡ r
        → (b : Bool) → t.kicks + a ≡ one_if b
        → IsLife r a (
            if n == 0
            then record {
              ref_count = n;
              kicked = true;
              kicks = (if b then t.kicks else suc t.kicks);
              closes = suc t.closes;
              removals = suc t.removals;
            }
            else record t { ref_count = n })
    go zero zero e true k = record {
      counted = refl;
      closed = ap suc h.closed;
      removed = ap suc h.removed;
      kicked_once = k;
      kicked_first = omega arith;
    }
    go zero zero e false k = record {
      counted = refl;
      closed = ap suc h.closed;
      removed = ap suc h.removed;
      kicked_once = omega (arith, k);
      kicked_first = omega arith;
    }
    go zero (suc r) e b k = absurd (omega arith)
    go (suc n) zero e b k = absurd (omega arith)
    go (suc n) (suc r) e b k =
        let more : (suc n == 0) ≡ false = ground arith in
        rw (more) (record {
          counted = e;
          closed = h.closed;
          removed = h.removed;
          kicked_once = h.kicked_once;
          kicked_first = omega arith;
        })

turn-Keeps :
    (r a : ℕ) (p : Stage) (t : Life) → IsLife (holds p + r) (calls p + a) t → Keeps r a (turn p t)
unfolding turn kick_transport
turn-Keeps r a (ahead u) t h = go t.kicked
  where
    go : (b : Bool) → Keeps r a (if b then (after_kick u, t) else (tested u, t))
    go true = after_kick-Keeps r a u t (same-IsLife refl (omega arith) h)
    go false = h
turn-Keeps r a (tested u) t h = go t.kicked refl
  where
    go :
        (b : Bool)
        → t.kicked ≡ b
        → Keeps r a (if b then (after_kick u, t) else (flagged u, record t { kicked = true }))
    go true e = after_kick-Keeps r a u t (same-IsLife refl (omega arith) h)
    go false e =
        let none_yet = ap one_if e in
        record {
          counted = h.counted;
          closed = h.closed;
          removed = h.removed;
          kicked_once = omega (arith, none_yet, h.kicked_once);
          kicked_first = omega (arith, none_yet, h.kicked_first);
        }
turn-Keeps r a (flagged u) t h =
    after_kick-Keeps r a u (record t { kicks = suc t.kicks })
      (record {
        counted = h.counted;
        closed = h.closed;
        removed = h.removed;
        kicked_once = omega (arith, h.kicked_once);
        kicked_first = h.kicked_first;
      })
turn-Keeps r a releasing t h =
    same-IsLife (omega arith) (omega arith)
      (unref-IsLife r (0 + a) t (same-IsLife (omega arith) refl h))
turn-Keeps r a over t h = h

turn_of-IsLife :
    (i : ℕ) (ps : List Stage) (t : Life) (r a : ℕ)
    → IsLife (held ps + r) (about_to_kick ps + a) t
    → IsLife (held (turn_of i ps t).0 + r) (about_to_kick (turn_of i ps t).0 + a) (turn_of i ps t).1
unfolding turn_of
turn_of-IsLife i [] t r a h = h
turn_of-IsLife zero (p ∷ ps) t r a h = same-IsLife (omega arith) (omega arith) (
    turn-Keeps (held ps + r) (about_to_kick ps + a) p t (same-IsLife (omega arith) (omega arith) h))
turn_of-IsLife (suc i) (p ∷ ps) t r a h =
    same-IsLife (omega arith) (omega arith) (
      turn_of-IsLife i ps t (holds p + r) (calls p + a) (same-IsLife (omega arith) (omega arith) h))

moves-IsLife :
    (is : List ℕ) (ps : List Stage) (t : Life)
    → IsLife (held ps) (about_to_kick ps) t
    → IsLife (held (moves is ps t).0) (about_to_kick (moves is ps t).0) (moves is ps t).1
unfolding moves
moves-IsLife [] ps t h = h
moves-IsLife (i ∷ is) ps t h = moves-IsLife is (turn_of i ps t).0 (turn_of i ps t).1 (
    same-IsLife (omega arith) (omega arith)
      (turn_of-IsLife i ps t 0 0 (same-IsLife (omega arith) (omega arith) h)))

others-idle : (n : ℕ) → (held (others n) ≡ 0) × (about_to_kick (others n) ≡ 0)
others-idle zero = (refl, refl)
others-idle (suc n) = let (h, c) = others-idle n in (omega (arith, h), omega (arith, c))

-- However the turns of the transport's two threads and of any number of other calls of
-- `kick_transport` are interleaved: while one of the two threads has not released its reference,
-- close and removal are not asked for, and once both have, each is asked for exactly once. The kicks
-- made and those that some thread has still to make add up to at most one, and once both references
-- are released to exactly one. And at most as many are still to make as there are other calls and
-- references: with no other call, as in this source, the kick has been made when the last goes.
pub moves-born :
    (n : ℕ) (is : List ℕ)
    → ((moves is (threads n) born).1.closes ≡ gone (held (moves is (threads n) born).0))
      × ((moves is (threads n) born).1.removals ≡ gone (held (moves is (threads n) born).0))
      × ((moves is (threads n) born).1.kicks + about_to_kick (moves is (threads n) born).0 ≤ 1)
      × (gone (held (moves is (threads n) born).0)
          ≤ (moves is (threads n) born).1.kicks + about_to_kick (moves is (threads n) born).0)
      × (about_to_kick (moves is (threads n) born).0 ≤ held (moves is (threads n) born).0 + n)
moves-born n is = (
  life.closed,
  life.removed,
  at_most (moves is (threads n) born).1.kicked life.kicked_once,
  omega (arith, life.kicked_once, life.kicked_first),
  omega (
    arith,
    total-calls-holds (moves is (threads n) born).0,
    moves-outside is (threads n) born,
    others-outside n,
  ),
)
  where
    start : IsLife (held (threads n)) (about_to_kick (threads n)) born
    start =
        let (h, c) = others-idle n in
        same-IsLife {r = 2} {a = 0} (omega (arith, h)) (omega (arith, c)) (record {
          counted = refl;
          closed = refl;
          removed = refl;
          kicked_once = refl;
          kicked_first = omega arith;
        })

    life :
        IsLife
          (held (moves is (threads n) born).0)
          (about_to_kick (moves is (threads n) born).0)
          (moves is (threads n) born).1
    life = moves-IsLife is (threads n) born start

    at_most : (b : Bool) {k : ℕ} → k ≡ one_if b → k ≤ 1
    at_most true e = omega arith
    at_most false e = omega arith
