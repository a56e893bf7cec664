-- ===== src/Jdwp/Reading.antt =====
-- What the read part of `jdwp_process_event` (src/adbd/jdwp_service.c) does with a process: the
-- buffer of its pid is never overrun, and the loops end.
use adbd.Base.{
  Option, none, some, ℕ, zero, suc, ◌+◌, ◌-◌, ◌≤◌, ◌<◌, min, ◌≡◌, refl, Bool, true, false, List, [],
  ◌∷◌, ◌++◌, arith, Bytes, length, length-append, length-take, length-drop,
}
use adbd.Io.{Turn, Source, Reading, eintr, eagain, other, give, fault, chunk, failed}
use adbd.Jdwp.Process.{
  ℤ, Process, Log, jdwp_process_free, scan_pid, recv, Filled, fill_in_buff, ignore_loop, ReadEnd,
  set_pid, read_unknown, read_known, kept, filled, paused, closing, unfilled, goes_on, returns,
  short_of_fuel,
}
use adbd.Jdwp.Fifo.{Delivers, free-Delivers}

-- A call of recv moves on: bytes off the front, or one answer of the plan.
abbrev Receives : ℕ → Bytes → List Turn → Reading → Type 0
Receives n bs ps (chunk out s) =
    (length out ≤ n) × (length out + length s.bytes ≡ length bs) × (length s.plan ≤ length ps)
Receives n bs ps (failed e s) = (length s.bytes ≡ length bs) × (length s.plan < length ps)

recv-Receives : (n : ℕ) (bs : Bytes) (ps : List Turn) → Receives n bs ps (recv n bs ps)
unfolding recv
recv-Receives n bs [] = (
  omega (arith, length-take n bs),
  omega (arith, length-take n bs, length-drop n bs),
  omega arith,
)
recv-Receives n bs (give k ∷ ps) =
    let m : ℕ = min (suc k) n in
    (
      omega (arith, length-take m bs),
      omega (arith, length-take m bs, length-drop m bs),
      omega arith,
    )
recv-Receives n bs (fault e ∷ ps) = (omega arith, omega arith)

-- A buffer that was filled has four bytes, one that was not has no more.
abbrev pub Fills : Filled → Type 0
Fills (filled buff) = length buff ≡ 4
Fills (paused buff) = length buff ≤ 4
Fills closing = Unit
Fills unfilled = ⊥

fill_in_buff-Fills :
    (f size : ℕ) (buff : Bytes) (bs : Bytes) (ps : List Turn)
    → size + length ps < f
    → length buff + size ≡ 4
    → Fills (fill_in_buff f size buff (record { bytes = bs; plan = ps }))
unfolding fill_in_buff
fill_in_buff-Fills zero size buff bs ps hf h = absurd (omega arith)
fill_in_buff-Fills (suc f) zero buff bs ps hf h = omega arith
fill_in_buff-Fills (suc f) (suc n) buff bs ps hf h =
    go (recv (suc n) bs ps) refl (recv-Receives (suc n) bs ps) (fill_in_buff-Fills f)
  where
    go :
        (r : Reading)
        → recv (suc n) bs ps ≡ r
        → Receives (suc n) bs ps r
        → ((size : ℕ) (buff : Bytes) (bs : Bytes) (ps : List Turn)
            → size + length ps < f
            → length buff + size ≡ 4
            → Fills (fill_in_buff f size buff (record { bytes = bs; plan = ps })))
        → Fills (fill_in_buff (suc f) (suc n) buff (record { bytes = bs; plan = ps }))
    go (chunk [] s) e h' ih = rw (e, fill_in_buff) tt
    go (chunk (c ∷ cs) s) e (fits, split, less) ih =
        rw (e, fill_in_buff)
          (ih (suc n - length (c ∷ cs)) (buff ++ (c ∷ cs)) s.bytes s.plan (omega arith)
            (omega (arith, length-append buff (c ∷ cs))))
    go (failed eintr s) e (same, less) ih =
        rw (e, fill_in_buff) (ih (suc n) buff s.bytes s.plan (omega arith) h)
    go (failed eagain s) e h' ih = rw (e, fill_in_buff) (omega arith)
    go (failed other s) e h' ih = rw (e, fill_in_buff) tt

-- The loop that ignores what comes ends.
abbrev pub Ends : Filled → Type 0
Ends (filled buff) = Unit
Ends (paused buff) = Unit
Ends closing = Unit
Ends unfilled = ⊥

ignore_loop-Ends :
    (f : ℕ) (bs : Bytes) (ps : List Turn)
    → length bs + length ps < f
    → Ends (ignore_loop f (record { bytes = bs; plan = ps }))
unfolding ignore_loop
ignore_loop-Ends zero bs ps hf = absurd (omega arith)
ignore_loop-Ends (suc f) bs ps hf =
    go (recv 32 bs ps) refl (recv-Receives 32 bs ps) (ignore_loop-Ends f)
  where
    go :
        (r : Reading)
        → recv 32 bs ps ≡ r
        → Receives 32 bs ps r
        → ((bs : Bytes) (ps : List Turn)
            → length bs + length ps < f
            → Ends (ignore_loop f (record { bytes = bs; plan = ps })))
        → Ends (ignore_loop (suc f) (record { bytes = bs; plan = ps }))
    go (chunk [] s) e h ih = rw (e, ignore_loop) tt
    go (chunk (c ∷ cs) s) e (fits, split, less) ih =
        rw (e, ignore_loop) (ih s.bytes s.plan (omega arith))
    go (failed eintr s) e (same, less) ih = rw (e, ignore_loop) (ih s.bytes s.plan (omega arith))
    go (failed eagain s) e h ih = rw (e, ignore_loop) tt
    go (failed other s) e h ih = rw (e, ignore_loop) tt

-- The read part leaves the queue as it is, or frees the process.
abbrev pub ReadDelivers : ℕ → List ℕ → ReadEnd → Type 0
ReadDelivers s q (goes_on a) = Delivers s q a
ReadDelivers s q (returns a) = Delivers s q a
ReadDelivers s q short_of_fuel = ⊥

module _ (s : ℕ) (q : List ℕ) (p : Process) (l : Log) (h : Delivers s q (kept false p l)) where
  -- A buffer that fits in place of the process's.
  buffered :
      (u : Bool) (n : ℤ) (buff : Bytes)
      → length buff ≤ 4
      → Delivers s q (kept u (record p { pid = n; in_buff = buff }) l)
  buffered u n buff fits = (
    record { slots = h.0.slots; in_slots = h.0.in_slots; watched = h.0.watched; in_buffer = fits },
    h.1,
    h.2,
    h.3,
  )

  set_pid-Delivers :
      (buff : Bytes) (o : Option ℤ)
      → length buff ≡ 4
      → ReadDelivers s q (set_pid (record p { in_buff = buff }) l o)
  unfolding jdwp_process_free set_pid
  set_pid-Delivers buff none fits =
      free-Delivers s q (record p { in_buff = buff }) l (buffered false p.pid buff (omega arith))
  set_pid-Delivers buff (some n) fits = buffered true n buff (omega arith)

  pub read_unknown-Delivers : (i : Source) → ReadDelivers s q (read_unknown p l i)
  unfolding read_unknown
  read_unknown-Delivers i =
      go (fill_in_buff (5 + length i.plan) (4 - length p.in_buff) p.in_buff i) (
        fill_in_buff-Fills (5 + length i.plan) (4 - length p.in_buff) p.in_buff i.bytes i.plan
          (omega arith) (omega (arith, h.0.in_buffer)))
    where
      go :
          (r : Filled)
          → Fills r
          → ReadDelivers s q (elim r [
            | filled buff ↦ set_pid (record p { in_buff = buff }) l (scan_pid buff)
            | paused buff ↦ returns (kept false (record p { in_buff = buff }) l)
            | closing ↦ returns (jdwp_process_free p l)
            | unfilled ↦ short_of_fuel
          ])
      go (filled buff) f = set_pid-Delivers buff (scan_pid buff) f
      go (paused buff) f = buffered false p.pid buff f
      go closing f = free-Delivers s q p l h
      go unfilled f = f

  pub read_known-Delivers : (i : Source) → ReadDelivers s q (read_known p l i)
  unfolding read_known
  read_known-Delivers i =
      go (ignore_loop (suc (length i.bytes + length i.plan)) i)
        (ignore_loop-Ends (suc (length i.bytes + length i.plan)) i.bytes i.plan (omega arith))
    where
      go :
          (r : Filled)
          → Ends r
          → ReadDelivers s q (elim r [
            | filled buff ↦ returns (kept false p l)
            | paused buff ↦ returns (kept false p l)
            | closing ↦ returns (jdwp_process_free p l)
            | unfilled ↦ short_of_fuel
          ])
      go (filled buff) f = h
      go (paused buff) f = h
      go closing f = free-Delivers s q p l h
      go unfilled f = f
