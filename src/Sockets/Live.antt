-- ===== src/Sockets/Live.antt =====
-- The writing loop of src/adbd/sockets.c at a descriptor whose calls do not break.
use adbd.Base.{ℕ, zero, suc, ◌<◌, ◌≡◌, refl, Bool, List, [], ◌∷◌, arith, Bytes, drop, All}
use adbd.Io.{eintr, eagain, other, Turn, give, fault, Sink, Writing, took, refused, adb_write}
use adbd.Sockets.Transfer.{Flush, flushed, blocked, dead, unflushed, flush}

-- A descriptor whose calls may be short, interrupted or told to come back, but do not break.
abbrev pub IsLive : Turn → Type 0
IsLive (give n) = Unit
IsLive (fault eintr) = Unit
IsLive (fault eagain) = Unit
IsLive (fault other) = ⊥

abbrev pub Alive : Writing → Type 0
Alive (took n s) = (0 < n) × All IsLive s.plan
Alive (refused eintr s) = ⊥
Alive (refused eagain s) = All IsLive s.plan
Alive (refused other s) = ⊥

pub adb_write-Alive :
    (b : ℕ) (bs out : Bytes) (ps : List Turn) → All IsLive ps → Alive (adb_write (b ∷ bs) out ps)
unfolding adb_write
adb_write-Alive b bs out [] h = (omega arith, tt)
adb_write-Alive b bs out (give n ∷ ps) h = (omega arith, h.1)
adb_write-Alive b bs out (fault eintr ∷ ps) h = adb_write-Alive b bs out ps h.1
adb_write-Alive b bs out (fault eagain ∷ ps) h = h.1
adb_write-Alive b bs out (fault other ∷ ps) h = absurd h.0

abbrev pub NotDead : Flush → Type 0
NotDead (flushed s) = Unit
NotDead (blocked rest s) = Unit
NotDead (dead rest s) = ⊥
NotDead unflushed = Unit

pub flush-NotDead :
    (retry : Bool) (f : ℕ) (bs : Bytes) (s : Sink)
    → All IsLive s.plan
    → NotDead (flush retry f bs s)
unfolding flush
flush-NotDead retry zero bs s h = tt
flush-NotDead retry (suc f) [] s h = tt
flush-NotDead retry (suc f) (b ∷ bs) s h =
    go (adb_write (b ∷ bs) s.written s.plan) refl (adb_write-Alive b bs s.written s.plan h)
      (flush-NotDead retry f)
  where
    go :
        (w : Writing)
        → adb_write (b ∷ bs) s.written s.plan ≡ w
        → Alive w
        → ((bs' : Bytes) (s' : Sink) → All IsLive s'.plan → NotDead (flush retry f bs' s'))
        → NotDead (flush retry (suc f) (b ∷ bs) s)
    go (took zero s') e a ih = absurd (omega (arith, a.0))
    go (took (suc n) s') e a ih = rw (e, flush) (ih (drop n bs) s' a.1)
    go (refused eintr s') e a ih = absurd a
    go (refused eagain s') e a ih = rw (e, flush) tt
    go (refused other s') e a ih = absurd a
