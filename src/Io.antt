-- ===== src/Io.antt =====
-- The descriptor input and output of src/adbd/sysdeps.h (adb_read, adb_write) and of
-- src/adbd/transport.c (readx, writex). The kernel is an argument: a stream carries the bytes that
-- the peer sends and a plan of what each system call does; with no plan left a call moves all that
-- it can. Both loops run on fuel, one round for each byte asked for and one more.
pub mod Reads
pub mod Writes
use adbd.Base.{
  ℕ, zero, suc, ◌+◌, ◌-◌, ◌≡◌, min, Bool, true, false, List, [], ◌∷◌, ◌++◌, ◌==◌, if◌then◌else◌,
  Bytes, length, take, drop, All,
}

-- The values of errno that the sources tell apart.
pub data Errno : Type 0 where
  eintr eagain other : Errno

-- What one system call does: it moves `suc n` bytes at most, or fails.
pub data Turn : Type 0 where
  give : ℕ → Turn
  fault : Errno → Turn

-- The part of a plan that a theorem about success assumes: no call fails, but for EINTR.
abbrev pub IsCalm : Turn → Type 0
IsCalm (give n) = Unit
IsCalm (fault eintr) = Unit
IsCalm (fault eagain) = ⊥
IsCalm (fault other) = ⊥

pub record Source : Type 0 where
  pub bytes : Bytes
  pub plan : List Turn

-- What `read` returns, with the source behind it. No bytes is the end of the stream.
pub data Reading : Type 0 where
  chunk : Bytes → Source → Reading
  failed : Errno → Source → Reading

abbrev pub deliver : ℕ → Bytes → List Turn → Reading
deliver n bs ps = chunk (take n bs) (record { bytes = drop n bs; plan = ps })

-- `adb_read` on the bytes and the plan of a source: TEMP_FAILURE_RETRY repeats the call on EINTR.
unfoldable pub adb_read : ℕ → Bytes → List Turn → Reading
adb_read len bs [] = deliver len bs []
adb_read len bs (give n ∷ ps) = deliver (min (suc n) len) bs ps
adb_read len bs (fault eintr ∷ ps) = adb_read len bs ps
adb_read len bs (fault eagain ∷ ps) = failed eagain (record { bytes = bs; plan = ps })
adb_read len bs (fault other ∷ ps) = failed other (record { bytes = bs; plan = ps })

-- How `readx` ends: with the bytes, with -1, or short of fuel.
pub data Got : Type 0 where
  got : Bytes → Source → Got
  lost : Source → Got
  unfinished : Got

-- The loop of `readx`: `acc` stands in front of `p`, and `len` is what is left to read.
readx_loop : ℕ → ℕ → Bytes → Source → Got
readx_loop zero len acc s = unfinished
readx_loop (suc f) zero acc s = got acc s
readx_loop (suc f) (suc n) acc s = elim (adb_read (suc n) s.bytes s.plan) [
  | chunk [] s' ↦ lost s'
  | chunk (b ∷ bs) s' ↦ readx_loop f (suc n - length (b ∷ bs)) (acc ++ (b ∷ bs)) s'
  | failed eintr s' ↦ readx_loop f (suc n) acc s'
  | failed eagain s' ↦ lost s'
  | failed other s' ↦ lost s'
]

unfoldable pub readx : ℕ → Source → Got
unfolding readx_loop adb_read
readx len s = readx_loop (suc len) len [] s

pub record Sink : Type 0 where
  pub written : Bytes
  pub plan : List Turn

-- What `write` returns: the count of bytes taken, or -1.
pub data Writing : Type 0 where
  took : ℕ → Sink → Writing
  refused : Errno → Sink → Writing

abbrev accept : ℕ → Bytes → Bytes → List Turn → Writing
accept n bs out ps = took (min n (length bs)) (record { written = out ++ take n bs; plan = ps })

-- `adb_write` of the bytes `bs` onto what is written, `out`.
unfoldable pub adb_write : Bytes → Bytes → List Turn → Writing
adb_write bs out [] = accept (length bs) bs out []
adb_write bs out (give n ∷ ps) = accept (suc n) bs out ps
adb_write bs out (fault eintr ∷ ps) = adb_write bs out ps
adb_write bs out (fault eagain ∷ ps) = refused eagain (record { written = out; plan = ps })
adb_write bs out (fault other ∷ ps) = refused other (record { written = out; plan = ps })

-- How `writex` ends: with 0, with -1, or short of fuel.
pub data Put : Type 0 where
  done : Sink → Put
  broken : Sink → Put
  exhausted : Put

writex_loop : ℕ → Bytes → Sink → Put
writex_loop zero bs s = exhausted
writex_loop (suc f) [] s = done s
writex_loop (suc f) (b ∷ bs) s = elim (adb_write (b ∷ bs) s.written s.plan) [
  | took zero s' ↦ broken s'
  | took (suc n) s' ↦ writex_loop f (drop (suc n) (b ∷ bs)) s'
  | refused eintr s' ↦ writex_loop f (b ∷ bs) s'
  | refused eagain s' ↦ broken s'
  | refused other s' ↦ broken s'
]

unfoldable pub writex : Bytes → Sink → Put
unfolding writex_loop adb_write
writex bs s = writex_loop (suc (length bs)) bs s
