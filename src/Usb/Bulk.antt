-- ===== src/Usb/Bulk.antt =====
-- What `usb_ffs_read` and `usb_ffs_write` of src/adbd/usb_linux_client.c do with their endpoint,
-- and the contract that both drivers keep.
use adbd.Base.{
  ℕ, zero, suc, ◌+◌, ◌-◌, ◌≤◌, ◌<◌, min, ◌≡◌, refl, ap, ◌∙◌, List, [], ◌∷◌, ◌++◌, append_assoc,
  arith, Bytes, ==_iff, length, length-append, take-append-drop, length-take,
}
use adbd.Usb.{
  Completion, Endpoint, Reading, endpoint_read, Read, bulk_read_loop, usb_ffs_read, Outlet, Write,
  UsbDriver, moves, fails, chunk, failed, blocked, read_all, read_failed, read_waits,
  read_unfinished, wrote_all, write_failed, write_waits, write_unfinished,
}
use adbd.Io.{eintr, eagain, other}

-- A read that returns 0 has the next `len` bytes and leaves the others; one that does not promises
-- nothing; and the fuel was enough.
abbrev pub Reads : ℕ → Bytes → Read → Type 0
Reads len bs (read_all out e) = (out ++ e.bytes ≡ bs) × (length out ≡ len)
Reads len bs (read_failed e) = Unit
Reads len bs read_waits = Unit
Reads len bs read_unfinished = ⊥

-- A write that returns 0 has put the bytes behind what was there.
abbrev pub Writes : Bytes → Bytes → Write → Type 0
Writes bs out (wrote_all o) = o.written ≡ out ++ bs
Writes bs out (write_failed o) = Unit
Writes bs out write_waits = Unit
Writes bs out write_unfinished = ⊥

-- What the transport relies on of a driver.
pub record IsFaithful (d : UsbDriver) : Type 0 where
  pub reads : (len : ℕ) (e : Endpoint) → Reads len e.bytes (d.read len e)
  pub writes : (bs : Bytes) (o : Outlet) → Writes bs o.written (d.write bs o)

abbrev pub Splits : ℕ → Bytes → List Completion → Reading → Type 0
Splits len bs ps (chunk out e) =
    (out ++ e.bytes ≡ bs) × (length out ≤ len) × (length e.plan < length ps)
Splits len bs ps (failed eintr e) = ⊥
Splits len bs ps (failed eagain e) = Unit
Splits len bs ps (failed other e) = Unit
Splits len bs ps blocked = Unit

Splits-suc :
    (len : ℕ) (bs : Bytes) (p : Completion) (ps : List Completion) (r : Reading)
    → Splits len bs ps r
    → Splits len bs (p ∷ ps) r
Splits-suc len bs p ps (chunk out e) (a, b, c) = (a, b, omega arith)
Splits-suc len bs p ps (failed eintr e) h = h
Splits-suc len bs p ps (failed eagain e) h = tt
Splits-suc len bs p ps (failed other e) h = tt
Splits-suc len bs p ps blocked h = tt

pub endpoint_read-Splits :
    (len : ℕ) (bs : Bytes) (ps : List Completion) → Splits len bs ps (endpoint_read len bs ps)
unfolding endpoint_read
endpoint_read-Splits len bs [] = tt
endpoint_read-Splits len bs (moves n ∷ ps) =
    let m : ℕ = min n len in (take-append-drop m bs, omega (arith, length-take m bs), omega arith)
endpoint_read-Splits len bs (fails eintr ∷ ps) =
    Splits-suc len bs (fails eintr) ps (endpoint_read len bs ps) (endpoint_read-Splits len bs ps)
endpoint_read-Splits len bs (fails eagain ∷ ps) = tt
endpoint_read-Splits len bs (fails other ∷ ps) = tt

abbrev LoopReads : ℕ → Bytes → Bytes → Read → Type 0
LoopReads room acc bs (read_all out e) =
    (out ++ e.bytes ≡ acc ++ bs) × (length out ≡ length acc + room)
LoopReads room acc bs (read_failed e) = Unit
LoopReads room acc bs read_waits = Unit
LoopReads room acc bs read_unfinished = ⊥

LoopReads-append :
    (room left : ℕ) (acc cs bs bs' : Bytes) (r : Read)
    → cs ++ bs' ≡ bs
    → length cs + left ≡ room
    → LoopReads left (acc ++ cs) bs' r
    → LoopReads room acc bs r
LoopReads-append room left acc cs bs bs' (read_all out e) split count (x, y) =
    (x ∙ append_assoc acc cs bs' ∙ ap (λ u. acc ++ u) split, omega (arith, length-append acc cs))
LoopReads-append room left acc cs bs bs' (read_failed e) split count h = tt
LoopReads-append room left acc cs bs bs' read_waits split count h = tt
LoopReads-append room left acc cs bs bs' read_unfinished split count h = h

bulk_read_loop-LoopReads :
    (f room : ℕ) (acc bs : Bytes) (ps : List Completion)
    → length ps < f
    → LoopReads room acc bs (bulk_read_loop f room acc (record { bytes = bs; plan = ps }))
unfolding bulk_read_loop
bulk_read_loop-LoopReads zero room acc bs ps hf = absurd (omega arith)
bulk_read_loop-LoopReads (suc f) room acc bs ps hf =
    go (endpoint_read room bs ps) refl (endpoint_read-Splits room bs ps)
      (bulk_read_loop-LoopReads f)
  where
    go :
        (r : Reading)
        → endpoint_read room bs ps ≡ r
        → Splits room bs ps r
        → ((k : ℕ) (acc' bs' : Bytes) (ps' : List Completion)
            → length ps' < f
            → LoopReads k acc' bs' (bulk_read_loop f k acc' (record { bytes = bs'; plan = ps' })))
        → LoopReads room acc bs (bulk_read_loop (suc f) room acc (record { bytes = bs; plan = ps }))
    go (chunk cs e) q (split, fits, less) ih = rw (q, bulk_read_loop) (more (room - length cs) refl)
      where
        more :
            (left : ℕ)
            → room - length cs ≡ left
            → LoopReads room acc bs (elim left [
              | zero ↦ read_all (acc ++ cs) e
              | suc k ↦ bulk_read_loop f (suc k) (acc ++ cs) e
            ])
        more zero l =
            LoopReads-append room zero acc cs bs e.bytes (read_all (acc ++ cs) e) split
              (omega arith) (refl, omega arith)
        more (suc k) l =
            LoopReads-append room (suc k) acc cs bs e.bytes (bulk_read_loop f (suc k) (acc ++ cs) e)
              split (omega arith) (ih (suc k) (acc ++ cs) e.bytes e.plan (omega arith))
    go (failed eintr e) q h ih = absurd h
    go (failed eagain e) q h ih = rw (q, bulk_read_loop) tt
    go (failed other e) q h ih = rw (q, bulk_read_loop) tt
    go blocked q h ih = rw (q, bulk_read_loop) tt

-- A read of the functionfs driver, as its test of the count makes it.
pub usb_ffs_read-Reads : (len : ℕ) (e : Endpoint) → Reads len e.bytes (usb_ffs_read len e)
unfolding usb_ffs_read
usb_ffs_read-Reads len e =
    go (bulk_read_loop (suc (length e.plan)) len [] e) refl
      (bulk_read_loop-LoopReads (suc (length e.plan)) len [] e.bytes e.plan (omega arith))
  where
    go :
        (r : Read)
        → bulk_read_loop (suc (length e.plan)) len [] e ≡ r
        → LoopReads len [] e.bytes r
        → Reads len e.bytes (usb_ffs_read len e)
    go (read_all out e') q (x, y) =
        rw (q, usb_ffs_read, (==_iff (length out) len).1 (omega arith)) (x, omega arith)
    go (read_failed e') q h = rw (q, usb_ffs_read) tt
    go read_waits q h = rw (q, usb_ffs_read) tt
    go read_unfinished q h = absurd h
