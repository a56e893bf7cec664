-- ===== src/Usb/Drivers.antt =====
-- Both drivers of src/adbd/usb_linux_client.c keep the contract of the transport.
use adbd.Base.{
  ℕ, zero, suc, ◌≤◌, ◌<◌, ◌≡◌, refl, sym, ap, ◌∙◌, inl, inr, true, List, [], ◌∷◌, ◌++◌, append-nil,
  append_assoc, arith, Bytes, ◌==◌, ==_iff, Bool-cases, length, take, drop, take-append-drop,
  take_all,
}
use adbd.Usb.{
  Completion, Endpoint, Reading, endpoint_read, usb_adb_read, Outlet, Writing, outlet_write, Write,
  bulk_write_loop, usb_ffs_write, usb_adb_write, ffs_driver, adb_driver, moves, fails, chunk,
  failed, blocked, took, refused, stuck, wrote_all, write_failed, write_waits, write_unfinished,
}
use adbd.Usb.Bulk.{Reads, Writes, IsFaithful, Splits, endpoint_read-Splits, usb_ffs_read-Reads}
use adbd.Io.{eintr, eagain, other}

-- A write that goes on puts the next `n` bytes behind what was there.
abbrev Takes : Bytes → Bytes → List Completion → Writing → Type 0
Takes bs out ps (took n o) =
    (o.written ≡ out ++ take n bs) × (n ≤ length bs) × (length o.plan < length ps)
Takes bs out ps (refused eintr o) = ⊥
Takes bs out ps (refused eagain o) = Unit
Takes bs out ps (refused other o) = Unit
Takes bs out ps stuck = Unit

Takes-suc :
    (bs out : Bytes) (p : Completion) (ps : List Completion) (w : Writing)
    → Takes bs out ps w
    → Takes bs out (p ∷ ps) w
Takes-suc bs out p ps (took n o) (a, b, c) = (a, b, omega arith)
Takes-suc bs out p ps (refused eintr o) h = h
Takes-suc bs out p ps (refused eagain o) h = tt
Takes-suc bs out p ps (refused other o) h = tt
Takes-suc bs out p ps stuck h = tt

outlet_write-Takes :
    (bs out : Bytes) (ps : List Completion) → Takes bs out ps (outlet_write bs out ps)
unfolding outlet_write
outlet_write-Takes bs out [] = tt
outlet_write-Takes bs out (moves n ∷ ps) = (refl, omega arith, omega arith)
outlet_write-Takes bs out (fails eintr ∷ ps) =
    Takes-suc bs out (fails eintr) ps (outlet_write bs out ps) (outlet_write-Takes bs out ps)
outlet_write-Takes bs out (fails eagain ∷ ps) = tt
outlet_write-Takes bs out (fails other ∷ ps) = tt

Writes-append :
    (front rest bs out out' : Bytes) (w : Write)
    → front ++ rest ≡ bs
    → out' ≡ out ++ front
    → Writes rest out' w
    → Writes bs out w
Writes-append front rest bs out out' (wrote_all o) e was h =
    h ∙ ap (λ u. u ++ rest) was ∙ append_assoc out front rest ∙ ap (λ u. out ++ u) e
Writes-append front rest bs out out' (write_failed o) e was h = tt
Writes-append front rest bs out out' write_waits e was h = tt
Writes-append front rest bs out out' write_unfinished e was h = h

bulk_write_loop-Writes :
    (f : ℕ) (bs out : Bytes) (ps : List Completion)
    → length ps < f
    → Writes bs out (bulk_write_loop f bs (record { written = out; plan = ps }))
unfolding bulk_write_loop
bulk_write_loop-Writes zero bs out ps hf = absurd (omega arith)
bulk_write_loop-Writes (suc f) bs out ps hf =
    go (outlet_write bs out ps) refl (outlet_write-Takes bs out ps) (bulk_write_loop-Writes f)
  where
    go :
        (w : Writing)
        → outlet_write bs out ps ≡ w
        → Takes bs out ps w
        → ((bs' out' : Bytes) (ps' : List Completion)
            → length ps' < f
            → Writes bs' out' (bulk_write_loop f bs' (record { written = out'; plan = ps' })))
        → Writes bs out (bulk_write_loop (suc f) bs (record { written = out; plan = ps }))
    go (took n o) q (was, fits, less) ih = rw (q, bulk_write_loop) (more (drop n bs) refl)
      where
        more :
            (rest : Bytes)
            → drop n bs ≡ rest
            → Writes bs out (elim rest [ [] ↦ wrote_all o | c ∷ cs ↦ bulk_write_loop f (c ∷ cs) o ])
        more [] l =
            Writes-append (take n bs) [] bs out o.written (wrote_all o)
              (ap (λ u. take n bs ++ u) (sym l) ∙ take-append-drop n bs) was
              (sym (append-nil (o.written)))
        more (c ∷ cs) l =
            Writes-append (take n bs) (c ∷ cs) bs out o.written (bulk_write_loop f (c ∷ cs) o)
              (ap (λ u. take n bs ++ u) (sym l) ∙ take-append-drop n bs) was
              (ih (c ∷ cs) o.written o.plan (omega arith))
    go (refused eintr o) q h ih = absurd h
    go (refused eagain o) q h ih = rw (q, bulk_write_loop) tt
    go (refused other o) q h ih = rw (q, bulk_write_loop) tt
    go stuck q h ih = rw (q, bulk_write_loop) tt

usb_adb_read-Reads : (len : ℕ) (e : Endpoint) → Reads len e.bytes (usb_adb_read len e)
unfolding usb_adb_read
usb_adb_read-Reads len e =
    go (endpoint_read len e.bytes e.plan) refl (endpoint_read-Splits len e.bytes e.plan)
  where
    go :
        (r : Reading)
        → endpoint_read len e.bytes e.plan ≡ r
        → Splits len e.bytes e.plan r
        → Reads len e.bytes (usb_adb_read len e)
    go (chunk bs e') q (split, fits, less) =
        rw (q, usb_adb_read)
          (elim (Bool-cases (length bs == len)) [
            | inl t ↦ rw t (split, (==_iff (length bs) len).0 t)
            | inr t ↦ rw t tt
          ])
    go (failed r e') q h = rw (q, usb_adb_read) tt
    go blocked q h = rw (q, usb_adb_read) tt

usb_adb_write-Writes : (bs : Bytes) (o : Outlet) → Writes bs o.written (usb_adb_write bs o)
unfolding usb_adb_write
usb_adb_write-Writes bs o =
    go (outlet_write bs o.written o.plan) refl (outlet_write-Takes bs o.written o.plan)
  where
    go :
        (w : Writing)
        → outlet_write bs o.written o.plan ≡ w
        → Takes bs o.written o.plan w
        → Writes bs o.written (usb_adb_write bs o)
    go (took n o') q (was, fits, less) =
        rw (q, usb_adb_write)
          (elim (Bool-cases (n == length bs)) [
            | inl t ↦ rw t (was ∙ ap (λ u. o.written ++ u) (take_all n bs (all t)))
            | inr t ↦ rw t tt
          ])
      where
        all : (n == length bs) ≡ true → length bs ≤ n
        all t = omega (arith, (==_iff n (length bs)).0 t)
    go (refused r o') q h = rw (q, usb_adb_write) tt
    go stuck q h = rw (q, usb_adb_write) tt

-- For each of the two drivers, whatever the calls on its endpoints do: a read of `len` bytes that
-- returns 0 has brought exactly the next `len` bytes of the endpoint and left the others, a write
-- that returns 0 has put exactly its bytes behind those written before, and the loops' fuel is
-- enough.
pub drivers-IsFaithful : IsFaithful ffs_driver × IsFaithful adb_driver
unfolding usb_ffs_write
drivers-IsFaithful = (
  record {
    reads = usb_ffs_read-Reads;
    writes = λ bs o. bulk_write_loop-Writes (suc (length o.plan)) bs o.written o.plan (omega arith);
  },
  record { reads = usb_adb_read-Reads; writes = usb_adb_write-Writes },
)
