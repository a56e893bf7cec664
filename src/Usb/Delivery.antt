-- ===== src/Usb/Delivery.antt =====
-- The functionfs driver of src/adbd/usb_linux_client.c brings what it is asked for once the host has
-- sent it, and a packet that one side writes the other reads.
use adbd.Base.{
  ℕ, zero, suc, ◌+◌, ◌-◌, ◌≤◌, ◌<◌, min, ◌≡◌, refl, sym, ap, ◌∙◌, List, [], ◌∷◌, ◌++◌, append_assoc,
  arith, Bytes, All, ==_iff, length, take, drop, length-take, length-drop, take-add, drop-add,
}
use adbd.Usb.{
  Completion, Endpoint, Reading, endpoint_read, Read, bulk_read_loop, usb_ffs_read, moves, fails,
  chunk, read_all,
}
use adbd.Io.{eintr, eagain, other}

-- No call fails, but for EINTR.
abbrev pub IsRunning : Completion → Type 0
IsRunning (moves n) = Unit
IsRunning (fails eintr) = Unit
IsRunning (fails eagain) = ⊥
IsRunning (fails other) = ⊥

-- How many of the calls move a byte.
abbrev pub progress : List Completion → ℕ
progress [] = 0
progress (moves zero ∷ ps) = progress ps
progress (moves (suc n) ∷ ps) = suc (progress ps)
progress (fails e ∷ ps) = progress ps

-- A call that returns with `k` bytes at most `n`, and the plan behind it.
record Moved (n : ℕ) (bs : Bytes) (ps : List Completion) (r : Reading) : Type 0 where
  k : ℕ
  rest : List Completion
  result : r ≡ chunk (take k bs) (record { bytes = drop k bs; plan = rest })
  fits : k ≤ n
  running : All IsRunning rest
  less : progress ps ≤ progress rest + k
  shorter : length rest < length ps

endpoint_read-Moved :
    (n : ℕ) (bs : Bytes) (ps : List Completion)
    → All IsRunning ps
    → 0 < n
    → 0 < progress ps
    → Moved n bs ps (endpoint_read n bs ps)
unfolding endpoint_read
endpoint_read-Moved n bs [] run pos h = absurd (omega arith)
endpoint_read-Moved n bs (moves zero ∷ ps) run pos h = record {
  k = min 0 n;
  rest = ps;
  result = refl;
  fits = omega arith;
  running = run.1;
  less = omega arith;
  shorter = omega arith;
}
endpoint_read-Moved n bs (moves (suc m) ∷ ps) run pos h = record {
  k = min (suc m) n;
  rest = ps;
  result = refl;
  fits = omega arith;
  running = run.1;
  less = omega arith;
  shorter = omega arith;
}
endpoint_read-Moved n bs (fails eintr ∷ ps) run pos h =
    let i = endpoint_read-Moved n bs ps run.1 pos h in
    record {
      k = i.k;
      rest = i.rest;
      result = i.result;
      fits = i.fits;
      running = i.running;
      less = i.less;
      shorter = omega (arith, i.shorter);
    }
endpoint_read-Moved n bs (fails eagain ∷ ps) run pos h = absurd run.0
endpoint_read-Moved n bs (fails other ∷ ps) run pos h = absurd run.0

-- A read that has brought the bytes `out`, with `bs` left to read and `spare` moving calls left.
pub record Brings (out bs : Bytes) (spare : ℕ) (r : Read) : Type 0 where
  pub rest : List Completion
  pub result : r ≡ read_all out (record { bytes = bs; plan = rest })
  pub running : All IsRunning rest
  pub enough : spare ≤ progress rest

bulk_read_loop-Brings :
    (f n spare : ℕ) (acc bs : Bytes) (ps : List Completion)
    → length ps < f
    → All IsRunning ps
    → 0 < n
    → n ≤ length bs
    → n + spare ≤ progress ps
    → Brings
        (acc ++ take n bs)
        (drop n bs)
        spare
        (bulk_read_loop f n acc (record { bytes = bs; plan = ps }))
unfolding bulk_read_loop
bulk_read_loop-Brings zero n spare acc bs ps hf run pos there h = absurd (omega arith)
bulk_read_loop-Brings (suc f) n spare acc bs ps hf run pos there h =
    let m = endpoint_read-Moved n bs ps run pos (omega arith) in
    rw (m.result, bulk_read_loop)
      (more m.k m.rest m.fits m.running m.less m.shorter (n - length (take m.k bs)) refl
        (bulk_read_loop-Brings f))
  where
    more :
        (k : ℕ) (rest : List Completion)
        → k ≤ n
        → All IsRunning rest
        → progress ps ≤ progress rest + k
        → length rest < length ps
        → (left : ℕ) → n - length (take k bs) ≡ left
        → ((n' spare' : ℕ) (acc' bs' : Bytes) (ps' : List Completion)
            → length ps' < f
            → All IsRunning ps'
            → 0 < n'
            → n' ≤ length bs'
            → n' + spare' ≤ progress ps'
            → Brings
                (acc' ++ take n' bs')
                (drop n' bs')
                spare'
                (bulk_read_loop f n' acc' (record { bytes = bs'; plan = ps' })))
        → Brings (acc ++ take n bs) (drop n bs) spare (elim left [
          | zero ↦ read_all (acc ++ take k bs) (record { bytes = drop k bs; plan = rest })
          | suc j ↦
              bulk_read_loop f
                (suc j)
                (acc ++ take k bs)
                (record { bytes = drop k bs; plan = rest })
        ])
    more k rest fits running less shorter zero l ih =
        let all : k ≡ n = omega (arith, length-take k bs) in
        record { rest = rest; result = rw all refl; running = running; enough = omega arith }
    more k rest fits running less shorter (suc j) l ih =
        let total : k + suc j ≡ n = omega (arith, length-take k bs) in
        let front : (acc ++ take k bs) ++ take (suc j) (drop k bs) ≡ acc ++ take n bs =
          append_assoc acc (take k bs) (take (suc j) (drop k bs))
          ∙ ap (λ t. acc ++ t) (sym (take-add k (suc j) bs) ∙ ap (λ t. take t bs) total) in
        let back : drop (suc j) (drop k bs) ≡ drop n bs =
          sym (drop-add k (suc j) bs) ∙ ap (λ t. drop t bs) total in
        let i =
          ih (suc j) spare (acc ++ take k bs) (drop k bs) rest (omega arith) running (omega arith)
            (omega (arith, length-drop k bs)) (omega arith) in
        record {
          rest = i.rest;
          result = i.result ∙ rw (front, back) refl;
          running = i.running;
          enough = i.enough;
        }

pub usb_ffs_read-Brings :
    (n spare : ℕ) (e : Endpoint)
    → All IsRunning e.plan
    → 0 < n
    → n ≤ length e.bytes
    → n + spare ≤ progress e.plan
    → Brings (take n e.bytes) (drop n e.bytes) spare (usb_ffs_read n e)
unfolding usb_ffs_read
usb_ffs_read-Brings n spare e run pos there h =
    let i =
      bulk_read_loop-Brings (suc (length e.plan)) n spare [] e.bytes e.plan (omega arith) run pos
        there h in
    rw
      (
        i.result,
        usb_ffs_read,
        (==_iff (length (take n e.bytes)) n).1 (omega (arith, length-take n e.bytes)),
      )
      (record { rest = i.rest; result = refl; running = i.running; enough = i.enough })
