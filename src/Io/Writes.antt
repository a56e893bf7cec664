-- ===== src/Io/Writes.antt =====
-- What `writex` of src/adbd/transport.c writes, for every plan of the kernel.
use adbd.Base.{
  All, ℕ, zero, suc, ◌+◌, ◌≤◌, ◌<◌, min, ◌≡◌, refl, sym, ap, ◌∙◌, List, [], ◌∷◌, ◌++◌, append-nil,
  append_assoc, arith, Bytes, length, take, drop, length-drop, take-add, take-append-drop,
}
use adbd.Io.{
  IsCalm, eintr, eagain, other, Turn, give, fault, Sink, Writing, took, refused, adb_write, Put,
  done, broken, exhausted, writex_loop, writex,
}

-- One call writes a prefix of the bytes, and says how long it is.
abbrev pub Takes : Bytes → Bytes → Writing → Type 0
Takes out bs (took n s) = (s.written ≡ out ++ take n bs) × (n ≤ length bs)
Takes out bs (refused eintr s) = ⊥
Takes out bs (refused eagain s) = s.written ≡ out
Takes out bs (refused other s) = s.written ≡ out

take-min : (n : ℕ) (bs : Bytes) → take (min n (length bs)) bs ≡ take n bs
take-min zero bs = let e : min zero (length bs) ≡ zero = omega arith in ap (λ k. take k bs) e
take-min (suc n) [] = let e : min (suc n) zero ≡ zero = omega arith in ap (λ k. take {A = ℕ} k []) e
take-min (suc n) (b ∷ bs) =
    let e : min (suc n) (suc (length bs)) ≡ suc (min n (length bs)) = omega arith in
    ap (λ k. take k (b ∷ bs)) e ∙ ap (◌∷◌ b) (take-min n bs)

pub adb_write-Takes : (bs out : Bytes) (ps : List Turn) → Takes out bs (adb_write bs out ps)
unfolding adb_write
adb_write-Takes bs out [] = (rw take-min, omega arith)
adb_write-Takes bs out (give n ∷ ps) = (rw take-min, omega arith)
adb_write-Takes bs out (fault eintr ∷ ps) = adb_write-Takes bs out ps
adb_write-Takes bs out (fault eagain ∷ ps) = refl
adb_write-Takes bs out (fault other ∷ ps) = refl

-- Every byte is written in order, or a prefix is and the result is -1; the fuel was enough.
abbrev pub Wrote : Bytes → Bytes → Put → Type 0
Wrote out bs (done s) = s.written ≡ out ++ bs
Wrote out bs (broken s) = (k : ℕ) × (s.written ≡ out ++ take k bs)
Wrote out bs exhausted = ⊥

writex_loop-Wrote :
    (f : ℕ) (bs out : Bytes) (ps : List Turn)
    → length bs < f
    → Wrote out bs (writex_loop f bs (record { written = out; plan = ps }))
unfolding writex_loop
writex_loop-Wrote zero bs out ps h = absurd (omega arith)
writex_loop-Wrote (suc f) [] out ps h = sym (append-nil out)
writex_loop-Wrote (suc f) (b ∷ bs) out ps h =
    go (adb_write (b ∷ bs) out ps) refl (adb_write-Takes (b ∷ bs) out ps) (writex_loop-Wrote f)
  where
    go :
        (w : Writing)
        → adb_write (b ∷ bs) out ps ≡ w
        → Takes out (b ∷ bs) w
        → ((bs' out' : Bytes) (ps' : List Turn)
            → length bs' < f
            → Wrote out' bs' (writex_loop f bs' (record { written = out'; plan = ps' })))
        → Wrote out (b ∷ bs) (writex_loop (suc f) (b ∷ bs) (record { written = out; plan = ps }))
    go (took zero s) e t ih = rw (e, writex_loop) (0, t.0)
    go (took (suc n) s) e t ih =
        rw (e, writex_loop)
          (join (writex_loop f (drop n bs) s)
            (ih (drop n bs) s.written s.plan (omega (arith, length-drop n bs))))
      where
        rejoin : (rest : Bytes) → s.written ++ rest ≡ out ++ (b ∷ (take n bs ++ rest))
        rejoin rest = rw t.0 (append_assoc out (b ∷ take n bs) rest)

        join : (p : Put) → Wrote s.written (drop n bs) p → Wrote out (b ∷ bs) p
        join (done s') x = x ∙ rejoin (drop n bs) ∙ ap (λ u. out ++ (b ∷ u)) (take-append-drop n bs)
        join (broken s') (k, x) = (
          suc (n + k),
          x ∙ rejoin (take k (drop n bs)) ∙ ap (λ u. out ++ (b ∷ u)) (sym (take-add n k bs)),
        )
        join exhausted x = x
    go (refused eintr s) e t ih = absurd t
    go (refused eagain s) e t ih = rw (e, writex_loop) (0, t ∙ sym (append-nil out))
    go (refused other s) e t ih = rw (e, writex_loop) (0, t ∙ sym (append-nil out))

-- Whatever the kernel does, `writex` ends; if it returns 0 it has written all bytes in order, and
-- if it returns -1 it has written a prefix of them.
pub writex-Wrote : (bs : Bytes) (s : Sink) → Wrote s.written bs (writex bs s)
unfolding writex
writex-Wrote bs s = writex_loop-Wrote (suc (length bs)) bs s.written s.plan (omega arith)

-- With a calm plan every call takes a byte at least, where there is one.
adb_write-took :
    (b : ℕ) (bs out : Bytes) (ps : List Turn)
    → All IsCalm ps
    → (m : ℕ) × (s : Sink) × (adb_write (b ∷ bs) out ps ≡ took (suc m) s) × All IsCalm s.plan
unfolding adb_write
adb_write-took b bs out [] calm =
    let e : min (suc (length bs)) (suc (length bs)) ≡ suc (length bs) = omega arith in
    (
      length bs,
      record { written = out ++ (b ∷ take (length bs) bs); plan = [] },
      ap (λ k. took k (record { written = out ++ (b ∷ take (length bs) bs); plan = [] })) e,
      tt,
    )
adb_write-took b bs out (give n ∷ ps) calm =
    let e : min (suc n) (suc (length bs)) ≡ suc (min n (length bs)) = omega arith in
    (
      min n (length bs),
      record { written = out ++ (b ∷ take n bs); plan = ps },
      ap (λ k. took k (record { written = out ++ (b ∷ take n bs); plan = ps })) e,
      calm.1,
    )
adb_write-took b bs out (fault eintr ∷ ps) calm = adb_write-took b bs out ps calm.1
adb_write-took b bs out (fault eagain ∷ ps) calm = absurd calm.0
adb_write-took b bs out (fault other ∷ ps) calm = absurd calm.0

abbrev IsDone : Put → Type 0
IsDone (done s) = All IsCalm s.plan
IsDone (broken s) = ⊥
IsDone exhausted = ⊥

writex_loop-IsDone :
    (f : ℕ) (bs : Bytes) (s : Sink)
    → length bs < f
    → All IsCalm s.plan
    → IsDone (writex_loop f bs s)
unfolding writex_loop
writex_loop-IsDone zero bs s h calm = absurd (omega arith)
writex_loop-IsDone (suc f) [] s h calm = calm
writex_loop-IsDone (suc f) (b ∷ bs) s h calm =
    let (m, s', e, calm') = adb_write-took b bs s.written s.plan calm in
    rw (e, writex_loop)
      (writex_loop-IsDone f (drop m bs) s' (omega (arith, length-drop m bs)) calm')

Put-done :
    (out bs : Bytes) (p : Put)
    → Wrote out bs p
    → IsDone p
    → (s' : Sink) × (p ≡ done s') × (s'.written ≡ out ++ bs) × All IsCalm s'.plan
Put-done out bs (done s') w d = (s', refl, w, d)
Put-done out bs (broken s') w d = absurd d
Put-done out bs exhausted w d = absurd d

-- If no call fails, but for EINTR, `writex` returns 0 with every byte written in order.
pub writex-done :
    (bs : Bytes) (s : Sink)
    → All IsCalm s.plan
    → (s' : Sink) × (writex bs s ≡ done s') × (s'.written ≡ s.written ++ bs) × All IsCalm s'.plan
writex-done bs s calm =
    Put-done s.written bs (writex bs s) (writex-Wrote bs s)
      (unfold writex in writex_loop-IsDone (suc (length bs)) bs s (omega arith) calm)
