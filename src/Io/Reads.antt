-- ===== src/Io/Reads.antt =====
-- What `readx` of src/adbd/transport.c returns, for every plan of the kernel.
use adbd.Base.{
  ℕ, zero, suc, ◌+◌, ◌-◌, ◌≤◌, ◌<◌, min, ◌≡◌, refl, sym, ap, subst₂, ◌∙◌, List, [], ◌∷◌, ◌++◌,
  append-nil, append_assoc, arith, Bytes, length, take, drop, length-take, length-drop, take-add,
  drop-add, All, length-append, take-append-drop,
}
use adbd.Io.{
  eintr, eagain, other, Turn, give, fault, IsCalm, Source, Reading, chunk, failed, adb_read, Got,
  got, lost, unfinished, readx_loop, readx,
}

-- A call that does not fail takes bytes off the front, at least one where one is there.
pub adb_read-chunk :
    (n : ℕ) (bs : Bytes) (ps : List Turn)
    → All IsCalm ps
    → (m : ℕ) × (ps' : List Turn) × (adb_read (suc n) bs ps
        ≡ chunk (take (suc m) bs) (record { bytes = drop (suc m) bs; plan = ps' }))
      × (m ≤ n)
      × All IsCalm ps'
unfolding adb_read
adb_read-chunk n bs [] calm = (n, [], refl, omega arith, tt)
adb_read-chunk n bs (give k ∷ ps) calm =
    let e : min (suc k) (suc n) ≡ suc (min k n) = omega arith in
    (
      min k n,
      ps,
      ap (λ t. chunk (take t bs) (record { bytes = drop t bs; plan = ps })) e,
      omega arith,
      calm.1,
    )
adb_read-chunk n bs (fault eintr ∷ ps) calm = adb_read-chunk n bs ps calm.1
adb_read-chunk n bs (fault eagain ∷ ps) calm = absurd calm.0
adb_read-chunk n bs (fault other ∷ ps) calm = absurd calm.0

-- A run that got `bs` and left `rest`, with a plan that is still calm.
pub data Returns (bs rest : Bytes) : Got → Type 0 where
  returns :
      (ps : List Turn)
      → All IsCalm ps
      → Returns bs rest (got bs (record { bytes = rest; plan = ps }))

readx_loop-Returns :
    (f n : ℕ) (acc bs : Bytes) (ps : List Turn)
    → n < f
    → n ≤ length bs
    → All IsCalm ps
    → Returns (acc ++ take n bs) (drop n bs) (readx_loop f n acc (record { bytes = bs; plan = ps }))
unfolding readx_loop
readx_loop-Returns zero n acc bs ps hf hn calm = absurd (omega arith)
readx_loop-Returns (suc f) zero acc bs ps hf hn calm = rw append-nil (returns ps calm)
readx_loop-Returns (suc f) (suc n) acc [] ps hf hn calm = absurd (omega arith)
readx_loop-Returns (suc f) (suc n) acc (b ∷ bs) ps hf hn calm =
    let (m, ps', e, hm, calm') = adb_read-chunk n (b ∷ bs) ps calm in
    let k : ℕ = suc n - length (b ∷ take m bs) in
    let kn : k ≡ n - m = omega (arith, length-take m bs) in
    let total : m + k ≡ n = omega arith in
    let ih =
      readx_loop-Returns f k (acc ++ (b ∷ take m bs)) (drop m bs) ps' (omega arith)
        (omega (arith, length-drop m bs)) calm' in
    let front : (acc ++ (b ∷ take m bs)) ++ take k (drop m bs) ≡ acc ++ (b ∷ take n bs) =
      append_assoc acc (b ∷ take m bs) (take k (drop m bs))
      ∙ ap (λ t. acc ++ (b ∷ t)) (sym (take-add m k bs) ∙ ap (λ t. take t bs) total) in
    let back : drop k (drop m bs) ≡ drop n bs = sym (drop-add m k bs) ∙ ap (λ t. drop t bs) total in
    rw (e, readx_loop)
      (subst₂
        (λ x y.
          Returns x y
            (readx_loop f k (acc ++ (b ∷ take m bs)) (record { bytes = drop m bs; plan = ps' })))
        front back ih)

-- When the source has the bytes asked for and the plan has no failure other than EINTR: readx
-- returns exactly the first of them, whatever the sizes of the single reads, and leaves the others.
pub readx-Returns :
    (n : ℕ) (s : Source)
    → n ≤ length s.bytes
    → All IsCalm s.plan
    → Returns (take n s.bytes) (drop n s.bytes) (readx n s)
unfolding readx
readx-Returns n s hn calm = readx_loop-Returns (suc n) n [] s.bytes s.plan (omega arith) hn calm

-- A run with any plan: the bytes got and the bytes left are the bytes there were, and the count is
-- the one asked for; -1 promises nothing; and the fuel was enough.
abbrev pub Exact : ℕ → Bytes → Bytes → Got → Type 0
Exact n acc bs (got out s) = (out ++ s.bytes ≡ acc ++ bs) × (length out ≡ length acc + n)
Exact n acc bs (lost s) = Unit
Exact n acc bs unfinished = ⊥

abbrev pub Splits : ℕ → Bytes → Reading → Type 0
Splits len bs (chunk out s) = (out ++ s.bytes ≡ bs) × (length out ≤ len)
Splits len bs (failed eintr s) = ⊥
Splits len bs (failed eagain s) = Unit
Splits len bs (failed other s) = Unit

pub adb_read-Splits : (len : ℕ) (bs : Bytes) (ps : List Turn) → Splits len bs (adb_read len bs ps)
unfolding adb_read
adb_read-Splits len bs [] = (take-append-drop len bs, omega (arith, length-take len bs))
adb_read-Splits len bs (give n ∷ ps) =
    let m : ℕ = min (suc n) len in (take-append-drop m bs, omega (arith, length-take m bs))
adb_read-Splits len bs (fault eintr ∷ ps) = adb_read-Splits len bs ps
adb_read-Splits len bs (fault eagain ∷ ps) = tt
adb_read-Splits len bs (fault other ∷ ps) = tt

readx_loop-Exact :
    (f n : ℕ) (acc bs : Bytes) (ps : List Turn)
    → n < f
    → Exact n acc bs (readx_loop f n acc (record { bytes = bs; plan = ps }))
unfolding readx_loop
readx_loop-Exact zero n acc bs ps hf = absurd (omega arith)
readx_loop-Exact (suc f) zero acc bs ps hf = (refl, omega arith)
readx_loop-Exact (suc f) (suc n) acc bs ps hf =
    go (adb_read (suc n) bs ps) refl (adb_read-Splits (suc n) bs ps) (readx_loop-Exact f)
  where
    go :
        (r : Reading)
        → adb_read (suc n) bs ps ≡ r
        → Splits (suc n) bs r
        → ((k : ℕ) (acc' bs' : Bytes) (ps' : List Turn)
            → k < f
            → Exact k acc' bs' (readx_loop f k acc' (record { bytes = bs'; plan = ps' })))
        → Exact (suc n) acc bs (readx_loop (suc f) (suc n) acc (record { bytes = bs; plan = ps }))
    go (chunk [] s) e h ih = rw (e, readx_loop) tt
    go (chunk (c ∷ cs) s) e h ih =
        rw (e, readx_loop)
          (weaken (readx_loop f (suc n - length (c ∷ cs)) (acc ++ (c ∷ cs)) s)
            (ih (suc n - length (c ∷ cs)) (acc ++ (c ∷ cs)) s.bytes s.plan (omega arith)))
      where
        weaken :
            (g : Got)
            → Exact (suc n - length (c ∷ cs)) (acc ++ (c ∷ cs)) s.bytes g
            → Exact (suc n) acc bs g
        weaken (got out t) (x, y) = (
          x ∙ append_assoc acc (c ∷ cs) s.bytes ∙ ap (λ u. acc ++ u) h.0,
          omega (arith, length-append acc (c ∷ cs)),
        )
        weaken (lost t) x = tt
        weaken unfinished x = x
    go (failed eintr s) e h ih = absurd h
    go (failed eagain s) e h ih = rw (e, readx_loop) tt
    go (failed other s) e h ih = rw (e, readx_loop) tt

-- Whatever the kernel does, `readx` ends, and if it returns 0 it has read exactly `n` bytes off
-- the front of the stream and left the others.
pub readx-Exact : (n : ℕ) (s : Source) → Exact n [] s.bytes (readx n s)
unfolding readx
readx-Exact n s = readx_loop-Exact (suc n) n [] s.bytes s.plan (omega arith)
