-- ===== src/Framebuffer/Frames.antt =====
-- Which part of a picture `framebuffer_service` (src/adbd/framebuffer_service.c) delivers.
use adbd.Base.{
  take_all, Bool-cases, inl, inr, ltb→lt, take-append-drop, length-append, length-append,
  take-append-drop, some, ℕ, zero, suc, ◌+◌, ◌-◌, ◌%◌, ◌^◌, ◌<◌, ◌≤◌, ◌≡◌, ◌≢◌, refl, sym, ap, ◌∙◌,
  subst, true, false, List, [], ◌∷◌, ◌++◌, append-nil, append_assoc, Bytes, All, ltb, arith, length,
  take, drop, length-drop,
}
use adbd.Io.{Turn, IsCalm, Source, Got, got, lost, unfinished, readx, Sink}
use adbd.Io.Reads.{Returns, returns, readx-Returns, readx-Exact, Exact}
use adbd.Io.Writes.{writex-done}
use adbd.Packet.RoundTrip.{Returns-got}
use adbd.Packet.Wire.{le32}
use adbd.Framebuffer.{
  described, short_of_fuel, int_at, pass_on, Fbinfo, fbinfo_bytes, pixel_format, Copying, copied,
  stopped, copy_chunk, then_copy, copy_loop, copy_frame, read_int, framebuffer_service,
}

-- What becomes of a picture of which nothing is sent yet: it is delivered whole if its bytes fill
-- buffers of 640 bytes; else the copy stops with the bytes that fill none unsent.
pub data Frames (was frame : Bytes) : Copying → Type 0 where
  whole :
      (s : Source) (k : Sink)
      → length frame % 640 ≡ 0
      → k.written ≡ was ++ frame
      → Frames was frame (copied s k)
  cut :
      (k : Sink)
      → length frame % 640 ≢ 0
      → k.written ≡ was ++ take (length frame - length frame % 640) frame
      → Frames was frame (stopped k)

chunk_passes :
    (n : ℕ) (bs : Bytes) (ps : List Turn) (out : Sink)
    → n ≤ length bs
    → All IsCalm ps
    → All IsCalm out.plan
    → (ps' : List Turn) × (k : Sink) × (copy_chunk n (record { bytes = bs; plan = ps }) out
        ≡ copied (record { bytes = drop n bs; plan = ps' }) k)
      × (k.written ≡ out.written ++ take n bs)
      × All IsCalm ps'
      × All IsCalm k.plan
unfolding copy_chunk
chunk_passes n bs ps out h c d =
    let (ps', e, c') = Returns-got (readx-Returns n (record { bytes = bs; plan = ps }) h c) in
    let (k, w, was, d') = writex-done (take n bs) out d in (ps', k, rw e (rw w refl), was, c', d')

chunk_stops :
    (n : ℕ) (src : Source) (out : Sink) → length src.bytes < n → copy_chunk n src out ≡ stopped out
unfolding copy_chunk
chunk_stops n src out h = go (readx n src) (readx-Exact n src)
  where
    go : (g : Got) → Exact n [] src.bytes g → pass_on out g ≡ stopped out
    go (got bs s) (e, k) = absurd (omega (arith, h, k, length-append bs s.bytes, ap length e))
    go (lost s) e = refl
    go unfinished e = absurd e

-- The same of the loop, which leaves nothing in the pipe when it ends.
data Looped (was frame : Bytes) : Copying → Type 0 where
  looped :
      (ps : List Turn) (k : Sink)
      → length frame % 640 ≡ 0
      → k.written ≡ was ++ frame
      → All IsCalm ps
      → All IsCalm k.plan
      → Looped was frame (copied (record { bytes = []; plan = ps }) k)
  fell :
      (k : Sink)
      → length frame % 640 ≢ 0
      → k.written ≡ was ++ take (length frame - length frame % 640) frame
      → Looped was frame (stopped k)

take_add : (m n : ℕ) (xs : Bytes) → take m xs ++ take n (drop m xs) ≡ take (m + n) xs
take_add zero n xs = ap (λ k. take k xs) {x = n} {y = 0 + n} (omega arith)
take_add (suc m) n [] = take_all n [] (omega arith) ∙ sym (take_all (suc m + n) [] (omega arith))
take_add (suc m) n (x ∷ xs) =
    let same : suc (m + n) ≡ suc m + n = omega arith in
    ap (◌∷◌ x) (take_add m n xs) ∙ ap (λ k. take k (x ∷ xs)) same

-- A buffer that is through, and what happens to the rest.
behind_chunk :
    (was frame : Bytes) {c : Copying}
    → 640 ≤ length frame
    → Looped (was ++ take 640 frame) (drop 640 frame) c
    → Looped was frame c
behind_chunk was frame h (looped ps k e w a b) =
    looped ps k (omega (arith, e, length-drop 640 frame))
      (w
        ∙ append_assoc was (take 640 frame) (drop 640 frame)
        ∙ ap (◌++◌ was) (take-append-drop 640 frame))
      a b
behind_chunk was frame h (fell k ne w) =
    fell k (λ e. ne (omega (arith, e, length-drop 640 frame)))
      (w
        ∙ append_assoc was (take 640 frame) _
        ∙ ap (◌++◌ was) (
            take_add 640 (length (drop 640 frame) - length (drop 640 frame) % 640) frame
            ∙ ap (λ j. take j frame) (omega (arith, h, length-drop 640 frame))))

-- A round of the loop with a picture that is not all sent.
round-Looped :
    (f i size : ℕ) (r : Bytes) (ps : List Turn) (out : Sink)
    → 0 < length r
    → i + length r ≡ size
    → size < 2 ^ 32
    → All IsCalm ps
    → All IsCalm out.plan
    → ((ps' : List Turn) (k : Sink)
        → 640 ≤ length r
        → All IsCalm ps'
        → All IsCalm k.plan
        → Looped k.written
            (drop 640 r)
            (copy_loop f ((i + 640) % 2 ^ 32) size (record { bytes = drop 640 r; plan = ps' }) k))
    → Looped out.written r (
        then_copy
          (copy_chunk 640 (record { bytes = r; plan = ps }) out)
          (copy_loop f ((i + 640) % 2 ^ 32) size))
round-Looped f i size r ps out more e b c d later = elim (Bool-cases (ltb (length r) 640)) [
  | inl small ↦
      let few = ltb→lt (length r) 640 small in
      let none_left : length r - length r % 640 ≡ 0 = omega arith in
      rw (chunk_stops 640 (record { bytes = r; plan = ps }) out few) (
        fell out (λ k. omega arith)
          (sym (append-nil _) ∙ ap (λ j. out.written ++ take j r) (sym none_left)))
  | inr big ↦
      let many : 640 ≤ length r = ground arith in
      let (ps', k, run, was, c', d') = chunk_passes 640 r ps out many c d in
      rw (run) (
        behind_chunk out.written r many (
          subst
            (λ w.
              Looped w (drop 640 r) (
                copy_loop f ((i + 640) % 2 ^ 32) size (record { bytes = drop 640 r; plan = ps' })
                  k))
            was (later ps' k many c' d')))
]

copy_loop-Looped :
    (f i size : ℕ) (r : Bytes) (ps : List Turn) (out : Sink)
    → i + length r ≡ size
    → size < 2 ^ 32
    → length r < f
    → All IsCalm ps
    → All IsCalm out.plan
    → Looped out.written r (copy_loop f i size (record { bytes = r; plan = ps }) out)
unfolding copy_loop
copy_loop-Looped zero i size r ps out e b h c d = absurd (omega arith)
copy_loop-Looped (suc f) i size [] ps out e b h c d =
    let past : ltb i size ≡ false = ground arith in
    rw (past, copy_loop) (looped ps out refl (sym (append-nil _)) c d)
copy_loop-Looped (suc f) i size (x ∷ xs) ps out e b h c d =
    let before : ltb i size ≡ true = ground arith in
    rw (before, copy_loop)
      (round-Looped f i size (x ∷ xs) ps out (omega arith) e b c d (λ ps' k many c' d'.
        copy_loop-Looped f ((i + 640) % 2 ^ 32) size (drop 640 (x ∷ xs)) ps' k
          (omega (arith, many, e, b, length-drop 640 (x ∷ xs))) b
          (omega (arith, many, h, length-drop 640 (x ∷ xs))) c' d'))

-- The loop and what comes behind it.
copy_frame-Frames :
    (frame : Bytes) (ps : List Turn) (out : Sink)
    → length frame < 2 ^ 32
    → All IsCalm ps
    → All IsCalm out.plan
    → Frames out.written frame (copy_frame (length frame) (record { bytes = frame; plan = ps }) out)
unfolding copy_frame
copy_frame-Frames frame ps out b c d = go (
    copy_loop-Looped (suc (length frame)) 0 (length frame) frame ps out (omega arith) b
      (omega arith) c d)
  where
    go :
        {r : Copying}
        → Looped out.written frame r
        → Frames out.written frame (then_copy r (copy_chunk (length frame % 640)))
    go (fell k ne w) = cut k ne w
    go (looped ps' k e w c' d') =
        let (ps'', k', run, was, _, _) = chunk_passes 0 [] ps' k (omega arith) c' d' in
        rw (e) (rw run (whole _ k' e (was ∙ append-nil _ ∙ w)))

-- An int that is there is read, and what holds from there on holds.
read_int-then :
    (Q : Copying → Type 0) (w : ℕ) (rest : Bytes) (ps : List Turn) (out : Sink)
    (k : ℕ → Source → Copying)
    → w < 2 ^ 32
    → All IsCalm ps
    → ((ps' : List Turn) → All IsCalm ps' → Q (k w (record { bytes = rest; plan = ps' })))
    → Q (read_int (record { bytes = le32 w rest; plan = ps }) out k)
read_int-then Q w rest ps out k b c later =
    go (readx-Returns 4 (record { bytes = le32 w rest; plan = ps }) (omega arith) c)
  where
    go :
        {g : Got}
        → Returns (take 4 (le32 w rest)) (drop 4 (le32 w rest)) g
        → Q (elim g as (λ _. Copying) [
          | got bs s ↦ k (int_at bs) s
          | lost s ↦ stopped out
          | unfinished ↦ short_of_fuel
        ])
    go (returns ps' c') =
        subst (λ j. Q (k j (record { bytes = rest; plan = ps' }))) (omega arith) (later ps' c')

-- When `screencap` writes a width, a height, one of the five formats and then the bytes of the
-- picture, as many as the description says, and the pipe and the client do not fail: the client gets
-- the description and, if the number is a multiple of 640, the picture, and the service ends; else
-- it gets the picture only up to the last multiple of 640, and the service stops at a read that
-- wants more than the picture has.
pub framebuffer_service-Frames :
    (w h f : ℕ) (b : Fbinfo) (frame : Bytes) (ps : List Turn) (out : Sink)
    → w < 2 ^ 32
    → h < 2 ^ 32
    → f < 2 ^ 32
    → pixel_format f w h ≡ some b
    → length frame ≡ b.size
    → b.size < 2 ^ 32
    → All IsCalm ps
    → All IsCalm out.plan
    → Frames
        (out.written ++ fbinfo_bytes b)
        frame
        (framebuffer_service (record { bytes = le32 w (le32 h (le32 f frame)); plan = ps }) out)
unfolding framebuffer_service
framebuffer_service-Frames w h f b frame ps out bw bh bf is size below c d =
    read_int-then Q w _ ps out (λ w' s. read_int s out (λ h' s'. of_format w' h' s')) bw c
      (λ ps' c'. read_int-then Q h _ ps' out (of_format w) bh c' (λ ps'' c''.
        read_int-then Q f frame ps'' out (λ f' s. described (pixel_format f' w h) s out) bf c''
          (λ ps3 c3.
            let (k, sent, was, d') = writex-done (fbinfo_bytes b) out d in
            rw (is) (
              rw (sent) (
                subst
                  (λ v. Frames v frame (copy_frame b.size (record { bytes = frame; plan = ps3 }) k))
                  was
                  (subst
                    (λ n.
                      Frames k.written frame
                        (copy_frame n (record { bytes = frame; plan = ps3 }) k))
                    size (copy_frame-Frames frame ps3 k (omega arith) c3 d')))))))
  where
    Q : Copying → Type 0
    Q = Frames (out.written ++ fbinfo_bytes b) frame

    of_format : ℕ → ℕ → Source → Copying
    of_format w' h' s = read_int s out (λ f' s'. described (pixel_format f' w' h') s' out)
