-- ===== src/Sync/Recv.antt =====
-- `do_recv` of src/adbd/file_sync_service.c sends the file.
use adbd.Sync.Transfer.{recv_loop, do_recv}
use adbd.Sync.{reply, id_done, id_data, sync_data_max, Files, Res, State, fine}
use adbd.Sync.Stream.{Carries, over, more}
use adbd.Base.{ap, subst, ◌∙◌, append_assoc, take-append-drop, length-take}
use adbd.Base.{some, take, drop, length-drop}
use adbd.Base.{ℕ, zero, suc, refl, List, ◌∷◌, arith, All}
use adbd.Base.{◌≤◌, ◌<◌, ◌≡◌, [], ◌++◌, Bytes, length}
use adbd.Io.{IsCalm, Source, Sink, Turn}
use adbd.Io.Reads.{adb_read-chunk}
use adbd.Io.Writes.{writex-done}
use adbd.Packet.Wire.{le32}

-- A run that returned 0 and wrote such a sequence behind `out`.
pub data Sends {Fs : Type 0} (bs out : Bytes) (s : State Fs)
    : Res (State Fs) (Unit {0}) → Type 0 where
  sends :
      (stream : Bytes) (k : Sink)
      → Carries 0 bs stream
      → k.written ≡ out ++ stream
      → Sends bs out s (fine tt (record s { sink = k }))

-- One more DATA message in front of such a run.
Sends-extend :
    {Fs : Type 0}
    → (c bs : Bytes) (s : State Fs) (k : Sink) (r : Res (State Fs) (Unit {0})) → 0 < length c
    → length c ≤ sync_data_max
    → k.written ≡ s.sink.written ++ (le32 id_data (le32 (length c) []) ++ c)
    → Sends bs k.written (record s { sink = k }) r
    → Sends (c ++ bs) s.sink.written s r
Sends-extend c bs s k _ h h' w (sends stream k' cr w') =
    let head = le32 id_data (le32 (length c) []) in
    sends (head ++ (c ++ stream)) k' (more c bs stream h h' cr) (
      w'
      ∙ ap (λ t. t ++ stream) w
      ∙ append_assoc s.sink.written (head ++ c) stream
      ∙ ap (λ t. s.sink.written ++ t) (append_assoc head c stream))

module _ (F : Files) where
  pub reply-fine :
      (bs : Bytes) (s : State F.Fs)
      → All IsCalm s.sink.plan
      → (k : Sink) × (reply F bs s ≡ fine tt (record s { sink = k }))
        × (k.written ≡ s.sink.written ++ bs)
        × All IsCalm k.plan
  unfolding reply
  reply-fine bs s calm =
      let (k, e, w, c) = writex-done bs s.sink calm in (k, rw (reply, e) refl, w, c)

  recv_loop-Sends :
      (f : ℕ) (bs : Bytes) (ps : List Turn) (s : State F.Fs)
      → length bs < f
      → All IsCalm ps
      → All IsCalm s.sink.plan
      → Sends bs s.sink.written s (recv_loop F f (record { bytes = bs; plan = ps }) s)
  unfolding recv_loop
  recv_loop-Sends zero bs ps s h calm calm' = absurd (omega arith)
  recv_loop-Sends (suc f) [] ps s h calm calm' =
      let (m, ps', e, hm, c) = adb_read-chunk 65535 [] ps calm in
      let (k, e', w, c') = reply-fine (le32 id_done (le32 0 [])) s calm' in
      rw (recv_loop, e, e') (sends (le32 id_done (le32 0 [])) k over w)
  recv_loop-Sends (suc f) (b ∷ bs) ps s h calm calm' =
      let (m, ps', e, hm, c) = adb_read-chunk 65535 (b ∷ bs) ps calm in
      let chunk_head = le32 id_data (le32 (length (b ∷ take m bs)) []) in
      let (k, e1, w, c1) = reply-fine chunk_head s calm' in
      let (k', e2, w', c2) = reply-fine (b ∷ take m bs) (record s { sink = k }) c1 in
      let ih =
        recv_loop-Sends f (drop m bs) ps' (record s { sink = k' }) (omega (arith, length-drop m bs))
          c c2 in
      rw (recv_loop, e, e1, e2)
        (subst
          (λ t.
            Sends t s.sink.written s
              (recv_loop F f (record { bytes = drop m bs; plan = ps' }) (record s { sink = k' })))
          (ap (◌∷◌ b) (take-append-drop m bs))
          (Sends-extend (b ∷ take m bs) (drop m bs) s k' _ (omega arith)
            (omega (arith, length-take m bs))
            (w'
              ∙ ap (λ t. t ++ (b ∷ take m bs)) w
              ∙ append_assoc s.sink.written chunk_head (b ∷ take m bs))
            ih))

-- For every file and every split of its reads and of the answer's writes without a failure other
-- than EINTR: do_recv returns 0, leaves what it has not read alone, and writes DATA messages of 1 to
-- 65536 bytes that carry the file's bytes in order, then DONE.
pub do_recv-Sends :
    (F : Files) (path : Bytes) (file : Source) (s : State F.Fs)
    → F.open_read s.fs path ≡ some file
    → All IsCalm file.plan
    → All IsCalm s.sink.plan
    → Sends file.bytes s.sink.written s (do_recv F path s)
unfolding do_recv
do_recv-Sends F path file s e calm calm' =
    rw (do_recv, e)
      (recv_loop-Sends F (suc (length file.bytes)) file.bytes file.plan s (omega arith) calm calm')
