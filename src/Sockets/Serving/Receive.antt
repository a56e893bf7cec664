-- ===== src/Sockets/Serving/Receive.antt =====
-- The read part of `local_socket_event_func` of src/adbd/sockets.c, and the whole handler, on a
-- well-formed store.
use adbd.Sockets.Events.{fill_packet}
use adbd.Base.{
  some, ℕ, zero, suc, ◌-◌, ◌<◌, ◌≡◌, refl, Bool, true, false, ◌&&◌, ◌||◌, List, [], ◌∷◌, ◌++◌,
  arith, Bytes, if◌then◌else◌, length,
}
use adbd.Sockets.{Socket, Store, pure, modify}
use adbd.Sockets.Valid.{near_of, lingering_of, IsValid}
use adbd.Sockets.Altered.{Altered-IsValid, Safe, Safe-then}
use adbd.Sockets.Ops.{close}
use adbd.Sockets.Steps.{Safe-step, load_run}
use adbd.Sockets.Serving.{near_close_IsValid, Serves, unaltered, altered_Serves}
use adbd.Sockets.Serving.Enqueue.{Passed, far_enqueue_Passed}
use adbd.Sockets.Serving.Handler.{
  write_event-Written, IsOwner, modify-Serves, Written, drain_lingering, owns, drains,
}
use adbd.Sockets.Lingering.{lingering_close_IsValid}
use adbd.Sockets.Transfer.{Answer, enqueue, text_packet, settled, waiting, gone}
use adbd.Sockets.Events.{
  drain, write_event, Filled, fill, set_source, end_of_file, after_enqueue, hand_over, after_fill,
  read_event, local_socket_event_func, filled, unfilled,
}
use adbd.Sockets.Queue.{drain-Drains}
use adbd.Io.{Source, Turn, Reading, adb_read, eintr, eagain, other, chunk, failed}
use adbd.Io.Reads.{Splits, adb_read-Splits}
use adbd.Packet.{max_payload}

-- The loop that fills a packet ends.
abbrev Ends : Filled → Type 0
Ends (filled bs is_eof r_zero s) = Unit
Ends unfilled = ⊥

fill-Ends :
    (f avail : ℕ) (acc bs : Bytes) (ps : List Turn)
    → avail < f
    → Ends (fill f avail acc (record { bytes = bs; plan = ps }))
unfolding fill
fill-Ends zero avail acc bs ps h = absurd (omega arith)
fill-Ends (suc f) zero acc bs ps h = tt
fill-Ends (suc f) (suc n) acc bs ps h =
    go (adb_read (suc n) bs ps) refl (adb_read-Splits (suc n) bs ps) (fill-Ends f)
  where
    go :
        (r : Reading)
        → adb_read (suc n) bs ps ≡ r
        → Splits (suc n) bs r
        → ((avail : ℕ) (acc bs : Bytes) (ps : List Turn)
            → avail < f
            → Ends (fill f avail acc (record { bytes = bs; plan = ps })))
        → Ends (fill (suc f) (suc n) acc (record { bytes = bs; plan = ps }))
    go (chunk [] s) e k ih = rw (e, fill) tt
    go (chunk (b ∷ cs) s) e (split, fits) ih =
        rw (e, fill) (ih (suc n - length (b ∷ cs)) (acc ++ (b ∷ cs)) s.bytes s.plan (omega arith))
    go (failed eintr s) e k ih = absurd k
    go (failed eagain s) e k ih = rw (e, fill) tt
    go (failed other s) e k ih = rw (e, fill) tt

fill_packet-Ends : (s : Source) → Ends (fill_packet s)
unfolding fill_packet
fill_packet-Ends s = fill-Ends (suc max_payload) max_payload [] s.bytes s.plan (omega arith)

module _ (f p q : ℕ) where
  end_IsValid :
      (is_eof r_zero : Bool) (st : Store)
      → Serves p q st
      → Safe (λ _. IsValid) (end_of_file (suc (suc f)) p is_eof r_zero st)
  unfolding end_of_file
  end_IsValid is_eof r_zero st h =
      Safe-step (λ _. IsValid) _
        (load_run p (near_of h.near.kind h.near.base (some q)) st h.near.same)
        (go ((h.near.base.force_eof && r_zero) || is_eof))
    where
      go : (b : Bool) → Safe (λ _. IsValid) ((if b then close (suc (suc f)) p else pure tt) st)
      go true = near_close_IsValid h.valid f p q h.near
      go false = h.valid

  after_enqueue-IsValid :
      (is_eof : Bool) (a : Answer) (st st' : Store)
      → Serves p q st
      → Passed st a st'
      → Safe (λ _. IsValid) (after_enqueue (suc (suc f)) p is_eof a st')
  unfolding after_enqueue
  after_enqueue-IsValid is_eof settled st st' h x = absurd x
  after_enqueue-IsValid is_eof waiting st st' h x =
      Safe-then (λ _. Serves p q) (λ _. IsValid) (modify p (λ s. record s { fde_read = false }) st')
        _
        (modify-Serves p q (λ s. record s { fde_read = false }) (λ s. record s { fde_read = false })
          st' (λ n s. refl) (altered_Serves x h))
        (λ _ st2 h2. end_IsValid is_eof false st2 h2)
  after_enqueue-IsValid is_eof gone st st' h x = absurd x

  hand_over-IsValid :
      (bs : Bytes) (is_eof r_zero : Bool) (st : Store)
      → Serves p q st
      → Safe (λ _. IsValid) (hand_over (suc (suc f)) p bs is_eof r_zero (some q) st)
  unfolding hand_over
  hand_over-IsValid [] is_eof r_zero st h = end_IsValid is_eof r_zero st h
  hand_over-IsValid (b ∷ bs) is_eof r_zero st h =
      Safe-then (Passed st) (λ _. IsValid) (enqueue (suc (suc f)) q (text_packet (b ∷ bs)) st) _
        (far_enqueue_Passed (suc (suc f)) p q (text_packet (b ∷ bs)) st h)
        (λ a st' x. after_enqueue-IsValid is_eof a st st' h x)

  read_event-IsValid :
      (st : Store) → Serves p q st → Safe (λ _. IsValid) (read_event (suc (suc f)) p st)
  unfolding read_event after_fill set_source
  read_event-IsValid st h =
      Safe-step (λ _. IsValid) _ (load_run p s st h.near.same)
        (go (fill_packet (st.sources s.fd)) (fill_packet-Ends (st.sources s.fd)))
    where
      s : Socket
      s = near_of h.near.kind h.near.base (some q)

      go : (r : Filled) → Ends r → Safe (λ _. IsValid) (after_fill (suc (suc f)) p s r st)
      go (filled bs is_eof r_zero k) x =
          hand_over-IsValid bs is_eof r_zero _
            (altered_Serves (unaltered st _ refl refl refl refl) h)
      go unfilled x = absurd x

-- A socket that drains has no peer to hand anything to.
read_lingering :
    (f p : ℕ) (s : Socket) (st : Store)
    → IsValid st
    → st.sockets p ≡ some (lingering_of s)
    → Safe (λ _. IsValid) (read_event (suc f) p st)
unfolding read_event after_fill set_source hand_over end_of_file
read_lingering f p s st v e =
    Safe-step (λ _. IsValid) _ (load_run p (lingering_of s) st e)
      (go (fill_packet (st.sources s.fd)) (fill_packet-Ends (st.sources s.fd)))
  where
    ends :
        (is_eof r_zero : Bool) (st1 : Store)
        → IsValid st1
        → st1.sockets p ≡ some (lingering_of s)
        → Safe (λ _. IsValid) (end_of_file (suc f) p is_eof r_zero st1)
    ends is_eof r_zero st1 v1 e1 =
        Safe-step (λ _. IsValid) _ (load_run p (lingering_of s) st1 e1)
          (last ((s.force_eof && r_zero) || is_eof))
      where
        last : (b : Bool) → Safe (λ _. IsValid) ((if b then close (suc f) p else pure tt) st1)
        last true = lingering_close_IsValid f p s st1 v1 e1
        last false = v1

    go : (r : Filled) → Ends r → Safe (λ _. IsValid) (after_fill (suc f) p (lingering_of s) r st)
    go (filled [] is_eof r_zero k) x =
        ends is_eof r_zero _ (Altered-IsValid (unaltered st _ refl refl refl refl) v) e
    go (filled (b ∷ bs) is_eof r_zero k) x =
        ends is_eof r_zero _ (Altered-IsValid (unaltered st _ refl refl refl refl) v) e
    go unfilled x = absurd x

-- The handler of a socket that is there.
pub event_func_IsValid :
    (f p : ℕ) (readable writable : Bool) (st : Store)
    → IsValid st
    → IsOwner p st
    → Safe (λ _. IsValid) (local_socket_event_func (suc (suc f)) p readable writable st)
unfolding local_socket_event_func
event_func_IsValid f p readable true st v (owns q n) =
    Safe-then (Written p) (λ _. IsValid) (write_event (suc (suc f)) p st) _
      (write_event-Written f p q st (record { valid = v; near = n })) (next readable)
  where
    next :
        (readable go_on : Bool) (st' : Store)
        → Written p go_on st'
        → Safe
            (λ _. IsValid)
            ((if go_on && readable then read_event (suc (suc f)) p else pure tt) st')
    next true true st' (q', h) = read_event-IsValid f p q' st' h
    next false true st' (q', h) = h.valid
    next true false st' h = h
    next false false st' h = h
event_func_IsValid f p true false st v (owns q n) =
    read_event-IsValid f p q st (record { valid = v; near = n })
event_func_IsValid f p false false st v (owns q n) = v
event_func_IsValid f p readable true st v (drains s e) =
    Safe-then (λ go_on st'. (go_on ≡ false) × IsValid st') (λ _. IsValid)
      (write_event (suc (suc f)) p st) _ wrote (λ go_on st' (stop, v'). rw stop v')
  where
    wrote : Safe (λ go_on st'. (go_on ≡ false) × IsValid st') (write_event (suc (suc f)) p st)
    wrote =
        unfold write_event in
        Safe-step (λ go_on st'. (go_on ≡ false) × IsValid st') _ (load_run p (lingering_of s) st e)
          (drain_lingering (suc f) p s (drain s.queue (st.sinks s.fd)) (st.sinks s.fd).written
            s.queue st (drain-Drains s.queue (st.sinks s.fd)) v e)
event_func_IsValid f p true false st v (drains s e) = read_lingering (suc f) p s st v e
event_func_IsValid f p false false st v (drains s e) = v
