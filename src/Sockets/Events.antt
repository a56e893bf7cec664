-- ===== src/Sockets/Events.antt =====
-- `local_socket_event_func` of src/adbd/sockets.c: the queue is drained when the descriptor can be
-- written, and a packet is filled and handed to the peer when it can be read.
use adbd.Base.{
  ℕ, zero, suc, ◌-◌, Bool, true, false, ◌&&◌, ◌||◌, Option, none, some, List, [], ◌∷◌, ◌++◌, ◌==◌,
  if◌then◌else◌, Bytes, length,
}
use adbd.Io.{eintr, eagain, other, Source, chunk, failed, adb_read, Sink}
use adbd.Packet.{max_payload}
use adbd.Sockets.{Socket, Run, ok, Cmd, pure, ◌>>=◌, ◌>>◌, load, modify}
use adbd.Sockets.Ops.{close}
use adbd.Sockets.Transfer.{
  Flush, flushed, blocked, dead, unflushed, flush, Answer, settled, waiting, gone, set_sink,
  the_peer, enqueue, ready, text_packet,
}

-- How the loop over the queue ends: empty; at a descriptor that would block; at an error.
pub data Drain : Type 0 where
  drained : Sink → Drain
  stalled : List Bytes → Sink → Drain
  perished : List Bytes → Sink → Drain
  undrained : Drain

-- What a packet's loop means for the queue, with `rest` the result on the packets behind it.
abbrev pub after_packet : List Bytes → (Sink → Drain) → Flush → Drain
after_packet qs rest (flushed s) = rest s
after_packet qs rest (blocked b s) = stalled (b ∷ qs) s
after_packet qs rest (dead b s) = perished (b ∷ qs) s
after_packet qs rest unflushed = undrained

unfoldable pub drain : List Bytes → Sink → Drain
unfolding flush
drain [] s = drained s
drain (b ∷ qs) s = after_packet qs (drain qs) (flush true (suc (length b)) b s)

-- Behind an empty queue: a closing socket is closed for good, and another one's peer may send.
-- The result says whether the handler goes on to FDE_READ.
unfoldable pub queue_empty : ℕ → ℕ → Socket → Cmd Bool
unfolding close modify the_peer ready
queue_empty f p s =
    if s.closing
    then (close f p >>= λ _. pure false)
    else (modify p (λ s. record s { fde_write = false }) >>= λ _.
        the_peer s.peer >>= λ q. ready f q >>= λ _. pure true)

unfoldable pub after_drain : ℕ → ℕ → Socket → Drain → Cmd Bool
unfolding set_sink modify queue_empty close
after_drain f p s (drained k) = do
  set_sink s.fd k
  modify p (λ s. record s { queue = [] })
  queue_empty f p s
after_drain f p s (stalled qs k) = do
  set_sink s.fd k
  modify p (λ s. record s { queue = qs })
  pure false
after_drain f p s (perished qs k) = do
  set_sink s.fd k
  modify p (λ s. record s { queue = qs })
  close f p
  pure false
after_drain f p s undrained = λ _. Run.out_of_fuel

-- The part for FDE_WRITE.
unfoldable pub write_event : ℕ → ℕ → Cmd Bool
unfolding load drain after_drain
write_event f p = do s ← load p; λ st. after_drain f p s (drain s.queue (st.sinks s.fd)) st

-- What the reading loop has: the bytes, whether the stream has ended, and whether the last call
-- returned 0.
pub data Filled : Type 0 where
  filled : Bytes → Bool → Bool → Source → Filled
  unfilled : Filled

-- `while(avail>0)`
unfoldable pub fill : ℕ → ℕ → Bytes → Source → Filled
unfolding adb_read
fill zero avail acc s = unfilled
fill (suc f) zero acc s = filled acc false false s
fill (suc f) (suc n) acc s = elim (adb_read (suc n) s.bytes s.plan) [
  | chunk [] s' ↦ filled acc true true s'
  | chunk (b ∷ bs) s' ↦ fill f (suc n - length (b ∷ bs)) (acc ++ (b ∷ bs)) s'
  | failed eagain s' ↦ filled acc false false s'
  | failed eintr s' ↦ fill f (suc n) acc s'
  | failed other s' ↦ filled acc true false s'
]

unfoldable pub set_source : ℕ → Source → Cmd (Unit {0})
set_source fd s st = ok tt (record st { sources = λ q. if fd == q then s else st.sources q })

-- The last test: `r` is 0, or the stream has ended.
unfoldable pub end_of_file : ℕ → ℕ → Bool → Bool → Cmd (Unit {0})
unfolding load close
end_of_file f p is_eof r_zero = do
  s ← load p
  if (s.force_eof && r_zero) || is_eof then close f p else pure tt

-- What follows the peer's `enqueue`. After -1 the socket is gone.
unfoldable pub after_enqueue : ℕ → ℕ → Bool → Answer → Cmd (Unit {0})
unfolding modify end_of_file
after_enqueue f p is_eof settled = end_of_file f p is_eof true
after_enqueue f p is_eof waiting = do
  modify p (λ s. record s { fde_read = false })
  end_of_file f p is_eof false
after_enqueue f p is_eof gone = pure tt

-- The packet goes to the peer, if it holds anything and there is a peer.
unfoldable pub hand_over : ℕ → ℕ → Bytes → Bool → Bool → Option ℕ → Cmd (Unit {0})
unfolding end_of_file enqueue after_enqueue
hand_over f p [] is_eof r_zero peer = end_of_file f p is_eof r_zero
hand_over f p (b ∷ bs) is_eof r_zero none = end_of_file f p is_eof r_zero
hand_over f p (b ∷ bs) is_eof r_zero (some q) = do
  a ← enqueue f q (text_packet (b ∷ bs))
  after_enqueue f p is_eof a

unfoldable pub after_fill : ℕ → ℕ → Socket → Filled → Cmd (Unit {0})
unfolding set_source hand_over
after_fill f p s (filled bs is_eof r_zero k) = do
  set_source s.fd k
  hand_over f p bs is_eof r_zero s.peer
after_fill f p s unfilled = λ _. Run.out_of_fuel

-- The loop from its start, over an empty packet.
unfoldable pub fill_packet : Source → Filled
unfolding fill
fill_packet s = fill (suc max_payload) max_payload [] s

-- The part for FDE_READ.
unfoldable pub read_event : ℕ → ℕ → Cmd (Unit {0})
unfolding load after_fill
read_event f p = do s ← load p; λ st. after_fill f p s (fill_packet (st.sources s.fd)) st

-- The handler, with the events FDE_READ and FDE_WRITE that it is called for.
unfoldable pub local_socket_event_func : ℕ → ℕ → Bool → Bool → Cmd (Unit {0})
unfolding write_event read_event
local_socket_event_func f p readable writable = do
  go_on ← (if writable then write_event f p else pure true)
  if go_on && readable then read_event f p else pure tt
