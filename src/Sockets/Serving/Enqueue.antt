-- ===== src/Sockets/Serving/Enqueue.antt =====
-- `enqueue` and `ready` on a well-formed store (src/adbd/sockets.c, src/adbd/jdwp_service.c).
use adbd.Sockets.Queue.{flush-Flushes}
use adbd.Base.{
  some, ℕ, suc, ◌≡◌, refl, true, false, List, [], ◌∷◌, ◌++◌, arith, Bytes, length, take,
}
use adbd.Sockets.{Socket, Store, update}
use adbd.Sockets.Valid.{Near, near_enqueue, near_of, far_of, IsNear, IsValid, local, jdwp, tracker}
use adbd.Sockets.Altered.{Altered-IsValid, Safe, Safe-then, IsAltered}
use adbd.Sockets.Ops.{send_packet, close}
use adbd.Sockets.Steps.{Safe-step, load_run, modify_run}
use adbd.Sockets.Serving.{
  near_close_IsValid, far_close_IsValid, its_far, Serves, unaltered, altered_Serves, touched,
}
use adbd.Sockets.Transfer.{
  Flush, flush, Answer, set_sink, append_packet, after_flush, enqueue_on, local_enqueue, the_peer,
  remote_enqueue, jdwp_enqueue, enqueue_with, enqueue, remote_ready, ready_with, ready, flushed,
  blocked, dead, unflushed, settled, waiting, gone,
}
use adbd.Sockets.Queue.{Flushes}
use adbd.Io.{Sink}
use adbd.Packet.{Packet, seal}

-- What an `enqueue` on a socket of the daemon's side leaves, by its answer: after 0 it is still there.
abbrev pub Taken : ℕ → ℕ → Answer → Store → Type 0
Taken p q settled st = Serves p q st
Taken p q waiting st = IsValid st
Taken p q gone st = IsValid st

-- The sink of a descriptor is no part of a pair.
abbrev with_sink : ℕ → Sink → Store → Store
with_sink fd k st = record st { sinks = update st.sinks fd k }

sink_Serves :
    {st : Store} {p q : ℕ} (fd : ℕ) (k : Sink) → Serves p q st → Serves p q (with_sink fd k st)
sink_Serves {st} fd k h = altered_Serves (unaltered st (with_sink fd k st) refl refl refl refl) h

append_Taken :
    (p q : ℕ) (s : Socket) (bs : Bytes) (st : Store)
    → st.sockets p ≡ some (near_of local s (some q))
    → IsValid st
    → Safe (Taken p q) (append_packet p bs st)
unfolding append_packet
append_Taken p q s bs st e v =
    Safe-step (Taken p q) _
      (modify_run p (near_of local s (some q))
        (λ s. record s { queue = s.queue ++ (bs ∷ []); fde_write = true }) st e)
      (Altered-IsValid
        (touched p q local s (record s { queue = s.queue ++ (bs ∷ []); fde_write = true }) st e) v)

module _ (f p q : ℕ) (s : Socket) (st : Store) (e : st.sockets p ≡ some (near_of local s (some q)))
    (v : IsValid st) where
  near : IsNear q (st.sockets p)
  near = record { kind = local; base = s; same = e }

  after_flush-Taken :
      (r : Flush) (out bs : Bytes)
      → Flushes out bs r
      → Safe (Taken p q) (after_flush (suc (suc f)) p s.fd r st)
  unfolding after_flush set_sink
  after_flush-Taken (flushed k) out bs h = sink_Serves s.fd k (record { valid = v; near = near })
  after_flush-Taken (blocked rest k) out bs h =
      append_Taken p q s rest (with_sink s.fd k st) e
        (sink_Serves s.fd k (record { valid = v; near = near })).valid
  after_flush-Taken (dead rest k) out bs h =
      Safe-then (λ _. IsValid) (Taken p q) (close (suc (suc f)) p (with_sink s.fd k st)) _
        (near_close_IsValid (sink_Serves s.fd k (record { valid = v; near = near })).valid f p q
          near)
        (λ _ st' v'. v')
  after_flush-Taken unflushed out bs h = h

  local_enqueue-Taken : (pkt : Packet) → Safe (Taken p q) (local_enqueue (suc (suc f)) p pkt st)
  unfolding local_enqueue enqueue_on
  local_enqueue-Taken pkt =
      Safe-step (Taken p q) _ (load_run p (near_of local s (some q)) st e) (go s.queue)
    where
      body : Bytes
      body = take pkt.len pkt.bytes

      go : (qs : List Bytes) → Safe (Taken p q) (enqueue_on (suc (suc f)) p body s.fd qs st)
      go (x ∷ qs) = append_Taken p q s body st e v
      go [] =
          after_flush-Taken (flush false (suc (length body)) body (st.sinks s.fd))
            (st.sinks s.fd).written body
            (flush-Flushes false (suc (length body)) body (st.sinks s.fd).written
              (st.sinks s.fd).plan (omega arith))

-- The two JDWP sockets close their peer, and themselves with it.
jdwp_enqueue-Taken :
    (f p q : ℕ) (x : Socket) (st : Store)
    → st.sockets p ≡ some x
    → x.peer ≡ some q
    → IsValid st
    → IsNear q (st.sockets p)
    → Safe (Taken p q) (jdwp_enqueue (suc (suc f)) p st)
unfolding jdwp_enqueue the_peer
jdwp_enqueue-Taken f p q x st e k v n = Safe-step (Taken p q) _ (load_run p x st e) (
    rw k (
      Safe-then (λ _. IsValid) (Taken p q) (close (suc (suc f)) q st) _
        (far_close_IsValid v f p q n) (λ _ st' v'. v')))

enqueue_kind :
    (f p q : ℕ) (n : Near) (s : Socket) (pkt : Packet) (st : Store)
    → st.sockets p ≡ some (near_of n s (some q))
    → IsValid st
    → Safe (Taken p q) (enqueue_with (near_enqueue n) (suc (suc f)) p pkt st)
unfolding enqueue_with
enqueue_kind f p q local s pkt st e v = local_enqueue-Taken f p q s st e v pkt
enqueue_kind f p q jdwp s pkt st e v =
    jdwp_enqueue-Taken f p q (near_of jdwp s (some q)) st e refl v
      (record { kind = jdwp; base = s; same = e })
enqueue_kind f p q tracker s pkt st e v =
    jdwp_enqueue-Taken f p q (near_of tracker s (some q)) st e refl v
      (record { kind = tracker; base = s; same = e })

pub enqueue_Taken :
    (f p q : ℕ) (pkt : Packet) (st : Store)
    → Serves p q st
    → Safe (Taken p q) (enqueue (suc (suc f)) p pkt st)
unfolding enqueue
enqueue_Taken f p q pkt st h =
    Safe-step (Taken p q) _ (load_run p (near_of h.near.kind h.near.base (some q)) st h.near.same)
      (enqueue_kind f p q h.near.kind h.near.base pkt st h.near.same h.valid)

-- What goes out to the host leaves the store's sockets alone.
abbrev pub sent_to : ℕ → Packet → Store → Store
sent_to t pkt st = record st { sent = st.sent ++ ((t, seal pkt) ∷ []) }

-- `enqueue` on a remote socket sends a WRTE packet, and the answer is 1.
abbrev pub Passed : Store → Answer → Store → Type 0
Passed st settled st' = ⊥
Passed st waiting st' = IsAltered st st'
Passed st gone st' = ⊥

pub far_enqueue_Passed :
    (f p q : ℕ) (pkt : Packet) (st : Store) → Serves p q st → Safe (Passed st) (enqueue f q pkt st)
unfolding enqueue enqueue_with remote_enqueue the_peer send_packet
far_enqueue_Passed f p q pkt st h =
    let (t, far) = its_far h.valid p q h.near in
    Safe-step (Passed st) _ (load_run q (far_of far.number (some p) t) st far.same) (
      Safe-step (Passed st) _ (load_run q (far_of far.number (some p) t) st far.same) (
        Safe-step (Passed st) _
          (load_run p (near_of h.near.kind h.near.base (some q)) st h.near.same)
          (unaltered st (sent_to t _ st) refl refl refl refl)))

pub far_ready_Altered :
    (f p q : ℕ) (st : Store) → Serves p q st → Safe (λ _. IsAltered st) (ready f q st)
unfolding ready ready_with remote_ready the_peer send_packet
far_ready_Altered f p q st h =
    let (t, far) = its_far h.valid p q h.near in
    Safe-step (λ _. IsAltered st) _ (load_run q (far_of far.number (some p) t) st far.same)
      (Safe-step (λ _. IsAltered st) _ (load_run q (far_of far.number (some p) t) st far.same)
        (Safe-step (λ _. IsAltered st) _
          (load_run p (near_of h.near.kind h.near.base (some q)) st h.near.same)
          (unaltered st (sent_to t _ st) refl refl refl refl)))
