-- ===== src/Sockets/FrameTransfer.antt =====
-- No function that moves a packet, and no creator of a socket, touches a transport's object.
use adbd.Jdwp.{jdwp_process_list_msg, jdwp_process_list}
use adbd.Sockets.FrameOps.{add_transport_disconnect-Keeps, send_packet-Keeps, close-Keeps}
use adbd.Base.{
  length, arith, ◌++◌, ℕ, suc, Bool, true, false, Option, none, some, List, [], ◌∷◌, Bytes,
}
use adbd.Io.{Sink}
use adbd.Packet.{max_payload, Packet}
use adbd.Sockets.{EnqueueFn, ReadyFn, CloseFn}
use adbd.Sockets.Frame.{
  Keeps, Keeps-bind, Keeps-seq, Keeps-pure, load-Keeps, modify-Keeps, calloc-Keeps,
  install_local_socket-Keeps,
}
use adbd.Sockets.Transfer.{
  ready, unflushed, dead, blocked, gone, waiting, settled, text_packet, flushed, flush,
  append_packet, create_local_socket, create_remote_socket, tracker_ready, ready_notify,
  create_jdwp_tracker_service_socket, remote_enqueue, jdwp_pass, enqueue_with, after_flush,
  tracker_update, create_jdwp_service_socket, enqueue, local_ready, remote_ready, jdwp_enqueue,
  okay_once, set_sink, enqueue_on, the_peer, ready_with, track, jdwp_ready, local_enqueue, Flush,
}

set_sink-Keeps : (fd : ℕ) (s : Sink) → Keeps (set_sink fd s)
unfolding set_sink
set_sink-Keeps fd s = record { holds = λ T st h. h }

append_packet-Keeps : (p : ℕ) (bs : Bytes) → Keeps (append_packet p bs)
unfolding append_packet
append_packet-Keeps p bs =
    Keeps-seq (modify-Keeps p (λ s. record s { queue = s.queue ++ (bs ∷ []); fde_write = true }))
      (Keeps-pure waiting)

after_flush-Keeps : (f p fd : ℕ) (r : Flush) → Keeps (after_flush f p fd r)
unfolding after_flush
after_flush-Keeps f p fd (flushed s) = Keeps-seq (set_sink-Keeps fd s) (Keeps-pure settled)
after_flush-Keeps f p fd (blocked rest s) =
    Keeps-seq (set_sink-Keeps fd s) (append_packet-Keeps p rest)
after_flush-Keeps f p fd (dead rest s) =
    Keeps-seq (set_sink-Keeps fd s) (Keeps-seq (close-Keeps f p) (Keeps-pure waiting))
after_flush-Keeps f p fd unflushed = record { holds = λ T st h. tt }

enqueue_on-Keeps :
    (f p : ℕ) (bs : Bytes) (fd : ℕ) (qs : List Bytes) → Keeps (enqueue_on f p bs fd qs)
unfolding enqueue_on
enqueue_on-Keeps f p bs fd [] = record {
  holds = λ T st h.
      (after_flush-Keeps f p fd (flush false (suc (length bs)) bs (st.sinks fd))).holds T st h;
}
enqueue_on-Keeps f p bs fd (q ∷ qs) = append_packet-Keeps p bs

the_peer-Keeps : (o : Option ℕ) → Keeps (the_peer o)
unfolding the_peer
the_peer-Keeps none = record { holds = λ T st h. tt }
the_peer-Keeps (some q) = record { holds = λ T st h. h }

local_enqueue-Keeps : (f p : ℕ) (pkt : Packet) → Keeps (local_enqueue f p pkt)
unfolding local_enqueue
local_enqueue-Keeps f p pkt = Keeps-bind (load-Keeps p) (λ s. enqueue_on-Keeps f p _ s.fd s.queue)

remote_enqueue-Keeps : (p : ℕ) (pkt : Packet) → Keeps (remote_enqueue p pkt)
unfolding remote_enqueue
remote_enqueue-Keeps p pkt = Keeps-bind (load-Keeps p) (λ s.
    Keeps-bind (the_peer-Keeps s.peer) (λ q.
      Keeps-bind (load-Keeps q)
        (λ peer. Keeps-seq (send_packet-Keeps _ s.transport) (Keeps-pure waiting))))

jdwp_enqueue-Keeps : (f p : ℕ) → Keeps (jdwp_enqueue f p)
unfolding jdwp_enqueue
jdwp_enqueue-Keeps f p =
    Keeps-bind (load-Keeps p)
      (λ s. Keeps-bind (the_peer-Keeps s.peer) (λ q. Keeps-seq (close-Keeps f q) (Keeps-pure gone)))

enqueue_with-Keeps : (e : EnqueueFn) (f p : ℕ) (pkt : Packet) → Keeps (enqueue_with e f p pkt)
unfolding enqueue_with
enqueue_with-Keeps EnqueueFn.local_socket_enqueue f p pkt = local_enqueue-Keeps f p pkt
enqueue_with-Keeps EnqueueFn.remote_socket_enqueue f p pkt = remote_enqueue-Keeps p pkt
enqueue_with-Keeps EnqueueFn.jdwp_socket_enqueue f p pkt = jdwp_enqueue-Keeps f p
enqueue_with-Keeps EnqueueFn.jdwp_tracker_enqueue f p pkt = jdwp_enqueue-Keeps f p

pub enqueue-Keeps : (f p : ℕ) (pkt : Packet) → Keeps (enqueue f p pkt)
unfolding enqueue
enqueue-Keeps f p pkt = Keeps-bind (load-Keeps p) (λ s. enqueue_with-Keeps s.enqueue f p pkt)

remote_ready-Keeps : (p : ℕ) → Keeps (remote_ready p)
unfolding remote_ready
remote_ready-Keeps p = Keeps-bind (load-Keeps p) (λ s.
    Keeps-bind (the_peer-Keeps s.peer)
      (λ q. Keeps-bind (load-Keeps q) (λ peer. send_packet-Keeps _ s.transport)))

local_ready-Keeps : (p : ℕ) → Keeps (local_ready p)
unfolding local_ready
local_ready-Keeps p = modify-Keeps p (λ s. record s { fde_read = true })

okay_once-Keeps : (fd : ℕ) → Keeps (okay_once fd)
unfolding okay_once
okay_once-Keeps fd = record { holds = λ T st h. ground arith }

ready_notify-Keeps : (p : ℕ) → Keeps (ready_notify p)
unfolding ready_notify
ready_notify-Keeps p =
    Keeps-seq
      (modify-Keeps p
        (λ s. record s { ready = ReadyFn.local_socket_ready; close = CloseFn.local_socket_close }))
      (Keeps-bind (load-Keeps p) (λ s. Keeps-seq (okay_once-Keeps s.fd) (local_ready-Keeps p)))

jdwp_pass-Keeps : (f p : ℕ) (o : Option ℕ) (b : Bool) → Keeps (jdwp_pass f p o b)
unfolding jdwp_pass
jdwp_pass-Keeps f p o false = Keeps-bind (the_peer-Keeps o) (λ q. record {
  holds = λ T st h.
      (Keeps-bind (enqueue-Keeps f q (text_packet (jdwp_process_list st.processes max_payload)))
          (λ _. modify-Keeps p (λ s. record s { pass = true }))).holds
        T st h;
})
jdwp_pass-Keeps f p o true = Keeps-bind (the_peer-Keeps o) (λ q. close-Keeps f q)

jdwp_ready-Keeps : (f p : ℕ) → Keeps (jdwp_ready f p)
unfolding jdwp_ready
jdwp_ready-Keeps f p = Keeps-bind (load-Keeps p) (λ s. jdwp_pass-Keeps f p s.peer s.pass)

tracker_update-Keeps : (f p : ℕ) (b : Bool) → Keeps (tracker_update f p b)
unfolding tracker_update
tracker_update-Keeps f p false = Keeps-pure tt
tracker_update-Keeps f p true = Keeps-seq (modify-Keeps p (λ s. record s { need_update = false })) (
    Keeps-bind (load-Keeps p) (λ s. Keeps-bind (the_peer-Keeps s.peer) (λ q. record {
      holds = λ T st h.
          (Keeps-bind
              (enqueue-Keeps f q (text_packet (jdwp_process_list_msg st.processes max_payload)))
              (λ _. Keeps-pure tt)).holds
            T st h;
    })))

tracker_ready-Keeps : (f p : ℕ) → Keeps (tracker_ready f p)
unfolding tracker_ready
tracker_ready-Keeps f p = Keeps-bind (load-Keeps p) (λ s. tracker_update-Keeps f p s.need_update)

ready_with-Keeps : (r : ReadyFn) (f p : ℕ) → Keeps (ready_with r f p)
unfolding ready_with
ready_with-Keeps ReadyFn.local_socket_ready f p = local_ready-Keeps p
ready_with-Keeps ReadyFn.remote_socket_ready f p = remote_ready-Keeps p
ready_with-Keeps ReadyFn.local_socket_ready_notify f p = ready_notify-Keeps p
ready_with-Keeps ReadyFn.jdwp_socket_ready f p = jdwp_ready-Keeps f p
ready_with-Keeps ReadyFn.jdwp_tracker_ready f p = tracker_ready-Keeps f p

pub ready-Keeps : (f p : ℕ) → Keeps (ready f p)
unfolding ready
ready-Keeps f p = Keeps-bind (load-Keeps p) (λ s. ready_with-Keeps s.ready f p)

pub create_local_socket-Keeps : (fd : ℕ) → Keeps (create_local_socket fd)
unfolding create_local_socket
create_local_socket-Keeps fd = Keeps-bind (calloc-Keeps _) (λ p.
    Keeps-seq (install_local_socket-Keeps p)
      (Keeps-seq (modify-Keeps p (λ s. record s { active = true })) (Keeps-pure p)))

pub create_remote_socket-Keeps : (id t : ℕ) → Keeps (create_remote_socket id t)
unfolding create_remote_socket
create_remote_socket-Keeps id t =
    Keeps-bind (calloc-Keeps _)
      (λ p. Keeps-seq (add_transport_disconnect-Keeps (some t) p) (Keeps-pure p))

pub create_jdwp_service_socket-Keeps : Keeps create_jdwp_service_socket
unfolding create_jdwp_service_socket
create_jdwp_service_socket-Keeps =
    Keeps-bind (calloc-Keeps _) (λ p. Keeps-seq (install_local_socket-Keeps p) (Keeps-pure p))

track-Keeps : (p : ℕ) → Keeps (track p)
unfolding track
track-Keeps p = record { holds = λ T st h. h }

pub create_jdwp_tracker_service_socket-Keeps : Keeps create_jdwp_tracker_service_socket
unfolding create_jdwp_tracker_service_socket
create_jdwp_tracker_service_socket-Keeps = Keeps-bind (calloc-Keeps _) (λ p.
    Keeps-seq (track-Keeps p) (
      Keeps-seq (install_local_socket-Keeps p)
        (Keeps-seq (modify-Keeps p (λ s. record s { need_update = true })) (Keeps-pure p))))
