-- ===== src/Sockets/FrameOps.antt =====
-- No function that a socket's fields point at touches a transport's object.
use adbd.Base.{arith, ◌++◌, ℕ, zero, suc, Bool, true, false, Option, none, some, [], ◌∷◌, Bytes}
use adbd.Packet.{a_clse, Packet}
use adbd.Sockets.{Socket, Cmd, ReadyFn, CloseFn}
use adbd.Sockets.Frame.{
  Keeps, Keeps-bind, Keeps-seq, Keeps-pure, Keeps-if, load-Keeps, modify-Keeps, free-Keeps,
  remove_socket-Keeps,
}
use adbd.Sockets.Ops.{
  packet, untrack, closed_message, close_with, remove_transport_disconnect, finish_close,
  jdwp_close_with, jdwp_tracker_close_with, exit_if, writex_to, linger, insert_closing,
  add_transport_disconnect, fdevent_remove, local_socket_close_locked, drop_peer, remote_close_with,
  close, peer_id, local_socket_destroy, local_close_notify_with, send_packet,
}

pub send_packet-Keeps : (p : Packet) (t : Option ℕ) → Keeps (send_packet p t)
unfolding send_packet
send_packet-Keeps p none = record { holds = λ T st h. h }
send_packet-Keeps p (some t) = record { holds = λ T st h. h }

pub add_transport_disconnect-Keeps : (t : Option ℕ) (p : ℕ) → Keeps (add_transport_disconnect t p)
unfolding add_transport_disconnect
add_transport_disconnect-Keeps none p = record { holds = λ T st h. tt }
add_transport_disconnect-Keeps (some t) p = record { holds = λ T st h. h }

pub remove_transport_disconnect-Keeps :
    (t : Option ℕ) (p : ℕ) → Keeps (remove_transport_disconnect t p)
unfolding remove_transport_disconnect
remove_transport_disconnect-Keeps none p = record { holds = λ T st h. h }
remove_transport_disconnect-Keeps (some t) p = record { holds = λ T st h. h }

exit_if-Keeps : (b : Bool) → Keeps (exit_if b)
unfolding exit_if
exit_if-Keeps true = record { holds = λ T st h. h }
exit_if-Keeps false = record { holds = λ T st h. h }

fdevent_remove-Keeps : (s : Socket) → Keeps (fdevent_remove s)
unfolding fdevent_remove
fdevent_remove-Keeps s = record { holds = λ T st h. ground arith }

local_socket_destroy-Keeps : (p : ℕ) → Keeps (local_socket_destroy p)
unfolding local_socket_destroy
local_socket_destroy-Keeps p = Keeps-bind (load-Keeps p) (λ s.
    Keeps-seq (fdevent_remove-Keeps s) (
      Keeps-seq (remove_socket-Keeps p) (Keeps-seq (free-Keeps p) (exit_if-Keeps s.exit_on_close))))

insert_closing-Keeps : (p : ℕ) → Keeps (insert_closing p)
unfolding insert_closing
insert_closing-Keeps p = record {
  holds = λ T st h.
      (modify-Keeps p (λ s. record s { linked = true })).holds T
        (record st { closing_list = st.closing_list ++ (p ∷ []) }) h;
}

linger-Keeps : (p : ℕ) → Keeps (linger p)
unfolding linger
linger-Keeps p =
    Keeps-seq (modify-Keeps p (λ s. record s { closing = true; fde_read = false }))
      (Keeps-seq (remove_socket-Keeps p) (insert_closing-Keeps p))

finish_close-Keeps : (p : ℕ) (s : Socket) → Keeps (finish_close p s)
unfolding finish_close
finish_close-Keeps p s = Keeps-if _ (local_socket_destroy-Keeps p) (linger-Keeps p)

writex_to-Keeps : (fd : ℕ) (bs : Bytes) → Keeps (writex_to fd bs)
unfolding writex_to
writex_to-Keeps fd bs = record { holds = λ T st h. ground arith }

untrack-Keeps : (p : ℕ) → Keeps (untrack p)
unfolding untrack
untrack-Keeps p = record { holds = λ T st h. h }

module _ (rec : ℕ → Cmd (Unit {0})) (hr : (q : ℕ) → Keeps (rec q)) where
  pub drop_peer-Keeps : (o : Option ℕ) → Keeps (drop_peer rec o)
  unfolding drop_peer
  drop_peer-Keeps none = Keeps-pure tt
  drop_peer-Keeps (some q) = Keeps-seq (modify-Keeps q (λ s. record s { peer = none })) (hr q)

  local_close_locked-Keeps : (p : ℕ) → Keeps (local_socket_close_locked rec p)
  unfolding local_socket_close_locked
  local_close_locked-Keeps p = Keeps-bind (load-Keeps p) (λ s. Keeps-seq (drop_peer-Keeps s.peer) (
      Keeps-seq (modify-Keeps p (λ s. record s { peer = none }))
        (Keeps-bind (load-Keeps p) (λ s. finish_close-Keeps p s))))

  peer_id-Keeps : (o : Option ℕ) → Keeps (peer_id o)
  unfolding peer_id
  peer_id-Keeps none = Keeps-pure 0
  peer_id-Keeps (some q) = Keeps-bind (load-Keeps q) (λ s. Keeps-pure s.id)

  remote_close-Keeps : (p : ℕ) → Keeps (remote_close_with rec p)
  unfolding remote_close_with
  remote_close-Keeps p = Keeps-bind (load-Keeps p) (λ s. Keeps-bind (peer_id-Keeps s.peer) (λ arg0.
      Keeps-seq (drop_peer-Keeps s.peer) (
        Keeps-bind (load-Keeps p) (λ s.
          Keeps-seq (send_packet-Keeps (packet a_clse arg0 s.id) s.transport)
            (Keeps-seq (remove_transport_disconnect-Keeps s.transport p) (free-Keeps p))))))

  jdwp_close-Keeps : (p : ℕ) → Keeps (jdwp_close_with rec p)
  unfolding jdwp_close_with
  jdwp_close-Keeps p =
      Keeps-bind (load-Keeps p)
        (λ s. Keeps-seq (remove_socket-Keeps p) (Keeps-seq (drop_peer-Keeps s.peer) (free-Keeps p)))

  tracker_close-Keeps : (p : ℕ) → Keeps (jdwp_tracker_close_with rec p)
  unfolding jdwp_tracker_close_with
  tracker_close-Keeps p = Keeps-bind (load-Keeps p) (λ s.
      Keeps-seq (drop_peer-Keeps s.peer)
        (Keeps-seq (remove_socket-Keeps p) (Keeps-seq (untrack-Keeps p) (free-Keeps p))))

  notify_close-Keeps : (p : ℕ) → Keeps (local_close_notify_with rec p)
  unfolding local_close_notify_with
  notify_close-Keeps p =
      Keeps-seq
        (modify-Keeps p (λ s. record s {
          ready = ReadyFn.local_socket_ready;
          close = CloseFn.local_socket_close;
        }))
        (Keeps-bind (load-Keeps p) (λ s. Keeps-seq (writex_to-Keeps s.fd closed_message) (hr p)))

  close_with-Keeps : (c : CloseFn) (p : ℕ) → Keeps (close_with c rec p)
  unfolding close_with
  close_with-Keeps CloseFn.local_socket_close p = local_close_locked-Keeps p
  close_with-Keeps CloseFn.remote_socket_close p = remote_close-Keeps p
  close_with-Keeps CloseFn.local_socket_close_notify p = notify_close-Keeps p
  close_with-Keeps CloseFn.jdwp_socket_close p = jdwp_close-Keeps p
  close_with-Keeps CloseFn.jdwp_tracker_close p = tracker_close-Keeps p

pub close-Keeps : (f p : ℕ) → Keeps (close f p)
unfolding close
close-Keeps zero p = record { holds = λ T st h. tt }
close-Keeps (suc f) p =
    Keeps-bind (load-Keeps p) (λ s. close_with-Keeps (close f) (close-Keeps f) s.close p)
