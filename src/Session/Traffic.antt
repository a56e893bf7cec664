-- ===== src/Session/Traffic.antt =====
-- The cases OPEN, OKAY, CLSE and WRTE leave every transport's object alone.
use adbd.Base.{ℕ, Option, none, some, Bytes}
use adbd.Packet.{Packet}
use adbd.Sockets.Frame.{
  Keeps, Keeps-bind, Keeps-seq, Keeps-pure, Keeps-if, load-Keeps, modify-Keeps,
}
use adbd.Sockets.FrameOps.{send_packet-Keeps, close-Keeps}
use adbd.Sockets.FrameTransfer.{
  enqueue-Keeps, ready-Keeps, create_local_socket-Keeps, create_remote_socket-Keeps,
  create_jdwp_service_socket-Keeps, create_jdwp_tracker_service_socket-Keeps,
}
use adbd.Sockets.Transfer.{Answer, settled, waiting, gone}
use adbd.Session.{send_close, send_ready, depth, Env}
use adbd.Session.Handler.{
  pair_up, create_local_service_socket, answer, handle_close, handle_write, service_socket,
  ensure_peer, handle_okay, opened, open_request, handle_open,
}

service_socket-Keeps : (e : Env) (name : Bytes) (o : Option ℕ) → Keeps (service_socket e name o)
unfolding service_socket
service_socket-Keeps e name none = Keeps-pure none
service_socket-Keeps e name (some fd) =
    Keeps-bind (create_local_socket-Keeps fd)
      (λ p. Keeps-seq (modify-Keeps p _) (Keeps-pure (some p)))

create_local_service_socket-Keeps :
    (e : Env) (name : Bytes) → Keeps (create_local_service_socket e name)
unfolding create_local_service_socket
create_local_service_socket-Keeps e name =
    Keeps-if _ (Keeps-bind create_jdwp_service_socket-Keeps (λ p. Keeps-pure (some p))) (
      Keeps-if _ (Keeps-bind create_jdwp_tracker_service_socket-Keeps (λ p. Keeps-pure (some p)))
        (service_socket-Keeps e name _))

pair_up-Keeps : (p id t : ℕ) → Keeps (pair_up p id t)
unfolding pair_up
pair_up-Keeps p id t =
    Keeps-bind (create_remote_socket-Keeps id t)
      (λ q. Keeps-seq (modify-Keeps p _) (Keeps-seq (modify-Keeps q _) (Keeps-pure q)))

opened-Keeps : (p : Packet) (t : ℕ) (o : Option ℕ) → Keeps (opened p t o)
unfolding opened send_close send_ready
opened-Keeps p t none = send_packet-Keeps _ (some t)
opened-Keeps p t (some l) = Keeps-bind (pair_up-Keeps l p.msg.arg0 t) (λ q.
    Keeps-bind (load-Keeps l) (λ s.
      Keeps-bind (load-Keeps q)
        (λ r. Keeps-seq (send_packet-Keeps _ (some t)) (ready-Keeps depth l))))

pub handle_open-Keeps : (e : Env) (p : Packet) (t : ℕ) → Keeps (handle_open e p t)
unfolding handle_open
handle_open-Keeps e p t =
    Keeps-bind (create_local_service_socket-Keeps e (open_request p)) (opened-Keeps p t)

ensure_peer-Keeps : (p : Packet) (t l : ℕ) (o : Option ℕ) → Keeps (ensure_peer p t l o)
unfolding ensure_peer
ensure_peer-Keeps p t l (some q) = Keeps-pure tt
ensure_peer-Keeps p t l none = Keeps-bind (pair_up-Keeps l p.msg.arg0 t) (λ q. Keeps-pure tt)

pub handle_okay-Keeps : (p : Packet) (t : ℕ) (o : Option ℕ) → Keeps (handle_okay p t o)
unfolding handle_okay
handle_okay-Keeps p t none = Keeps-pure tt
handle_okay-Keeps p t (some l) =
    Keeps-bind (load-Keeps l)
      (λ s. Keeps-seq (ensure_peer-Keeps p t l s.peer) (ready-Keeps depth l))

pub handle_close-Keeps : (o : Option ℕ) → Keeps (handle_close o)
unfolding handle_close
handle_close-Keeps none = Keeps-pure tt
handle_close-Keeps (some l) = close-Keeps depth l

answer-Keeps : (l remote t : ℕ) (a : Answer) → Keeps (answer l remote t a)
unfolding answer send_ready
answer-Keeps l remote t settled = Keeps-bind (load-Keeps l) (λ s. send_packet-Keeps _ (some t))
answer-Keeps l remote t waiting = Keeps-pure tt
answer-Keeps l remote t gone = Keeps-pure tt

pub handle_write-Keeps : (p : Packet) (t : ℕ) (o : Option ℕ) → Keeps (handle_write p t o)
unfolding handle_write
handle_write-Keeps p t none = Keeps-pure tt
handle_write-Keeps p t (some l) = Keeps-bind (enqueue-Keeps depth l _) (answer-Keeps l p.msg.arg0 t)
