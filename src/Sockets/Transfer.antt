-- ===== src/Sockets/Transfer.antt =====
-- The functions that move packets: `enqueue` and `ready` of each kind of socket, the event handler of
-- a local socket and the creators (src/adbd/sockets.c, src/adbd/jdwp_service.c).
use adbd.Base.{
  codes, ℕ, zero, suc, Bool, true, false, Option, none, some, List, [], ◌∷◌, ◌++◌, Bytes, length,
  take, drop,
}
use adbd.Io.{eintr, eagain, other, Sink, took, refused, adb_write}
use adbd.Packet.{Packet, a_okay, a_wrte, max_payload}
use adbd.Jdwp.{jdwp_process_list, jdwp_process_list_msg}
use adbd.Sockets.{
  EnqueueFn, local_socket_enqueue, remote_socket_enqueue, jdwp_socket_enqueue, jdwp_tracker_enqueue,
  ReadyFn, local_socket_ready, remote_socket_ready, local_socket_ready_notify, jdwp_socket_ready,
  jdwp_tracker_ready, local_socket_close, remote_socket_close, jdwp_socket_close,
  jdwp_tracker_close, blank, Run, ok, out_of_fuel, Cmd, pure, ◌>>=◌, ◌>>◌, update, load, modify,
  calloc, install_local_socket,
}
use adbd.Sockets.Ops.{packet, send_packet, add_transport_disconnect, close}

-- How the writing loop of a packet ends: all is written; the descriptor would block, with the bytes
-- left; the socket must be closed, with the bytes left.
pub data Flush : Type 0 where
  flushed : Sink → Flush
  blocked : Bytes → Sink → Flush
  dead : Bytes → Sink → Flush
  unflushed : Flush

-- `while(p->len>0)` with a write of all that is left. `retry` says whether EINTR repeats the call,
-- as it does in the event handler.
unfoldable pub flush : Bool → ℕ → Bytes → Sink → Flush
flush retry zero bs s = unflushed
flush retry (suc f) [] s = flushed s
flush retry (suc f) (b ∷ bs) s = elim (adb_write (b ∷ bs) s.written s.plan) [
  | took zero s' ↦ dead (b ∷ bs) s'
  | took (suc n) s' ↦ flush retry f (drop (suc n) (b ∷ bs)) s'
  | refused eagain s' ↦ blocked (b ∷ bs) s'
  | refused eintr s' ↦ elim retry [ true ↦ flush retry f (b ∷ bs) s' | false ↦ dead (b ∷ bs) s' ]
  | refused other s' ↦ dead (b ∷ bs) s'
]

-- What an `enqueue` returns: 0, 1 or -1.
pub data Answer : Type 0 where
  settled waiting gone : Answer

unfoldable pub set_sink : ℕ → Sink → Cmd (Unit {0})
set_sink fd s st = ok tt (record st { sinks = update st.sinks fd s })

-- The label `enqueue` of `local_socket_enqueue`.
unfoldable pub append_packet : ℕ → Bytes → Cmd Answer
unfolding modify
append_packet p bs = do
  modify p (λ s. record s { queue = s.queue ++ (bs ∷ []); fde_write = true })
  pure waiting

-- What `local_socket_enqueue` does behind its loop.
unfoldable pub after_flush : ℕ → ℕ → ℕ → Flush → Cmd Answer
unfolding set_sink append_packet close
after_flush f p fd (flushed s) = do set_sink fd s; pure settled
after_flush f p fd (blocked rest s) = do set_sink fd s; append_packet p rest
after_flush f p fd (dead rest s) = do set_sink fd s; close f p; pure waiting
after_flush f p fd unflushed = λ _. out_of_fuel

-- Whether a packet waits already decides what happens to the next one.
unfoldable pub enqueue_on : ℕ → ℕ → Bytes → ℕ → List Bytes → Cmd Answer
unfolding append_packet after_flush flush
enqueue_on f p bs fd (q ∷ qs) = append_packet p bs
enqueue_on f p bs fd [] =
    λ st. after_flush f p fd (flush false (suc (length bs)) bs (st.sinks fd)) st

unfoldable pub local_enqueue : ℕ → ℕ → Packet → Cmd Answer
unfolding load enqueue_on
local_enqueue f p pkt = do s ← load p; enqueue_on f p (take pkt.len pkt.bytes) s.fd s.queue

-- `s->peer`, where the source follows it with no test.
unfoldable pub the_peer : Option ℕ → Cmd ℕ
the_peer none st = Run.fault
the_peer (some q) st = ok q st

unfoldable pub remote_enqueue : ℕ → Packet → Cmd Answer
unfolding load the_peer send_packet
remote_enqueue p pkt = do
  s ← load p
  q ← the_peer s.peer
  peer ← load q
  send_packet
      (record pkt {
        msg = record pkt.msg {
          command = a_wrte;
          arg0 = peer.id;
          arg1 = s.id;
          data_length = pkt.len;
        };
      })
      s.transport
  pure waiting

-- `jdwp_socket_enqueue` and `jdwp_tracker_enqueue`, which read alike.
unfoldable pub jdwp_enqueue : ℕ → ℕ → Cmd Answer
unfolding load the_peer close
jdwp_enqueue f p = do s ← load p; q ← the_peer s.peer; close f q; pure gone

-- The function that `s->enqueue` points at.
unfoldable pub enqueue_with : EnqueueFn → ℕ → ℕ → Packet → Cmd Answer
unfolding local_enqueue remote_enqueue jdwp_enqueue
enqueue_with local_socket_enqueue f p pkt = local_enqueue f p pkt
enqueue_with remote_socket_enqueue f p pkt = remote_enqueue p pkt
enqueue_with jdwp_socket_enqueue f p pkt = jdwp_enqueue f p
enqueue_with jdwp_tracker_enqueue f p pkt = jdwp_enqueue f p

-- `s->enqueue(s,p)`.
unfoldable pub enqueue : ℕ → ℕ → Packet → Cmd Answer
unfolding load enqueue_with
enqueue f p pkt = do s ← load p; enqueue_with s.enqueue f p pkt

unfoldable pub local_ready : ℕ → Cmd (Unit {0})
unfolding modify
local_ready p = modify p (λ s. record s { fde_read = true })

unfoldable pub remote_ready : ℕ → Cmd (Unit {0})
unfolding load the_peer send_packet
remote_ready p = do
  s ← load p
  q ← the_peer s.peer
  peer ← load q
  send_packet (packet a_okay peer.id s.id) s.transport

-- The single `adb_write` of "OKAY", its result unread.
unfoldable pub okay_once : ℕ → Cmd (Unit {0})
okay_once fd st = elim (adb_write (codes "OKAY") (st.sinks fd).written (st.sinks fd).plan) [
  | took n s ↦ ok tt (record st { sinks = update st.sinks fd s })
  | refused e s ↦ ok tt (record st { sinks = update st.sinks fd s })
]

-- `local_socket_ready_notify`: the call `s->ready(s)` at its end is that of the function just set.
unfoldable pub ready_notify : ℕ → Cmd (Unit {0})
unfolding load modify okay_once local_ready
ready_notify p = do
  modify p (λ s. record s { ready = local_socket_ready; close = local_socket_close })
  s ← load p
  okay_once s.fd
  local_ready p

-- A packet with `len` set and the text in its data.
abbrev pub text_packet : Bytes → Packet
text_packet bs = record {
  msg = record { command = 0; arg0 = 0; arg1 = 0; data_length = 0; data_check = 0; magic = 0 };
  len = length bs;
  bytes = bs;
}

-- The two branches of `jdwp_socket_ready`.
unfoldable pub jdwp_pass : ℕ → ℕ → Option ℕ → Bool → Cmd (Unit {0})
unfolding the_peer enqueue modify close
jdwp_pass f p peer false = do
  q ← the_peer peer
  λ st.
      (enqueue f q (text_packet (jdwp_process_list st.processes max_payload)) >>= λ _.
      modify p (λ s. record s { pass = true }))
        st
jdwp_pass f p peer true = do q ← the_peer peer; close f q

unfoldable pub jdwp_ready : ℕ → ℕ → Cmd (Unit {0})
unfolding load jdwp_pass
jdwp_ready f p = do s ← load p; jdwp_pass f p s.peer s.pass

-- The body of `jdwp_tracker_ready` behind its test.
unfoldable pub tracker_update : ℕ → ℕ → Bool → Cmd (Unit {0})
unfolding load modify the_peer enqueue
tracker_update f p false = pure tt
tracker_update f p true = do
  modify p (λ s. record s { need_update = false })
  s ← load p
  q ← the_peer s.peer
  λ st.
      (enqueue f q (text_packet (jdwp_process_list_msg st.processes max_payload)) >>= λ _. pure tt)
        st

unfoldable pub tracker_ready : ℕ → ℕ → Cmd (Unit {0})
unfolding load tracker_update
tracker_ready f p = do s ← load p; tracker_update f p s.need_update

-- The function that `s->ready` points at.
unfoldable pub ready_with : ReadyFn → ℕ → ℕ → Cmd (Unit {0})
unfolding local_ready remote_ready ready_notify jdwp_ready tracker_ready
ready_with local_socket_ready f p = local_ready p
ready_with remote_socket_ready f p = remote_ready p
ready_with local_socket_ready_notify f p = ready_notify p
ready_with jdwp_socket_ready f p = jdwp_ready f p
ready_with jdwp_tracker_ready f p = tracker_ready f p

-- `s->ready(s)`.
unfoldable pub ready : ℕ → ℕ → Cmd (Unit {0})
unfolding load ready_with
ready f p = do s ← load p; ready_with s.ready f p

-- `create_local_socket`.
unfoldable pub create_local_socket : ℕ → Cmd ℕ
unfolding calloc install_local_socket modify
create_local_socket fd = do
  p ← calloc (record (blank local_socket_enqueue local_socket_ready local_socket_close) { fd = fd })
  install_local_socket p
  modify p (λ s. record s { active = true })
  pure p

-- `create_remote_socket`: the object joins the transport's disconnect list, and no other.
unfoldable pub create_remote_socket : ℕ → ℕ → Cmd ℕ
unfolding calloc add_transport_disconnect
create_remote_socket id t = do
  p ← calloc (record (blank remote_socket_enqueue remote_socket_ready remote_socket_close) {
    id = id;
    transport = some t;
  })
  add_transport_disconnect (some t) p
  pure p

unfoldable pub create_jdwp_service_socket : Cmd ℕ
unfolding calloc install_local_socket
create_jdwp_service_socket = do
  p ← calloc (blank jdwp_socket_enqueue jdwp_socket_ready jdwp_socket_close)
  install_local_socket p
  pure p

unfoldable pub track : ℕ → Cmd (Unit {0})
track p st = ok tt (record st { trackers = st.trackers ++ (p ∷ []) })

unfoldable pub create_jdwp_tracker_service_socket : Cmd ℕ
unfolding calloc track install_local_socket modify
create_jdwp_tracker_service_socket = do
  p ← calloc (blank jdwp_tracker_enqueue jdwp_tracker_ready jdwp_tracker_close)
  track p
  install_local_socket p
  modify p (λ s. record s { need_update = true })
  pure p
