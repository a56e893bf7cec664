-- ===== src/Sockets/Ops.antt =====
-- The functions of src/adbd/sockets.c, and of the two JDWP sockets of src/adbd/jdwp_service.c, that
-- a socket's fields point at. Those that close take the call `s->close(s)` as an argument, `rec`;
-- `close` ties the knot on fuel.
use adbd.Base.{
  codes, ℕ, zero, suc, Bool, true, false, ◌||◌, Option, none, some, List, [], ◌∷◌, ◌++◌,
  if◌then◌else◌, Bytes,
}
use adbd.Io.{done, broken, exhausted, writex}
use adbd.Packet.{Packet, seal, a_clse}
use adbd.Sockets.{
  local_socket_ready, CloseFn, local_socket_close, remote_socket_close, local_socket_close_notify,
  jdwp_socket_close, jdwp_tracker_close, Socket, ok, exited, fault, out_of_fuel, Cmd, pure, ◌>>=◌,
  ◌>>◌, update, load, modify, free, unlink, remove_socket,
}

-- A packet with a command and two arguments, as `get_apacket` and three assignments make it.
abbrev pub packet : ℕ → ℕ → ℕ → Packet
packet command arg0 arg1 = record {
  msg = record {
    command = command;
    arg0 = arg0;
    arg1 = arg1;
    data_length = 0;
    data_check = 0;
    magic = 0;
  };
  len = 0;
  bytes = [];
}

-- `send_packet`: nothing without a transport. A failure of the write of the pointer ends the process
-- and is not modelled.
unfoldable pub send_packet : Packet → Option ℕ → Cmd (Unit {0})
send_packet p none st = ok tt st
send_packet p (some t) st = ok tt (record st { sent = st.sent ++ ((t, seal p) ∷ []) })

unfoldable pub add_transport_disconnect : Option ℕ → ℕ → Cmd (Unit {0})
add_transport_disconnect none p st = fault
add_transport_disconnect (some t) p st =
    ok tt (record st { disconnects = update st.disconnects t (st.disconnects t ++ (p ∷ [])) })

-- The node of `p` leaves the list that it stands in, that of its own transport.
unfoldable pub remove_transport_disconnect : Option ℕ → ℕ → Cmd (Unit {0})
unfolding unlink
remove_transport_disconnect none p st = ok tt st
remove_transport_disconnect (some t) p st =
    ok tt (record st { disconnects = update st.disconnects t (unlink p (st.disconnects t)) })

abbrev pub is_empty {ℓ} : {A : Type ℓ} → List A → Bool
is_empty [] = true
is_empty (x ∷ xs) = false

unfoldable pub exit_if : Bool → Cmd (Unit {0})
exit_if true st = exited st
exit_if false st = ok tt st

-- `fdevent_remove` of an installed fdevent closes its descriptor.
unfoldable pub fdevent_remove : Socket → Cmd (Unit {0})
fdevent_remove s st =
    ok tt (if s.active then record st { closed = st.closed ++ (s.fd ∷ []) } else st)

unfoldable pub local_socket_destroy : ℕ → Cmd (Unit {0})
unfolding load fdevent_remove remove_socket free exit_if
local_socket_destroy p = do
  s ← load p
  fdevent_remove s
  remove_socket p
  free p
  exit_if s.exit_on_close

unfoldable pub insert_closing : ℕ → Cmd (Unit {0})
unfolding modify
insert_closing p st =
    modify p (λ s. record s { linked = true })
      (record st { closing_list = st.closing_list ++ (p ∷ []) })

-- `s->peer->peer=0` and the close of the peer, if there is one.
unfoldable pub drop_peer : (ℕ → Cmd (Unit {0})) → Option ℕ → Cmd (Unit {0})
unfolding modify
drop_peer rec none = pure tt
drop_peer rec (some q) = do modify q (λ s. record s { peer = none }); rec q

-- The close that waits for the queue to drain.
unfoldable pub linger : ℕ → Cmd (Unit {0})
unfolding modify remove_socket insert_closing
linger p = do
  modify p (λ s. record s { closing = true; fde_read = false })
  remove_socket p
  insert_closing p

unfoldable pub finish_close : ℕ → Socket → Cmd (Unit {0})
unfolding local_socket_destroy linger
finish_close p s = if s.closing || is_empty s.queue then local_socket_destroy p else linger p

unfoldable pub local_socket_close_locked : (ℕ → Cmd (Unit {0})) → ℕ → Cmd (Unit {0})
unfolding load modify drop_peer finish_close
local_socket_close_locked rec p = do
  s ← load p
  drop_peer rec s.peer
  modify p (λ s. record s { peer = none })
  s ← load p
  finish_close p s

-- `s->peer->id`, or the zero of a new packet.
unfoldable pub peer_id : Option ℕ → Cmd ℕ
unfolding load
peer_id none = pure 0
peer_id (some q) = do s ← load q; pure s.id

unfoldable pub remote_close_with : (ℕ → Cmd (Unit {0})) → ℕ → Cmd (Unit {0})
unfolding load peer_id drop_peer send_packet remove_transport_disconnect free
remote_close_with rec p = do
  s ← load p
  arg0 ← peer_id s.peer
  drop_peer rec s.peer
  s ← load p
  send_packet (packet a_clse arg0 s.id) s.transport
  remove_transport_disconnect s.transport p
  free p

-- `writex` to a descriptor, its result unread.
unfoldable pub writex_to : ℕ → Bytes → Cmd (Unit {0})
writex_to fd bs st = elim (writex bs (st.sinks fd)) [
  | done s ↦ ok tt (record st { sinks = update st.sinks fd s })
  | broken s ↦ ok tt (record st { sinks = update st.sinks fd s })
  | exhausted ↦ out_of_fuel
]

-- "FAIL0006closed"
abbrev pub closed_message : Bytes
closed_message = codes "FAIL0006closed"

unfoldable pub local_close_notify_with : (ℕ → Cmd (Unit {0})) → ℕ → Cmd (Unit {0})
unfolding load modify writex_to
local_close_notify_with rec p = do
  modify p (λ s. record s { ready = local_socket_ready; close = local_socket_close })
  s ← load p
  writex_to s.fd closed_message
  rec p

unfoldable pub jdwp_close_with : (ℕ → Cmd (Unit {0})) → ℕ → Cmd (Unit {0})
unfolding load remove_socket drop_peer free
jdwp_close_with rec p = do s ← load p; remove_socket p; drop_peer rec s.peer; free p

unfoldable pub untrack : ℕ → Cmd (Unit {0})
unfolding unlink
untrack p st = ok tt (record st { trackers = unlink p st.trackers })

unfoldable pub jdwp_tracker_close_with : (ℕ → Cmd (Unit {0})) → ℕ → Cmd (Unit {0})
unfolding load drop_peer remove_socket untrack free
jdwp_tracker_close_with rec p = do
  s ← load p
  drop_peer rec s.peer
  remove_socket p
  untrack p
  free p

-- The function that `s->close` points at.
unfoldable pub close_with : CloseFn → (ℕ → Cmd (Unit {0})) → ℕ → Cmd (Unit {0})
unfolding local_socket_close_locked remote_close_with local_close_notify_with jdwp_close_with
    jdwp_tracker_close_with
close_with local_socket_close = local_socket_close_locked
close_with remote_socket_close = remote_close_with
close_with local_socket_close_notify = local_close_notify_with
close_with jdwp_socket_close = jdwp_close_with
close_with jdwp_tracker_close = jdwp_tracker_close_with

-- `s->close(s)`.
unfoldable pub close : ℕ → ℕ → Cmd (Unit {0})
unfolding load close_with
close zero p = λ _. out_of_fuel
close (suc f) p = do s ← load p; close_with s.close (close f) p
