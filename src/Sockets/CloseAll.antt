-- ===== src/Sockets/CloseAll.antt =====
-- `close_all_sockets` of src/adbd/sockets.c, which the input thread of a transport calls at its end.
pub mod Search
pub mod Emptied
use adbd.Base.{
  Option, none, some, ℕ, zero, suc, Bool, true, false, List, [], ◌∷◌, ◌==◌, if◌then◌else◌, length,
}
use adbd.Sockets.{Cmd, Socket, pure, ◌>>=◌, ◌>>◌, load, out_of_fuel}
use adbd.Sockets.Ops.{local_socket_close_locked, close}

-- `s->transport==t`
unfoldable pub transport_is : ℕ → Option ℕ → Bool
transport_is t none = false
transport_is t (some u) = u == t

-- `s->peer&&s->peer->transport==t`
unfoldable pub peer_transport_is : ℕ → Option ℕ → Cmd Bool
unfolding load transport_is
peer_transport_is t none = pure false
peer_transport_is t (some q) = do s ← load q; pure (transport_is t s.transport)

unfoldable pub belongs : ℕ → Socket → Cmd Bool
unfolding transport_is peer_transport_is
belongs t s = if transport_is t s.transport then pure true else peer_transport_is t s.peer

-- The first of the list that belongs to the transport.
unfoldable pub find_belonging : ℕ → List ℕ → Cmd (Option ℕ)
unfolding load belongs
find_belonging t [] = pure none
find_belonging t (p ∷ ps) = do
  s ← load p
  b ← belongs t s
  if b then pure (some p) else find_belonging t ps

-- The loop, which starts again at the head of the list behind every close.
unfoldable pub close_all_loop : ℕ → ℕ → Cmd (Unit {0})
unfolding find_belonging local_socket_close_locked close
close_all_loop zero t st = out_of_fuel
close_all_loop (suc f) t st =
    (find_belonging t st.socket_list >>= λ o. elim o [
      | none ↦ pure tt
      | some p ↦ local_socket_close_locked (close 3) p >> close_all_loop f t
    ])
      st

-- One round for each listed socket, and the last one that finds none.
unfoldable pub close_all_sockets : ℕ → Cmd (Unit {0})
unfolding close_all_loop
close_all_sockets t st = close_all_loop (suc (length st.socket_list)) t st
