-- ===== src/Sockets.antt =====
-- The sockets of src/adbd/sockets.c: the objects, the two lists that they stand in, and the store
-- that every operation works on. A pointer is a number; `sockets` says which object stands there, and
-- a load of a freed or null pointer is a fault. The mutex is not modelled: each operation here runs
-- on the event thread. A doubly linked list is the list of its members from the head on. Of a
-- socket's fdevent only the interest bits are kept here.
pub mod Ops
pub mod Valid
pub mod Cut
pub mod Joined
pub mod Altered
pub mod Steps
pub mod Closing
pub mod Pairs
pub mod Lingering
pub mod Serving
pub mod CloseAll
pub mod Hex
pub mod Smart
pub mod Frame
pub mod FrameOps
pub mod FrameTransfer
pub mod Transfer
pub mod Events
pub mod Live
pub mod Queue
use adbd.Base.{
  ◌^◌, ℕ, zero, suc, ◌+◌, ◌%◌, Bool, true, false, Option, none, some, List, [], ◌∷◌, ◌++◌, ◌==◌,
  if◌then◌else◌, Bytes,
}
use adbd.Io.{Sink, Source}
use adbd.Packet.{Packet}
use adbd.Transport.{Transport}

-- The functions that a socket's fields `enqueue`, `ready` and `close` point at.
pub data EnqueueFn : Type 0 where
  local_socket_enqueue remote_socket_enqueue jdwp_socket_enqueue jdwp_tracker_enqueue : EnqueueFn

pub data ReadyFn : Type 0 where
  local_socket_ready remote_socket_ready local_socket_ready_notify : ReadyFn
  jdwp_socket_ready jdwp_tracker_ready : ReadyFn

pub data CloseFn : Type 0 where
  local_socket_close remote_socket_close local_socket_close_notify : CloseFn
  jdwp_socket_close jdwp_tracker_close : CloseFn

-- `asocket`, with `pass` of JdwpSocket and `need_update` of JdwpTracker. The queue holds what is
-- left of each packet, from `ptr` on, `pkt_first` first. `linked` says that `next` and `prev` are
-- set, `active` that the fdevent is installed.
pub record Socket : Type 0 where
  pub id : ℕ
  pub closing : Bool
  pub exit_on_close : Bool
  pub peer : Option ℕ
  pub fd : ℕ
  pub queue : List Bytes
  pub enqueue : EnqueueFn
  pub ready : ReadyFn
  pub close : CloseFn
  pub transport : Option ℕ
  pub fde_read : Bool
  pub fde_write : Bool
  pub linked : Bool
  pub active : Bool
  pub force_eof : Bool
  pub pass : Bool
  pub need_update : Bool

-- `calloc(1,sizeof(asocket))` and the three functions that the creator sets.
abbrev pub blank : EnqueueFn → ReadyFn → CloseFn → Socket
blank e r c = record {
  id = 0;
  closing = false;
  exit_on_close = false;
  peer = none;
  fd = 0;
  queue = [];
  enqueue = e;
  ready = r;
  close = c;
  transport = none;
  fde_read = false;
  fde_write = false;
  linked = false;
  active = false;
  force_eof = false;
  pass = false;
  need_update = false;
}

-- `framework_fd` of src/adbd/adb_auth_client.c: -1; the descriptor that the last accept gave, which
-- epoll does not hold; or that one once epoll holds it for a transport's `auth_fde`.
pub data Framework : Type 0 where
  absent present watched : Framework

-- `fresh` is what calloc returns next. `sent` holds what `send_packet` has handed to each
-- transport's socket, the newest last; `disconnects` the remote sockets that stand in a transport's
-- disconnect list; `sinks` what is written to each descriptor, `sources` what will be read from it,
-- both with what the kernel's calls will do; `closed` the descriptors that were closed; `processes`
-- the list of src/adbd/jdwp_service.c; `transports` what each transport's object holds; `framework`
-- the connection of the framework.
pub record Store : Type 0 where
  pub sockets : ℕ → Option Socket
  pub fresh : ℕ
  pub socket_list : List ℕ
  pub closing_list : List ℕ
  pub trackers : List ℕ
  pub next_id : ℕ
  pub disconnects : ℕ → List ℕ
  pub sent : List (ℕ × Packet)
  pub sinks : ℕ → Sink
  pub sources : ℕ → Source
  pub closed : List ℕ
  pub processes : List (Option ℕ)
  pub framework : Framework
  pub transports : ℕ → Transport

-- How an operation ends: with a value; by `exit(1)`; at a null or freed pointer; short of fuel.
pub data Run {ℓ} (A : Type ℓ) : Type ℓ where
  ok : A → Store → Run A
  exited : Store → Run A
  fault : Run A
  out_of_fuel : Run A

abbrev pub Cmd {ℓ} : Type ℓ → Type ℓ
Cmd A = Store → Run A

abbrev pub pure {ℓ} : {A : Type ℓ} → A → Cmd A
pure a st = ok a st

abbrev pub and_then {ℓ κ} : {A : Type ℓ} {B : Type κ} → Run A → (A → Cmd B) → Run B
and_then (ok a st) k = k a st
and_then (exited st) k = exited st
and_then fault k = fault
and_then out_of_fuel k = out_of_fuel

infixl 5 ◌>>=◌ ◌>>◌
abbrev pub ◌>>=◌ {ℓ κ} : {A : Type ℓ} {B : Type κ} → Cmd A → (A → Cmd B) → Cmd B
◌>>=◌ m k st = and_then (m st) k

abbrev pub ◌>>◌ {ℓ} : {B : Type ℓ} → Cmd (Unit {0}) → Cmd B → Cmd B
m >> k = m >>= λ _. k

abbrev pub update {ℓ} : {A : Type ℓ} → (ℕ → A) → ℕ → A → ℕ → A
update f p v q = if p == q then v else f q

-- `*p`
abbrev pub fetch : Option Socket → Cmd Socket
fetch none st = fault
fetch (some s) st = ok s st

unfoldable pub load : ℕ → Cmd Socket
load p st = fetch (st.sockets p) st

unfoldable pub store : ℕ → Socket → Cmd (Unit {0})
store p s st = ok tt (record st { sockets = update st.sockets p (some s) })

-- An assignment to a field of `*p`.
unfoldable pub modify : ℕ → (Socket → Socket) → Cmd (Unit {0})
unfolding load store
modify p f = do s ← load p; store p (f s)

unfoldable pub free : ℕ → Cmd (Unit {0})
free p st = ok tt (record st { sockets = update st.sockets p none })

unfoldable pub calloc : Socket → Cmd ℕ
calloc s st =
    ok st.fresh (record st { sockets = update st.sockets st.fresh (some s); fresh = st.fresh + 1 })

-- A pointer taken off the list that it stands in.
unfoldable pub unlink : ℕ → List ℕ → List ℕ
unlink p [] = []
unlink p (q ∷ qs) = if p == q then qs else q ∷ unlink p qs

-- The socket `p`, whose object is `s`, leaves its list and loses its id.
pub detach : ℕ → Socket → Cmd (Unit {0})
unfolding store unlink
detach p s st =
    store p (record s { linked = false; id = 0 })
      (record st { socket_list = unlink p st.socket_list; closing_list = unlink p st.closing_list })

-- `remove_socket`: nothing if the socket stands in no list.
unfoldable pub remove_socket : ℕ → Cmd (Unit {0})
unfolding load detach
remove_socket p = do s ← load p; if s.linked then detach p s else pure tt

-- `install_local_socket`: the next id, 32 bits wide, and the tail of the local list.
unfoldable pub install_local_socket : ℕ → Cmd (Unit {0})
unfolding modify
install_local_socket p st =
    modify p (λ s. record s { id = st.next_id; linked = true })
      (record st { next_id = (st.next_id + 1) % 2 ^ 32; socket_list = st.socket_list ++ (p ∷ []) })

-- The loop of `find_local_socket`.
unfoldable pub find_in : ℕ → List ℕ → Cmd (Option ℕ)
unfolding load
find_in id [] = pure none
find_in id (p ∷ ps) = do s ← load p; if s.id == id then pure (some p) else find_in id ps

unfoldable pub find_local_socket : ℕ → Cmd (Option ℕ)
unfolding find_in
find_local_socket id st = find_in id st.socket_list st
