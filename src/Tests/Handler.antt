-- ===== src/Tests/Handler.antt =====
-- The packet handler at concrete stores.
use adbd.Session.Handler.{framework_comes}
use adbd.Base.{Bool}
use adbd.Sockets.{Run, exited, out_of_fuel}
use adbd.Sockets.{fault}
use adbd.Sockets.{absent}
use adbd.Session.Banner.{parse_banner-connect_text}
use adbd.Base.{◌++◌}
use adbd.Transport.{c_string, state_of, parse_banner, cs_device}
use adbd.Sockets.Altered.{Safe}
use adbd.Sockets.Valid.{IsValid}
use adbd.Session.{connect_text}
use adbd.Session.Machine.{Cause, steps, steps-IsValid, comes, is_ready}
use adbd.Packet.{a_sync, a_clse}
use adbd.Base.{◌≡◌, refl, false, true, [], ◌∷◌, arith, codes, none, some, List}
use adbd.Io.{give, fault, eagain}
use adbd.Sockets.Queue.{Queued, local_enqueue-Queued, Drains, drain-Drains}
use adbd.Sockets.Events.{drain}
use adbd.Sockets.Transfer.{local_enqueue}
use adbd.Packet.{Packet, a_wrte, a_cnxn, a_open, a_auth}
use adbd.Transport.{Transport, cs_offline}
use adbd.Sockets.{
  Socket, blank, update, local_socket_enqueue, local_socket_ready, local_socket_close, Store, ok,
}
use adbd.Sockets.Frame.{Ends}
use adbd.Sockets.Ops.{packet}
use adbd.Session.{Env, data_packet}
use adbd.Session.Handler.{Event, arrives, answers, handle_packet, handle_events}
use adbd.Session.Down.{Down}
use adbd.Session.Gate.{handle_packet-offline}
use adbd.Session.Auth.{handle_packet-Down, handle_events-Down}

-- A device that asks for authentication, and opens descriptor 5 for every service.
abbrev env : Env
env = record {
  host = false;
  auth_enabled = true;
  recovery = false;
  uid = 0;
  banner = codes "device";
  product = codes "Linux";
  model = codes "Systemd";
  device = codes "GNU";
  open_service = λ s. some 5;
  random = some (codes "01234567890123456789");
  key_written = λ bs. true;
}

abbrev fresh_transport : Transport
fresh_transport = record {
  online = false;
  connection_state = cs_offline;
  product = none;
  model = none;
  device = none;
  token = [];
  auth_wait = false;
  failed_auth_attempts = 0;
}

abbrev pub empty_store : Store
empty_store = record {
  sockets = λ p. none;
  fresh = 1;
  socket_list = [];
  closing_list = [];
  trackers = [];
  next_id = 1;
  disconnects = λ t. [];
  sent = [];
  sinks = λ fd. record { written = []; plan = [] };
  sources = λ fd. record { bytes = []; plan = [] };
  closed = [];
  processes = [];
  framework = absent;
  transports = λ t. fresh_transport;
}

abbrev hello : Packet
hello = data_packet a_cnxn 0x0100_0000 4096 (codes "host::")

abbrev signature : Packet
signature = data_packet a_auth 2 0 (codes "forged")

abbrev key : Packet
key = data_packet a_auth 3 0 (65 ∷ 0 ∷ [])

abbrev open_shell : Packet
open_shell = data_packet a_open 3 0 (codes "shell:")

handle_packet-offline_example : handle_packet env open_shell 0 empty_store ≡ ok tt empty_store
handle_packet-offline_example =
    handle_packet-offline env open_shell 0 empty_store refl (omega arith) (omega arith)
      (omega arith)

handle_packet-Down_example : Ends (Down 0) (handle_packet env signature 0 empty_store)
handle_packet-Down_example = handle_packet-Down 0 env refl refl signature 0 empty_store refl

-- A connection, a forged signature, a service request, the framework's connection, a key, and the
-- framework's "OK" for another transport.
abbrev attack : List Event
attack =
    arrives hello 0
    ∷ (arrives signature 0
        ∷ (arrives open_shell 0
            ∷ (framework_comes ∷ (arrives key 0 ∷ (answers (some (codes "OK")) 1 ∷ [])))))

handle_events-Down_example : Ends (Down 0) (handle_events env attack empty_store)
handle_events-Down_example =
    handle_events-Down 0 env refl refl attack empty_store
      (tt, (tt, (tt, (tt, (tt, ((λ e. absurd (omega arith)), tt)))))) refl

-- A second key while the framework's answer to the first is awaited ends the process.
abbrev exits : {A : Type 0} → Run A → Bool
exits (ok a st) = false
exits (exited st) = true
exits fault = false
exits out_of_fuel = false

second_key_ends :
    exits (handle_events env (framework_comes ∷ (arrives key 0 ∷ (arrives key 1 ∷ []))) empty_store)
    ≡ true
unfolding handle_events
second_key_ends = refl

-- A socket with a half-written packet in its queue, on descriptor 5.
abbrev busy : Socket
busy = record (blank local_socket_enqueue local_socket_ready local_socket_close) {
  id = 1;
  fd = 5;
  queue = codes "lo, " ∷ [];
}

abbrev busy_store : Store
busy_store = record empty_store {
  sockets = update (λ p. none) 1 (some busy);
  sinks = λ fd. record { written = codes "hel"; plan = give 1 ∷ (fault eagain ∷ []) };
}

local_enqueue-Queued_example :
    Queued busy_store 1 busy
      (codes "world")
      (local_enqueue 3 1 (record (packet a_wrte 3 1) { len = 5; bytes = codes "world" }) busy_store)
local_enqueue-Queued_example =
    local_enqueue-Queued 3 1 (record (packet a_wrte 3 1) { len = 5; bytes = codes "world" })
      busy_store refl (tt, (tt, tt))

drain-Drains_example : Drains (codes "hel") (codes "lo, " ∷ (codes "world" ∷ [])) (
    drain
      (codes "lo, " ∷ (codes "world" ∷ []))
      (record { written = codes "hel"; plan = give 1 ∷ (fault eagain ∷ []) }))
drain-Drains_example =
    drain-Drains (codes "lo, " ∷ (codes "world" ∷ []))
      (record { written = codes "hel"; plan = give 1 ∷ (fault eagain ∷ []) })

-- Without authentication: a connection, a service, its descriptor ready both ways, a write to it,
-- its close by the host, and the transport's end.
abbrev open_env : Env
open_env = record env { auth_enabled = false }

abbrev life : List Cause
life =
    comes (arrives hello 0)
    ∷ (comes (arrives open_shell 0)
        ∷ (is_ready 1 true true
            ∷ (comes (arrives (data_packet a_wrte 3 1 (codes "ls")) 0)
                ∷ (comes (arrives (data_packet a_clse 3 1 []) 0)
                    ∷ (comes (arrives (data_packet a_sync 0 0 []) 0) ∷ [])))))

steps-IsValid_example : Safe (λ _. IsValid) (steps open_env life empty_store)
unfolding connect_text
steps-IsValid_example =
    steps-IsValid open_env empty_store life refl
      (record { no_socket = λ p. refl; no_local = refl; no_remote = λ t. refl })

parse_banner-connect_text_example :
    parse_banner (c_string (connect_text env ++ (0 ∷ []))) fresh_transport
    ≡ record fresh_transport {
      connection_state = cs_device;
      product = some (codes "Linux");
      model = some (codes "Systemd");
      device = some (codes "GNU");
    }
unfolding state_of
parse_banner-connect_text_example =
    parse_banner-connect_text env
      (record {
        banner = (
          (refl, (refl, (refl, (refl, (refl, (refl, tt)))))),
          (refl, (refl, (refl, (refl, (refl, (refl, tt)))))),
        );
        product = (
          (refl, (refl, (refl, (refl, (refl, tt))))),
          (refl, (refl, (refl, (refl, (refl, tt))))),
        );
        model = (
          (refl, (refl, (refl, (refl, (refl, (refl, (refl, tt))))))),
          (refl, (refl, (refl, (refl, (refl, (refl, (refl, tt))))))),
        );
        device = ((refl, (refl, (refl, tt))), (refl, (refl, (refl, tt))));
      })
      fresh_transport
