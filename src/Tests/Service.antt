-- ===== src/Tests/Service.antt =====
-- The registry of transports and the file service at concrete values.
use adbd.Base.{get_or, Option, zero, suc}
use adbd.Keys.{KeyType, read_keys}
use adbd.Keys.Accepted.{key_lines, read_keys-key_lines}
use adbd.Sockets.Hex.{unhex, unhex-hex4}
use adbd.Registry.Threads.{
  sync_packet, input_thread, before_stop, behind_start, traffic, input_thread-traffic,
}
use adbd.Packet.{a_wrte, Packet}
use adbd.Base.{◌<◌}
use adbd.Jdwp.{hex4, jdwp_process_list_msg}
use adbd.Jdwp.Listing.{Lists, jdwp_process_list_msg-Lists}
use adbd.Sync.Transfer.{handle_send_file, do_recv}
use adbd.Sync.{id_done, id_data, Files, State, opened, eexist, denied, exists_already, not_made}
use adbd.Sync.Recv.{Sends, do_recv-Sends}
use adbd.Sync.Stream.{Carries, over, more}
use adbd.Sync.Send.{handle_send_file-Stored}
use adbd.Sync.Storing.{Stored}
use adbd.Base.{ℕ, ◌+◌, ◌≤◌, Bool, false, length}
use adbd.Listeners.{Listener, install_listener, list_forward, crashed, is_star, listener_line}
use adbd.Listeners.Names.{install_listener-Settles, Distinct, one_if, Settles}
use adbd.Listeners.Format.{Answers, list_forward-listing}
use adbd.Transport.{bytes_eq}
use adbd.Base.{arith}
use adbd.Packet.Wire.{le32}
use adbd.Registry.Match.{qual_match_iff}
use adbd.Base.{none, some, ◌≡◌, refl, ◌↔◌, true, List, [], ◌∷◌, ◌++◌, map, Bytes, codes}
use adbd.Registry.{
  Entry, sanitized, qual_match, acquire_round, transport_usb, transport_any, acquired,
}
use adbd.Registry.Acquire.{candidates, IsReady, acquire_round_iff}
use adbd.Registry.Life.{moves-born}
use adbd.Registry.Turns.{moves, born, threads, held, about_to_kick, gone, over, flagged}
use adbd.Io.{Source, eintr, give, fault}
use adbd.Transport.{cs_device}

abbrev pixel : Entry
pixel = record {
  serial = some (codes "0123");
  devpath = none;
  product = some (codes "sailfish");
  model = some (codes "Pixel 1");
  device = some (codes "marlin");
  ttype = transport_usb;
  connection_state = cs_device;
}

abbrev nexus : Entry
nexus = record pixel { serial = some (codes "4567"); model = some (codes "Nexus") }

abbrev by_model : Bytes
by_model = codes "model:Pixel_1"

qual_match_iff_example :
    (qual_match (codes "model:Pixel_1") (codes "model:") (some (codes "Pixel 1")) true ≡ true)
    ↔ (codes "model:Pixel_1" ≡ codes "model:" ++ map (sanitized true) (codes "Pixel 1"))
qual_match_iff_example =
    qual_match_iff 109 (codes "odel:Pixel_1") (codes "model:") (codes "Pixel 1") true

acquire_round_iff_example :
    (acquire_round none transport_any (some by_model) (nexus ∷ (pixel ∷ [])) ≡ acquired pixel) ↔ (
      (candidates (some by_model) transport_any (nexus ∷ (pixel ∷ [])) ≡ pixel ∷ [])
      × IsReady none pixel)
acquire_round_iff_example =
    acquire_round_iff none transport_any (some by_model) (nexus ∷ (pixel ∷ [])) pixel

-- The first thread sets the flag, the second finds it set and releases, and only then the first
-- makes the kick.
abbrev schedule : List ℕ
schedule = 0 ∷ 1 ∷ 0 ∷ 1 ∷ 1 ∷ 0 ∷ 0 ∷ []

moves-born_example :
    ((moves schedule (threads 0) born).1.closes ≡ gone (held (moves schedule (threads 0) born).0))
    × ((moves schedule (threads 0) born).1.removals
        ≡ gone (held (moves schedule (threads 0) born).0))
    × ((moves schedule (threads 0) born).1.kicks + about_to_kick (moves schedule (threads 0) born).0
        ≤ 1)
    × (gone (held (moves schedule (threads 0) born).0)
        ≤ (moves schedule (threads 0) born).1.kicks
          + about_to_kick (moves schedule (threads 0) born).0)
    × (about_to_kick (moves schedule (threads 0) born).0
        ≤ held (moves schedule (threads 0) born).0 + 0)
moves-born_example = moves-born 0 schedule

-- A call from elsewhere that has set the flag can make its kick behind the close.
late_kick : moves (2 ∷ 2 ∷ 0 ∷ 0 ∷ 1 ∷ 1 ∷ []) (threads 1) born ≡ (
  over ∷ over ∷ flagged false ∷ [],
  record { ref_count = 0; kicked = true; kicks = 0; closes = 1; removals = 1 },
)
unfolding moves
late_kick = refl

-- A file system with one file, which nothing changes.
abbrev notes : Source
notes = record { bytes = codes "to do: nothing"; plan = give 3 ∷ (fault eintr ∷ []) }

abbrev one_file : Files
one_file = record {
  Fs = Unit {0};
  lstat = λ s p. none;
  entries = λ s p. none;
  open_read = λ s p. some notes;
  create_new = λ s p m. (s, eexist);
  open_write = λ s p m. (s, denied);
  store = λ s p b. s;
  mkdir = λ s p. (s, exists_already);
  unlink = λ s p. s;
  symlink = λ s to p. (s, not_made);
  utime = λ s p t. s;
  strerror = λ s. codes "Permission denied";
}

abbrev idle : State Unit
idle = record {
  source = record { bytes = codes "next"; plan = [] };
  sink = record { written = codes "before"; plan = give 0 ∷ [] };
  fs = tt;
}

do_recv-Sends_example :
    Sends (codes "to do: nothing") (codes "before") idle (do_recv one_file (codes "/notes") idle)
do_recv-Sends_example =
    do_recv-Sends one_file (codes "/notes") notes idle refl (tt, (tt, tt)) (tt, tt)

-- A file system that creates every file.
abbrev roomy : Files
roomy = record one_file {
  create_new = λ s p m. (s, opened (record { written = []; plan = give 1 ∷ [] }));
}

abbrev push : Bytes
push = le32 id_data (le32 5 []) ++ (codes "hello" ++ le32 id_done (le32 77 []))

push-Carries : Carries 77 (codes "hello") push
push-Carries = more (codes "hello") [] (le32 id_done (le32 77 [])) (omega arith) (omega arith) over

abbrev pushing : State Unit
pushing = record idle { source = record { bytes = push ++ codes "next"; plan = give 6 ∷ [] } }

handle_send_file-Stored_example :
    Stored roomy
      (codes "/new")
      77
      (codes "hello")
      (codes "next")
      pushing
      (handle_send_file roomy 100 (codes "/new") 420 pushing)
handle_send_file-Stored_example =
    handle_send_file-Stored roomy 100 (codes "/new") 420 77 (codes "hello") push (codes "next") tt
      (record { written = []; plan = give 1 ∷ [] }) pushing refl refl (omega arith) push-Carries
      refl (omega arith) (tt, tt) (tt, tt) (tt, tt)

abbrev smart : Listener
smart = record {
  local_name = codes "tcp:5037";
  connect_to = codes "*smartsocket*";
  transport = none;
  fd = 3;
}

abbrev web : Listener
web = record {
  local_name = codes "tcp:8000";
  connect_to = codes "tcp:80";
  transport = some 1;
  fd = 4;
}

abbrev serial_x : ℕ → Option Bytes
serial_x zero = none
serial_x (suc t) = some (codes "X")

list_forward-listing_example :
    Answers (some (codes "X tcp:8000 tcp:80\n")) (list_forward serial_x (smart ∷ (web ∷ [])))
unfolding is_star listener_line
list_forward-listing_example = list_forward-listing serial_x (smart ∷ (web ∷ []))

-- A listener for a USB transport, which has no serial number.
list_forward_ends :
    list_forward serial_x (smart ∷ (record web { transport = some 0 } ∷ [])) ≡ crashed
unfolding list_forward
list_forward_ends = refl

one-Distinct : Distinct (web ∷ [])
one-Distinct name = go (bytes_eq name web.local_name)
  where
    go : (b : Bool) → one_if b + 0 ≤ 1
    go true = omega arith
    go false = omega arith

install_listener-Settles_example :
    Distinct
      (install_listener
        (λ n. some 9)
        (codes "tcp:8000")
        (codes "tcp:81")
        (some 2)
        false
        (web ∷ [])).0
    × Settles (codes "tcp:8000") (codes "tcp:81") (some 2) (web ∷ []) (
        install_listener
          (λ n. some 9)
          (codes "tcp:8000")
          (codes "tcp:81")
          (some 2)
          false
          (web ∷ []))
install_listener-Settles_example =
    install_listener-Settles (λ n. some 9) (codes "tcp:8000") (codes "tcp:81") (some 2) false
      (web ∷ []) one-Distinct

jdwp_process_list_msg-Lists_example :
    (text : Bytes) × (jdwp_process_list_msg (some 31 ∷ (none ∷ (some 1024 ∷ []))) 9
      ≡ hex4 (length text) ++ text)
    × Lists (some 31 ∷ (none ∷ (some 1024 ∷ []))) 5 text
    × (length (jdwp_process_list_msg (some 31 ∷ (none ∷ (some 1024 ∷ []))) 9) < 9)
jdwp_process_list_msg-Lists_example =
    jdwp_process_list_msg-Lists (some 31 ∷ (none ∷ (some 1024 ∷ []))) 9 (omega arith) (omega arith)

abbrev data_of : ℕ → Packet
data_of n = record {
  msg = record { command = a_wrte; arg0 = n; arg1 = 1; data_length = 0; data_check = 0; magic = 0 };
  len = 0;
  bytes = [];
}

-- A write for an earlier connection, the start, one for this connection, the end.
abbrev queued : List Packet
queued = data_of 1 ∷ (sync_packet 1 7 ∷ (data_of 2 ∷ (sync_packet 0 0 ∷ (data_of 3 ∷ []))))

input_thread-traffic_example :
    input_thread 7 false queued ≡ traffic (behind_start 7 (before_stop queued))
input_thread-traffic_example = input_thread-traffic 7 queued

unhex-hex4_example : unhex (hex4 12 ++ codes "host:version") 4 ≡ 12
unhex-hex4_example = unhex-hex4 12 (codes "host:version") (omega arith)

-- A key type of five bytes, the first of which counts the words.
abbrev small_key : KeyType
small_key = record { key_size = 5; len_of = λ bs. get_or bs 0 0; rsa_num_words = 1 }

abbrev my_key : Bytes
my_key = 1 ∷ (200 ∷ (255 ∷ (0 ∷ (7 ∷ []))))

read_keys-key_lines_example :
    read_keys small_key (key_lines ((my_key, codes "me@home") ∷ [])) [] ≡ my_key ∷ []
read_keys-key_lines_example = read_keys-key_lines small_key ((my_key, codes "me@home") ∷ []) [] (
  ((omega arith, (omega arith, (omega arith, (omega arith, (omega arith, tt))))), refl, refl),
  tt,
)
