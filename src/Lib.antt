-- ===== src/Lib.antt =====
-- adbd, the Android Debug Bridge daemon for Linux (src/adbd/), as definitions and theorems.
--
-- A host talks to the daemon in packets over USB or TCP. A transport's threads read and check the
-- packets and pass them to the event thread, where `handle_packet` (src/adbd/adb.c) opens, feeds and
-- closes sockets (src/adbd/sockets.c). A service's descriptor is a local socket; its end on the host
-- is a remote socket; the two are each other's peer.
--
--   Io         src/adbd/transport.c readx, writex; src/adbd/sysdeps.h adb_read, adb_write
--   Packet     src/adbd/adb.h amessage, apacket; src/adbd/transport.c send_packet, check_header,
--              check_data; Packet/Wire: src/adbd/transport_local.c remote_read, remote_write
--   Transport  src/adbd/adb.h atransport; src/adbd/adb.c parse_banner
--   Services   src/adbd/services.c service_to_fd: which service a name asks for;
--              Services/Run recover_service and the restarts
--   Jdwp       src/adbd/jdwp_service.c: the process list as text; a process and the events of its
--              socket (Jdwp/Process, Passing, Reading), its queue of descriptors (Jdwp/Fifo, Handling,
--              Runs);
--              Jdwp/Control the control socket
--   Sockets    src/adbd/sockets.c and the two JDWP sockets: Sockets the objects, lists and the store;
--              Sockets/Ops the closing functions; Sockets/Transfer enqueue, ready and the creators;
--              Sockets/Events local_socket_event_func; Sockets/Hex unhex;
--              Sockets/Smart the smart socket's requests and skip_host_serial;
--              Sockets/CloseAll close_all_sockets;
--              Sockets/Valid what a well-formed store is, Sockets/Closing, Pairs, Cut, Joined,
--              Lingering and Serving what each function does to one
--   Session    src/adbd/adb.c: what handle_packet calls, and the device's side of authentication in
--              src/adbd/adb_auth_client.c; Session/Handler handle_packet; Session/Banner the text of
--              fill_connect_data against parse_banner; Session/Machine the event thread's turns, over the
--              cases of Session/Opening, Pairing, Safety and Alive
--   Fdevent    src/adbd/fdevent.c: masks and epoll (Fdevent/Asked, Interest), the pending list
--              (Fdevent/Pending, Removal, Steps), and what jdwp_process_alloc asks of them
--   Base64     src/adbd/base64.c b64_pton
--   Registry   src/adbd/transport.c: qual_match and acquire_one_transport (Registry/Match,
--              Registry/Acquire), kick_transport and transport_unref by turns of
--              threads (Registry/Turns, Outside, Life),
--              output_thread and input_thread (Registry/Threads), the pipes (Registry/Messages), and
--              transport_registration_func (Registry/Registration)
--   Usb        src/adbd/usb_linux_client.c and src/adbd/transport_usb.c: both drivers and their
--              contract (Usb/Bulk, Usb/Drivers), packets over them (Usb/Wire, Usb/RoundTrip), the
--              descriptors of the functionfs handle (Usb/Open, Usb/Held)
--   Listeners  src/adbd/adb.c: install_listener, remove_listener and list-forward
--   Framebuffer src/adbd/framebuffer_service.c: the picture's description and its copy
--   Keys       src/adbd/adb_auth_client.c read_keys, adb_auth_reload_keys
--   Sync       src/adbd/file_sync_service.c: the file service
--   Base       names, lists and tests that all share; Tests: runs at concrete values
--
-- Conventions. An `unsigned` is a number below 2 ^ 32, with its wrap written out. The kernel is an
-- argument: each descriptor has a plan of what its calls do, and every theorem ranges over plans. A
-- pointer is a number and the store says what stands there; a load of a null or freed pointer is
-- the result `fault`, `exit(1)` is `exited`. Function pointers are data types with a constructor
-- for each function.
--
-- Fuel. readx and writex take one round more than the bytes asked for, which is enough since
-- adb_read and adb_write never return EINTR; the loops over packets and over the queue likewise. A
-- close takes fuel for the depth of the calls through `close`; the packet handler gives 3. The loops
-- of the file service read at least a byte in each round but the last, and take one round more than
-- the bytes there are; the loops of the USB drivers take one more than their plan has calls.
--
-- Not modelled here: switches of threads inside a function (socket operations run on the event
-- thread, save close_all_sockets, which the input thread of a transport calls; in
-- Registry/Turns the threads of kick_transport and transport_unref take turns), the failure of the
-- pointer write in send_packet, which ends the process, logging, and allocation failure, which does
-- too. A C string that has no zero byte in what is known of its buffer ends where
-- that does. What the operating system does for a service and the random token are fields
-- of the record `Env`.
pub mod Base
pub mod Base64
pub mod Fdevent
pub mod Io
pub mod Packet
pub mod Transport
pub mod Framebuffer
pub mod Usb
pub mod Registry
pub mod Keys
pub mod Jdwp
pub mod Listeners
pub mod Services
pub mod Sockets
pub mod Session
pub mod Sync
pub mod Tests
