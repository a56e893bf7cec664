-- ===== src/Session/Gate.antt =====
-- A transport that is not online: what `handle_packet` of src/adbd/adb.c does with its packets.
use adbd.Base.{ℕ, ◌≡◌, ◌≢◌, arith}
use adbd.Packet.{Packet, a_sync, a_cnxn, a_auth}
use adbd.Sockets.{Store, ok}
use adbd.Session.{Env}
use adbd.Session.Handler.{handle_packet}
use adbd.Session.Down.{Down}

-- On a transport that is not online every packet but SYNC, CNXN and AUTH, whatever it holds, is
-- dropped: no socket is opened, written to or closed, nothing is sent, and nothing else changes.
pub handle_packet-offline :
    (e : Env) (p : Packet) (t : ℕ) (st : Store)
    → Down t st
    → p.msg.command ≢ a_sync
    → p.msg.command ≢ a_cnxn
    → p.msg.command ≢ a_auth
    → handle_packet e p t st ≡ ok tt st
unfolding handle_packet
handle_packet-offline e p t st down s c a = ground arith
