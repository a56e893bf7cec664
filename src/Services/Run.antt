-- ===== src/Services/Run.antt =====
-- The services of src/adbd/services.c that run in a thread of their own on one end of a pair of
-- descriptors: `recover_service`, `restart_tcp_service`, `restart_usb_service`, and how
-- `create_service_thread` starts one. The client's bytes are a source, what goes back to it a sink.
pub mod Recover
use adbd.Base.{
  codes, Option, none, some, ℕ, zero, suc, ◌-◌, min, Bool, true, false, not, List, [], ◌∷◌, ◌++◌,
  Bytes, if◌then◌else◌,
}
use adbd.Io.{Source, readx, got, lost, unfinished}
use adbd.Jdwp.{decimal}

-- The rounds of `recover_service`, of 4096 bytes at most: what has gone to the file, the count that
-- is left, and the client's bytes behind it. A failing write into the file ends the loop: `room`
-- says how many of the rounds it takes.
pub record Received : Type 0 where
  pub file : Bytes
  pub left : ℕ

unfoldable pub recover_loop : ℕ → ℕ → ℕ → Bytes → Source → Received
unfolding readx
recover_loop zero room count file s = record { file = file; left = count }
recover_loop (suc f) room zero file s = record { file = file; left = 0 }
recover_loop (suc f) zero (suc n) file s = record { file = file; left = suc n }
recover_loop (suc f) (suc room) (suc n) file s = elim (readx (min 4096 (suc n)) s) [
  | got bs s' ↦ recover_loop f room (suc n - min 4096 (suc n)) (file ++ bs) s'
  | lost s' ↦ record { file = file; left = suc n }
  | unfinished ↦ record { file = file; left = suc n }
]

-- How the service ends: /tmp/update could not be made; or its contents, the four bytes that go back,
-- and that /tmp/update.begin is made.
pub data Recovery : Type 0 where
  no_file : Recovery
  recovered : Bytes → Bytes → Recovery

-- `writex(s,count?"OKAY":"FAIL",4)`
unfoldable pub recover_answer : ℕ → Bytes
recover_answer zero = codes "FAIL"
recover_answer (suc n) = codes "OKAY"

-- `recover_service`; the cookie is the count as an `unsigned`.
unfoldable pub recover_service : Bool → ℕ → ℕ → Source → Recovery
unfolding recover_loop recover_answer
recover_service created room count s =
    if not created
    then no_file
    else (let r = recover_loop (suc count) room count [] s in
        recovered r.file (recover_answer r.left))

-- The text that `restart_tcp_service` writes back, for a port as `%d` prints it; none is a port that
-- is not positive.
unfoldable pub restart_tcp_service : Option ℕ → Bytes
unfolding decimal
restart_tcp_service none = codes "invalid port\n"
restart_tcp_service (some zero) = codes "invalid port\n"
restart_tcp_service (some (suc n)) =
    codes "restarting in TCP mode port: " ++ (decimal (suc n) ++ codes "\n")

unfoldable pub restart_usb_service : Bytes
restart_usb_service = codes "restarting in USB mode\n"

-- `create_service_thread`, by whether the pair of descriptors `near`, `far` and the thread are made:
-- the result, and the descriptors that are closed. malloc's failure ends the process.
unfoldable pub create_service_thread : Option (ℕ × ℕ) → Bool → Option ℕ × List ℕ
create_service_thread none started = (none, [])
create_service_thread (some (near, far)) true = (some near, [])
create_service_thread (some (near, far)) false = (none, near ∷ far ∷ [])
