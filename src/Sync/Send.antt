-- ===== src/Sync/Send.antt =====
-- `handle_send_file` of src/adbd/file_sync_service.c stores what a client sends.
use adbd.Sync.Storing.{Stored, send_loop-Stored}
use adbd.Sync.Transfer.{mkdirs, send_to, open_existing, send_loop, open_target, handle_send_file}
use adbd.Sync.{Opening, Files, State, opened, enoent, eexist, denied}
use adbd.Sync.Stream.{Carries}
use adbd.Base.{sym}
use adbd.Base.{ap, subst}
use adbd.Base.{some, ℕ, ◌^◌, ◌<◌, ◌≡◌, refl, [], ◌++◌, Bytes, All, length}
use adbd.Io.{IsCalm, Sink}

open_target-opened :
    (F : Files) (path : Bytes) (mode : ℕ) (fs fs' : F.Fs) (k : Sink)
    → F.create_new fs path mode ≡ (fs', opened k)
    → open_target F path mode fs ≡ (fs', opened k)
unfolding open_target
open_target-opened F path mode fs fs' k e =
    subst
      (λ r.
        elim r.1 as (λ _. F.Fs × Opening) [
          | opened k ↦ r
          | enoent ↦ open_existing F path mode (F.create_new (mkdirs F path r.0) path mode)
          | eexist ↦ open_existing F path mode r
          | denied ↦ r
        ]
        ≡ (fs', opened k))
      (sym e) refl

-- For a new file that opens, and a client that sends DATA messages of 1 to 65536 bytes which carry
-- `bs`, then DONE with a time below 2 ^ 32, however the reads and writes are split and with no failure
-- but EINTR: handle_send_file returns 0, the path holds exactly `bs` with that time, what follows
-- the DONE is unread, and the answer is OKAY.
pub handle_send_file-Stored :
    (F : Files) (f : ℕ) (path : Bytes) (mode time : ℕ) (bs stream rest : Bytes) (fs : F.Fs)
    (k : Sink) (s : State F.Fs)
    → F.create_new s.fs path mode ≡ (fs, opened k)
    → k.written ≡ []
    → time < 2 ^ 32
    → Carries time bs stream
    → s.source.bytes ≡ stream ++ rest
    → length stream < f
    → All IsCalm s.source.plan
    → All IsCalm k.plan
    → All IsCalm s.sink.plan
    → Stored F path time bs rest (record s { fs = fs }) (handle_send_file F f path mode s)
unfolding handle_send_file send_to
handle_send_file-Stored F f path mode time bs stream rest fs k s e new t cr src h c ck cs =
    let s' = record s { fs = fs } in
    let run =
      send_loop-Stored F f path time bs stream rest s.source.plan k s' t cr h
        (ap (λ b. record { bytes = b; plan = s.source.plan }) src) c ck cs in
    subst (λ r. Stored F path time bs rest s' (send_to F f path r s))
      (sym (open_target-opened F path mode s.fs fs k e))
      (subst (λ b. Stored F path time (b ++ bs) rest s' (send_loop F f path (some k) s')) new run)
