-- ===== src/Jdwp/Passing.antt =====
-- The descriptors that wait for a JDWP process (src/adbd/jdwp_service.c): how
-- `create_jdwp_connection_fd` adds one, how `jdwp_process_event` passes one on, and the whole of
-- that event.
use adbd.Base.{map, length}
use adbd.Jdwp.{jdwp_process_list_msg}
use adbd.Packet.{Packet, get_apacket}
use adbd.Base.{
  Option, none, some, ℕ, zero, suc, ◌+◌, ◌-◌, Bool, true, false, not, ◌||◌, List, [], ◌∷◌, ◌++◌,
  leb, ◌==◌, if◌then◌else◌, set, get_or,
}
use adbd.Io.{Errno, Source, eintr, eagain, other}
use adbd.Jdwp.Process.{
  ℤ, int_eq, Process, max_out_fds, Log, After, jdwp_process_free, read_unknown, read_known, pos,
  negsuc, kept, freed, goes_on, returns, short_of_fuel,
}

-- The results of the calls of one event under FDE_WRITE: fcntl F_GETFL, F_SETFL, each failure of
-- sendmsg before it goes through, and the F_SETFL that restores the flags.
pub record Calls : Type 0 where
  pub getfl : Bool
  pub setfl : Bool
  pub sends : List Errno
  pub restored : Bool

-- The loop around sendmsg; false is the way to CloseProcess.
unfoldable pub sendmsg_loop : List Errno → Bool
sendmsg_loop [] = true
sendmsg_loop (eintr ∷ es) = sendmsg_loop es
sendmsg_loop (eagain ∷ es) = false
sendmsg_loop (other ∷ es) = false

-- `for(n=1;n<out_count;n++)out_fds[n-1]=out_fds[n]`, with the rounds that are left.
unfoldable pub shift_fds : ℕ → ℕ → List ℕ → List ℕ
shift_fds zero n fds = fds
shift_fds (suc k) n fds = shift_fds k (suc n) (set fds (n - 1) (get_or fds n 0))

-- `if(--out_count==0)fdevent_del(fde,FDE_WRITE)`
unfoldable pub take_one : Process → Process
take_one p =
    let count = p.out_count - 1 in
    record p { out_count = count; writable = if count == 0 then false else p.writable }

-- Behind a sendmsg that went through: the descriptor is closed here and the others move up.
unfoldable pub after_send : Process → Log → ℕ → Bool → After
unfolding shift_fds take_one jdwp_process_free
after_send p l fd restored =
    let l' : Log = record { closed = l.closed ++ (fd ∷ []); passed = l.passed ++ (fd ∷ []) } in
    let p' : Process = record p { out_fds = shift_fds (p.out_count - 1) 1 p.out_fds } in
    if restored then kept false (take_one p') l' else jdwp_process_free p' l'

-- The part of the event under FDE_WRITE.
unfoldable pub pass_event : Process → Log → Calls → After
unfolding sendmsg_loop after_send jdwp_process_free
pass_event p l c =
    if p.out_count == 0
    then kept false p l
    else if not c.getfl
    then jdwp_process_free p l
    else if not c.setfl
    then jdwp_process_free p l
    else if not (sendmsg_loop c.sends)
    then jdwp_process_free p l
    else after_send p l (get_or p.out_fds 0 0) c.restored

-- The slot behind the last one in use, and `if(++out_count==1)fdevent_add(fde,FDE_WRITE)`.
unfoldable pub add_fd : Process → ℕ → Process
add_fd p far = record p {
  out_fds = set p.out_fds p.out_count far;
  out_count = p.out_count + 1;
  writable = if p.out_count + 1 == 1 then true else p.writable;
}

-- `create_jdwp_connection_fd` on the process it has found: `pair` is what adb_socketpair makes. The
-- result is the end that is returned, or none for -1.
unfoldable pub connect_process : Process → Option (ℕ × ℕ) → Option ℕ × Process
unfolding add_fd
connect_process p pair =
    if leb max_out_fds p.out_count
    then (none, p)
    else (elim pair [ none ↦ (none, p) | some (near, far) ↦ (some near, add_fd p far) ])

-- Its search, in the order of the list.
unfoldable pub create_jdwp_connection_fd :
    ℤ → List Process → Option (ℕ × ℕ) → Option ℕ × List Process
unfolding connect_process int_eq
create_jdwp_connection_fd pid [] pair = (none, [])
create_jdwp_connection_fd pid (p ∷ ps) pair =
    let found = connect_process p pair in
    let later = create_jdwp_connection_fd pid ps pair in
    if int_eq p.pid pid then (found.0, found.1 ∷ ps) else (later.0, p ∷ later.1)

-- What the event loop hands to the handler: the two bits of the events, and what the calls do.
pub record Event : Type 0 where
  pub readable : Bool
  pub can_write : Bool
  pub input : Source
  pub calls : Calls

unfoldable pub int_negative : ℤ → Bool
int_negative (pos n) = false
int_negative (negsuc n) = true

-- An announcement before the write part is kept.
abbrev pub announced : Bool → After → After
announced u (kept v p l) = kept (u || v) p l
announced u (freed l) = freed l

unfoldable pub write_part : Event → After → After
unfolding pass_event
write_part e (kept u p l) = if e.can_write then announced u (pass_event p l e.calls) else kept u p l
write_part e (freed l) = freed l

-- `jdwp_process_event`; none is short of fuel.
unfoldable pub jdwp_process_event : Process → Log → Event → Option After
unfolding read_unknown read_known int_negative write_part
jdwp_process_event p l e =
    if not e.readable
    then some (write_part e (kept false p l))
    else (elim (if int_negative p.pid then read_unknown p l e.input else read_known p l e.input) [
      | goes_on a ↦ some (write_part e a)
      | returns a ↦ some a
      | short_of_fuel ↦ none
    ])

-- A pid as the listing takes it.
abbrev known_pid : ℤ → Option ℕ
known_pid (pos n) = some n
known_pid (negsuc n) = none

-- `jdwp_process_list_updated`: what each tracker's peer is given.
unfoldable pub jdwp_process_list_updated : List Process → List ℕ → List (ℕ × Packet)
unfolding jdwp_process_list_msg get_apacket
jdwp_process_list_updated ps peers =
    let text = jdwp_process_list_msg (map (λ p. known_pid p.pid) ps) 1024 in
    map (λ peer. (peer, record get_apacket { bytes = text; len = length text })) peers
