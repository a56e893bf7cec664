-- ===== src/Fdevent.antt =====
-- The event loop of src/adbd/fdevent.c. The word `state` of an fdevent is kept in its parts: the low
-- byte, which is FDE_EVENTMASK, and the bits of FDE_STATEMASK. The ring of pending fdevents is the
-- list of its nodes behind the head. epoll_ctl is an argument: the interface `Epoll` says what a
-- kernel keeps and when a call fails.
pub mod Asked
pub mod Interest
pub mod Alloc
pub mod Pending
pub mod Removal
pub mod Steps
use adbd.Base.{◌/◌, ◌&&◌}
use adbd.Base.{
  Option, none, some, ℕ, zero, suc, ◌+◌, ◌-◌, ◌*◌, Bool, true, false, not, List, [], ◌∷◌, ◌++◌, ltb,
  leb, ◌==◌, if◌then◌else◌,
}
use Prim.Native.Nat.{bit_and, bit_or}

abbrev pub fde_read : ℕ
fde_read = 1

abbrev pub fde_write : ℕ
fde_write = 2

abbrev pub fde_error : ℕ
fde_error = 4

abbrev pub fde_dont_close : ℕ
fde_dont_close = 128

pub data Op : Type 0 where
  ctl_add ctl_mod ctl_del : Op

-- What a kernel keeps, and `epoll_ctl(epoll_fd,op,fd,&ev)` on it; `none` is a failure. An interest
-- is the events asked for, with the bits 1 for EPOLLIN, 2 for EPOLLOUT, 4 for EPOLLERR|EPOLLHUP.
pub record Epoll : Type 1 where
  pub Kernel : Type 0
  pub epoll_ctl : Kernel → Op → ℕ → ℕ → Option Kernel
  pub interest : Kernel → ℕ → Option ℕ

-- `fd_func` and its argument stay uninterpreted: a number stands for the pair.
pub record Fdevent : Type 0 where
  pub fd : ℕ
  pub force_eof : Bool
  pub mask : ℕ
  pub active : Bool
  pub pending : Bool
  pub created : Bool
  pub events : ℕ
  pub func : ℕ

pub data Result {ℓ} (A : Type ℓ) : Type ℓ where
  ok : A → Result A
  exited aborted : Result A

-- The state of the loop over a kernel.
pub record Loop (K : Type 0) : Type 0 where
  pub fdes : ℕ → Fdevent
  pub list_pending : List ℕ
  pub fd_table : ℕ → Option ℕ
  pub fd_table_max : ℕ
  pub kernel : K
  pub closed : List ℕ

unfoldable pub store_fde : {K : Type 0} → Loop K → ℕ → Fdevent → Loop K
store_fde l p f = record l { fdes = λ q. if p == q then f else l.fdes q }

-- `if(events&BIT)ev.events|=EPOLL…`, for the three bits.
unfoldable pub ev_events : ℕ → ℕ
ev_events events = bit_and events fde_read + bit_and events fde_write + bit_and events fde_error

-- The operation of `fdevent_update`, if any: by the events wanted and those that were.
unfoldable pub update_op : Bool → Bool → Option Op
update_op true active = some (if active then ctl_mod else ctl_add)
update_op false true = some ctl_del
update_op false false = none

-- A link out of the ring.
unfoldable pub plist_remove : ℕ → List ℕ → List ℕ
plist_remove p [] = []
plist_remove p (q ∷ qs) = let rest = plist_remove p qs in if p == q then qs else (q ∷ rest)

unfoldable pub plist_enqueue : ℕ → List ℕ → List ℕ
plist_enqueue p qs = qs ++ (p ∷ [])

module _ (E : Epoll) where
  unfoldable pub fdevent_disconnect : Loop E.Kernel → ℕ → Loop E.Kernel
  fdevent_disconnect l p = elim (E.epoll_ctl l.kernel ctl_del (l.fdes p).fd 0) [
    | none ↦ l
    | some k ↦ record l { kernel = k }
  ]

  -- The call of `fdevent_update`, and the `exit(1)` when it fails.
  unfoldable pub epoll_or_exit : Loop E.Kernel → ℕ → ℕ → Option Op → Result (Loop E.Kernel)
  epoll_or_exit l fd ev none = ok l
  epoll_or_exit l fd ev (some op) = elim (E.epoll_ctl l.kernel op fd ev) [
    | none ↦ exited
    | some k ↦ ok (record l { kernel = k })
  ]

  unfoldable pub fdevent_update : Loop E.Kernel → ℕ → ℕ → Result (Loop E.Kernel)
  unfolding store_fde ev_events update_op epoll_or_exit
  fdevent_update l p events =
      let f = l.fdes p in
      epoll_or_exit (store_fde l p (record f { mask = events })) f.fd (ev_events events)
        (update_op (not (ev_events events == 0)) (not (f.mask == 0)))

  -- `fdevent_set` behind the update: the mask again, and what is pending of the events.
  unfoldable pub settle : Loop E.Kernel → ℕ → ℕ → Loop E.Kernel
  unfolding store_fde plist_remove
  settle l p events =
      let f = record (l.fdes p) { mask = events } in
      if not f.pending
      then store_fde l p f
      else let left = bit_and f.events (65535 - events) in
        if left == 0
        then record (store_fde l p (record f { events = 0; pending = false })) {
          list_pending = plist_remove p l.list_pending;
        }
        else store_fde l p (record f { events = left })

  unfoldable pub after_update : ℕ → ℕ → Result (Loop E.Kernel) → Result (Loop E.Kernel)
  unfolding settle
  after_update p events (ok l) = ok (settle l p events)
  after_update p events exited = exited
  after_update p events aborted = aborted

  unfoldable pub fdevent_set : Loop E.Kernel → ℕ → ℕ → Result (Loop E.Kernel)
  unfolding fdevent_update after_update
  fdevent_set l p events =
      let masked = bit_and events 255 in
      let f = l.fdes p in
      if f.mask == masked
      then ok l
      else after_update p masked (if f.active then fdevent_update l p masked else ok l)

  unfoldable pub fdevent_add : Loop E.Kernel → ℕ → ℕ → Result (Loop E.Kernel)
  unfolding fdevent_set
  fdevent_add l p events = fdevent_set l p (bit_or (l.fdes p).mask (bit_and events 255))

  unfoldable pub fdevent_del : Loop E.Kernel → ℕ → ℕ → Result (Loop E.Kernel)
  unfolding fdevent_set
  fdevent_del l p events =
      fdevent_set l p (bit_and (l.fdes p).mask (0xffff_ffff - bit_and events 255))

  -- `while(fd_table_max<=fde->fd)fd_table_max*=2`, on fuel.
  unfoldable pub grow : ℕ → ℕ → ℕ → ℕ
  grow zero fd m = m
  grow (suc k) fd m = let rest = grow k fd (m * 2) in if leb m fd then rest else m

  -- The table behind `realloc` and `memset`. The memset counts in ints where the entries are
  -- pointers of twice that size, so half of the new entries keep what the memory held.
  unfoldable pub expand : Loop E.Kernel → ℕ → Loop E.Kernel
  expand l m =
      let oldmax = l.fd_table_max in
      record l {
        fd_table =
            λ n. if leb oldmax n && ltb n (oldmax + (m - oldmax) / 2) then none else l.fd_table n;
        fd_table_max = m;
      }

  unfoldable pub enter : Loop E.Kernel → ℕ → ℕ → Loop E.Kernel
  enter l fd p = record l { fd_table = λ n. if n == fd then some p else l.fd_table n }

  -- `fdevent_register`; the descriptor is not negative here.
  unfoldable pub fdevent_register : Loop E.Kernel → ℕ → Result (Loop E.Kernel)
  unfolding grow expand enter
  fdevent_register l p =
      let fd = (l.fdes p).fd in
      if ltb fd l.fd_table_max
      then ok (enter l fd p)
      else if ltb 32000 fd
      then aborted
      else ok
          (enter (expand l (grow 8 fd (if l.fd_table_max == 0 then 256 else l.fd_table_max))) fd p)

  unfoldable pub same_node : Option ℕ → ℕ → Bool
  same_node none p = false
  same_node (some q) p = q == p

  unfoldable pub fdevent_unregister : Loop E.Kernel → ℕ → Result (Loop E.Kernel)
  unfolding same_node
  fdevent_unregister l p =
      let f = l.fdes p in
      if not (ltb f.fd l.fd_table_max)
      then aborted
      else if not (same_node (l.fd_table f.fd) p)
      then aborted
      else ok (record l {
        fd_table = λ n. if n == f.fd then none else l.fd_table n;
        closed = if bit_and f.mask fde_dont_close == 0 then f.fd ∷ l.closed else l.closed;
      })

  -- `fdevent_install`; `fdevent_connect` fills in an event and does nothing with it.
  unfoldable pub fdevent_install : Loop E.Kernel → ℕ → ℕ → ℕ → Result (Loop E.Kernel)
  unfolding store_fde fdevent_register
  fdevent_install l p fd func =
      fdevent_register
        (store_fde l p (record {
          fd = fd;
          force_eof = false;
          mask = 0;
          active = true;
          pending = false;
          created = false;
          events = 0;
          func = func;
        }))
        p

  unfoldable pub cleared : ℕ → Result (Loop E.Kernel) → Result (Loop E.Kernel)
  unfolding store_fde
  cleared p (ok l) = ok (
      store_fde l p (record (l.fdes p) {
        mask = 0;
        active = false;
        pending = false;
        created = false;
        events = 0;
      }))
  cleared p exited = exited
  cleared p aborted = aborted

  unfoldable pub fdevent_remove : Loop E.Kernel → ℕ → Result (Loop E.Kernel)
  unfolding plist_remove fdevent_disconnect fdevent_unregister cleared
  fdevent_remove l p =
      let f = l.fdes p in
      let l1 = if f.pending then record l { list_pending = plist_remove p l.list_pending } else l in
      cleared p (if f.active then fdevent_unregister (fdevent_disconnect l1 p) p else ok l1)

  -- One entry of what epoll_wait returns: the fdevent and the event bits, in the code of `Epoll`.
  unfoldable pub process_one : Loop E.Kernel → ℕ → ℕ → Loop E.Kernel
  unfolding store_fde ev_events plist_enqueue
  process_one l p ev =
      let f = record (l.fdes p) { events = bit_or (l.fdes p).events (ev_events ev) } in
      if f.events == 0
      then store_fde l p f
      else if f.pending
      then store_fde l p f
      else record (store_fde l p (record f { pending = true })) {
        list_pending = plist_enqueue p l.list_pending;
      }

  -- The loop of `fdevent_process` over the entries.
  unfoldable pub fdevent_process : Loop E.Kernel → List (ℕ × ℕ) → Loop E.Kernel
  unfolding process_one
  fdevent_process l [] = l
  fdevent_process l ((p, ev) ∷ rest) = fdevent_process (process_one l p ev) rest

  -- `fdevent_plist_dequeue` and the head of `fdevent_call_fdfunc`: the call of `func` that it makes,
  -- as the fdevent and its events, if it makes one.
  unfoldable pub call_fdfunc : Loop E.Kernel → ℕ → Loop E.Kernel × Option (ℕ × ℕ)
  unfolding store_fde
  call_fdfunc l p =
      let f = l.fdes p in
      let l1 = store_fde l p (record f { events = 0 }) in
      if not f.pending
      then (l1, none)
      else (store_fde l1 p (record f { events = 0; pending = false }), some (p, f.events))

  -- `fdevent_plist_dequeue`.
  unfoldable pub fdevent_plist_dequeue : Loop E.Kernel → Option (ℕ × Loop E.Kernel)
  fdevent_plist_dequeue l = elim l.list_pending [
    | [] ↦ none
    | p ∷ rest ↦ some (p, record l { list_pending = rest })
  ]

  -- The end of `fdevent_create`.
  unfoldable pub mark_created : ℕ → Result (Loop E.Kernel) → Result (Loop E.Kernel)
  unfolding store_fde
  mark_created p (ok l) = ok (store_fde l p (record (l.fdes p) { created = true }))
  mark_created p exited = exited
  mark_created p aborted = aborted

  -- `fdevent_create` with the node that malloc gave.
  unfoldable pub fdevent_create : Loop E.Kernel → ℕ → ℕ → ℕ → Result (Loop E.Kernel)
  unfolding fdevent_install mark_created
  fdevent_create l p fd func = mark_created p (fdevent_install l p fd func)

  unfoldable pub fdevent_destroy : Loop E.Kernel → ℕ → Result (Loop E.Kernel)
  unfolding fdevent_remove
  fdevent_destroy l p = if not (l.fdes p).created then aborted else fdevent_remove l p

  -- The last lines of `jdwp_process_alloc`: FDE_DONT_CLOSE, then FDE_READ.
  unfoldable pub keep_open : ℕ → Result (Loop E.Kernel) → Result (Loop E.Kernel)
  unfolding store_fde fdevent_add
  keep_open p (ok l) =
      fdevent_add
        (store_fde l p (record (l.fdes p) { mask = bit_or (l.fdes p).mask fde_dont_close })) p
        fde_read
  keep_open p exited = exited
  keep_open p aborted = aborted

  -- What `jdwp_process_alloc` does to the loop.
  unfoldable pub jdwp_process_alloc : Loop E.Kernel → ℕ → ℕ → ℕ → Result (Loop E.Kernel)
  unfolding fdevent_create keep_open
  jdwp_process_alloc l p socket func = keep_open p (fdevent_create l p socket func)
