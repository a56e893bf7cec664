-- ===== src/Fdevent/Alloc.antt =====
-- What `jdwp_process_alloc` of src/adbd/jdwp_service.c asks of the event loop, against epoll.
use adbd.Base.{none, ℕ, ◌<◌, ◌≡◌, refl, true, lt→ltb}
use adbd.Fdevent.{
  after_update, epoll_or_exit, fdevent_update, enter, fdevent_set, fdevent_register, bit_or,
  mark_created, keep_open, fdevent_add, jdwp_process_alloc, fdevent_install, fdevent_create,
  fde_read, fde_dont_close, Epoll, Result, Loop, store_fde, ev_events, update_op, ok, exited,
  aborted,
}
use adbd.Fdevent.Asked.{IsEpoll, ==-refl}

add-exits :
    (E : Epoll) (laws : IsEpoll E) (l : Loop E.Kernel) (p : ℕ)
    → (l.fdes p).mask ≡ fde_dont_close
    → (l.fdes p).active ≡ true
    → E.interest l.kernel (l.fdes p).fd ≡ none
    → fdevent_add E l p fde_read ≡ exited
unfolding fdevent_add fdevent_set fdevent_update epoll_or_exit after_update update_op ev_events
    store_fde
add-exits E laws l p m a i = let r = laws.mod_new l.kernel (l.fdes p).fd 1 i in rw (m, a, r) refl

-- An fdevent just created: active, waiting for nothing, with no interest in the kernel.
abbrev pub Fresh : (E : Epoll) → ℕ → Result (Loop E.Kernel) → Type 0
Fresh E p (ok l) =
    ((l.fdes p).mask ≡ 0) × ((l.fdes p).active ≡ true) × (E.interest l.kernel (l.fdes p).fd ≡ none)
Fresh E p exited = ⊥
Fresh E p aborted = ⊥

fdevent_install-Fresh :
    (E : Epoll) (l : Loop E.Kernel) (p socket func : ℕ)
    → socket < l.fd_table_max
    → E.interest l.kernel socket ≡ none
    → Fresh E p (fdevent_install E l p socket func)
unfolding fdevent_install fdevent_register enter store_fde
fdevent_install-Fresh E l p socket func h i =
    rw (==-refl p, lt→ltb socket l.fd_table_max h, ==-refl p) (refl, refl, i)

mark_created-Fresh :
    (E : Epoll) (p : ℕ) (r : Result (Loop E.Kernel)) → Fresh E p r → Fresh E p (mark_created E p r)
unfolding mark_created store_fde
mark_created-Fresh E p (ok l) (m, a, i) = rw (==-refl p) (m, a, i)
mark_created-Fresh E p exited h = h
mark_created-Fresh E p aborted h = h

fdevent_create-Fresh :
    (E : Epoll) (l : Loop E.Kernel) (p socket func : ℕ)
    → socket < l.fd_table_max
    → E.interest l.kernel socket ≡ none
    → Fresh E p (fdevent_create E l p socket func)
unfolding fdevent_create
fdevent_create-Fresh E l p socket func h i =
    mark_created-Fresh E p (fdevent_install E l p socket func)
      (fdevent_install-Fresh E l p socket func h i)

keep_open-exits :
    (E : Epoll) (laws : IsEpoll E) (p : ℕ) (r : Result (Loop E.Kernel))
    → Fresh E p r
    → keep_open E p r ≡ exited
unfolding keep_open
keep_open-exits E laws p (ok l) (m, a, i) =
    add-exits E laws
      (store_fde l p (record (l.fdes p) { mask = bit_or (l.fdes p).mask fde_dont_close })) p
      (rw (store_fde, ==-refl p, m) refl) (rw (store_fde, ==-refl p) a)
      (rw (store_fde, ==-refl p) i)
keep_open-exits E laws p exited h = absurd h
keep_open-exits E laws p aborted h = absurd h

-- With a kernel that behaves as documented, for every descriptor in the table's range that the
-- kernel holds no interest of, as for each that accept has just returned: `jdwp_process_alloc`
-- never returns. FDE_DONT_CLOSE counts as an event that is waited for, so its fdevent_add asks to
-- modify what is not registered, and the process exits.
pub jdwp_process_alloc-exits :
    (E : Epoll) (laws : IsEpoll E) (l : Loop E.Kernel) (p socket func : ℕ)
    → socket < l.fd_table_max
    → E.interest l.kernel socket ≡ none
    → jdwp_process_alloc E l p socket func ≡ exited
unfolding jdwp_process_alloc
jdwp_process_alloc-exits E laws l p socket func h i =
    keep_open-exits E laws p (fdevent_create E l p socket func)
      (fdevent_create-Fresh E l p socket func h i)
