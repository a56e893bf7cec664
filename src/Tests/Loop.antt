-- ===== src/Tests/Loop.antt =====
-- Base64 and the event loop at concrete values.
use adbd.Fdevent.Removal.{Dispatched}
use adbd.Fdevent.{
  fdevent_plist_dequeue, fdevent_process, jdwp_process_alloc, Op, Epoll, Fdevent, Loop, ctl_add,
  ctl_mod, ctl_del, ok, exited,
}
use adbd.Fdevent.Interest.{changes, Change, changes-Sets, set_to, add_to, del_from}
use adbd.Fdevent.Asked.{Sets, IsEpoll}
use adbd.Fdevent.Alloc.{jdwp_process_alloc-exits}
use adbd.Fdevent.Pending.{Tied}
use adbd.Fdevent.Steps.{Reaches-Dispatched, processed, here, onward}
use adbd.Base.{
  Option, none, some, ℕ, ◌≡◌, refl, true, false, List, [], ◌∷◌, ◌++◌, arith, Bytes, codes,
}
use adbd.Base64.{b64_pton, decoded}
use adbd.Base64.Bounds.{Within, b64_pton-Within}
use adbd.Base64.RoundTrip.{encode, b64_pton-encode}

-- Five bytes into a buffer of eight, of which six may be used.
abbrev buffer : Bytes
buffer = 7 ∷ (7 ∷ (7 ∷ (7 ∷ (7 ∷ (7 ∷ (7 ∷ (7 ∷ [])))))))

b64_pton-encode_example :
    (rest : Bytes) × (b64_pton (encode (codes "hello")) buffer 6
      ≡ decoded 5 (codes "hello" ++ rest))
b64_pton-encode_example =
    b64_pton-encode (codes "hello") buffer 6
      (omega arith, (omega arith, (omega arith, (omega arith, (omega arith, tt))))) (omega arith)
      (omega arith)

b64_pton-Within_example : Within 6 buffer 8 (b64_pton (codes "aGVsbG8=") buffer 6)
b64_pton-Within_example = b64_pton-Within (codes "aGVsbG8=") buffer 6

-- A kernel of one descriptor: its interest, if any.
epoll_ctl_one : Option ℕ → Op → ℕ → ℕ → Option (Option ℕ)
epoll_ctl_one none ctl_add fd ev = some (some ev)
epoll_ctl_one (some old) ctl_add fd ev = none
epoll_ctl_one none ctl_mod fd ev = none
epoll_ctl_one (some old) ctl_mod fd ev = some (some ev)
epoll_ctl_one none ctl_del fd ev = none
epoll_ctl_one (some old) ctl_del fd ev = some none

abbrev one_fd : Epoll
one_fd = record { Kernel = Option ℕ; epoll_ctl = epoll_ctl_one; interest = λ k fd. k }

one_fd-IsEpoll : IsEpoll one_fd
unfolding epoll_ctl_one
one_fd-IsEpoll = record {
  add_new = λ k fd ev h. (some ev, rw h refl, refl);
  mod_old = λ k fd ev old h. (some ev, rw h refl, refl);
  del_old = λ k fd ev old h. (none, rw h refl, refl);
  mod_new = λ k fd ev h. rw h refl;
}

abbrev reader : Fdevent
reader = record {
  fd = 9;
  force_eof = false;
  mask = 1;
  active = true;
  pending = false;
  created = true;
  events = 0;
  func = 3;
}

abbrev loop_of : Option ℕ → Loop (Option ℕ)
loop_of k = record {
  fdes = λ p. reader;
  list_pending = [];
  fd_table = λ n. none;
  fd_table_max = 256;
  kernel = k;
  closed = [];
}

abbrev some_changes : List Change
some_changes = add_to 2 ∷ (del_from 1 ∷ (set_to 0 ∷ (add_to 5 ∷ [])))

changes-Sets_example : Sets one_fd 4 5 (changes one_fd 4 some_changes (ok (loop_of (some 1))))
changes-Sets_example =
    changes-Sets one_fd one_fd-IsEpoll 4 some_changes (loop_of (some 1))
      (omega arith, (omega arith, (omega arith, (omega arith, tt)))) (refl, omega arith, refl)

jdwp_process_alloc-exits_example : jdwp_process_alloc one_fd (loop_of none) 4 9 3 ≡ exited
jdwp_process_alloc-exits_example =
    jdwp_process_alloc-exits one_fd one_fd-IsEpoll (loop_of none) 4 9 3 (omega arith) refl

-- Two nodes become pending, one twice.
abbrev busy : Loop (Option ℕ)
busy = fdevent_process one_fd (loop_of (some 1)) ((4, 1) ∷ ((5, 2) ∷ ((4, 4) ∷ [])))

Reaches-Dispatched_example :
    Tied one_fd busy × Dispatched one_fd busy (fdevent_plist_dequeue one_fd busy)
Reaches-Dispatched_example =
    Reaches-Dispatched one_fd (loop_of (some 1)) busy
      (onward (loop_of (some 1)) busy busy
        (processed (loop_of (some 1)) ((4, 1) ∷ ((5, 2) ∷ ((4, 4) ∷ [])))) (here busy))
      (λ p. refl)
