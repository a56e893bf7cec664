-- ===== src/Session/Machine.antt =====
-- The daemon's event thread as a machine on the store of sockets: packets of the transports and
-- answers of the framework (src/adbd/adb.c, src/adbd/adb_auth_client.c), and descriptors of local
-- sockets that are ready (src/adbd/sockets.c).
use adbd.Session.Handler.{framework_comes}
use adbd.Base.{
  Option, none, some, ℕ, ◌≡◌, sym, subst, ◌∙◌, inl, inr, Bool, true, false, List, [], ◌∷◌, arith,
  if◌then◌else◌, Bool-cases, Option-cases,
}
use adbd.Base.{In, Distinct}
use adbd.Sockets.{
  ◌>>◌, Socket, Store, Cmd, pure, local_socket_close, remote_socket_close,
  local_socket_close_notify, jdwp_socket_close, jdwp_tracker_close,
}
use adbd.Sockets.Valid.{Sound, IsValid, near_sound, lingering_sound, far_sound}
use adbd.Sockets.Altered.{Safe}
use adbd.Sockets.Events.{local_socket_event_func}
use adbd.Sockets.Serving.Handler.{IsOwner, owns, drains}
use adbd.Sockets.Serving.Receive.{event_func_IsValid}
use adbd.Session.{present, adb_auth_listener, Env, depth}
use adbd.Session.Handler.{Event, handle_event, arrives, answers}
use adbd.Session.Safety.{
  set_framework-Preserves, Preserves, Preserves-seq, Preserves-pure, Preserves-if,
}
use adbd.Session.Alive.{auth_event-Preserves, handle_packet-Preserves, Fits}

-- What the event thread is woken for.
pub data Cause : Type 0 where
  comes : Event → Cause
  is_ready : ℕ → Bool → Bool → Cause

-- Whether a socket has an fdevent: only `create_local_socket` installs one, and it is removed where
-- the object is freed.
abbrev has_fdevent : Option Socket → Bool
has_fdevent none = false
has_fdevent (some s) = elim s.close [
  | local_socket_close ↦ true
  | remote_socket_close ↦ false
  | local_socket_close_notify ↦ false
  | jdwp_socket_close ↦ false
  | jdwp_tracker_close ↦ false
]

-- One turn of the event thread.
unfoldable pub step : Env → Cause → Cmd (Unit {0})
unfolding handle_event local_socket_event_func
step e (comes v) st = handle_event e v st
step e (is_ready p readable writable) st =
    (if has_fdevent (st.sockets p)
        then local_socket_event_func depth p readable writable
        else pure tt)
      st

unfoldable pub steps : Env → List Cause → Cmd (Unit {0})
unfolding step
steps e [] = pure tt
steps e (c ∷ cs) = do step e c; steps e cs

-- The store that the daemon starts with.
pub record IsInitial (st : Store) : Type 0 where
  pub no_socket : (p : ℕ) → st.sockets p ≡ none
  pub no_local : st.socket_list ≡ []
  pub no_remote : (t : ℕ) → st.disconnects t ≡ []

initial-IsValid : (st : Store) → IsInitial st → IsValid st
initial-IsValid st i = record {
  above = λ p h. i.no_socket p;
  sound = λ p s e. let c = sym (i.no_socket p) ∙ e in cc;
  listed = λ p k. absurd (subst (In p) i.no_local k);
  once = subst Distinct (sym i.no_local) tt;
  joined = λ t p k. absurd (subst (In p) (i.no_remote t) k);
  joined_once = λ t. subst Distinct (sym (i.no_remote t)) tt;
}

handle_event-Preserves : (e : Env) → Fits e → (v : Event) → Preserves (handle_event e v)
unfolding handle_event
handle_event-Preserves e fits (arrives p t) = handle_packet-Preserves e fits t p
handle_event-Preserves e fits (answers r t) = record {
  runs = λ st.
      (Preserves-if (st.transports t).auth_wait (auth_event-Preserves e fits t r)
          (Preserves-pure tt)).runs
        st;
}
handle_event-Preserves e fits framework_comes =
    unfold adb_auth_listener in set_framework-Preserves present

-- A socket with an fdevent is one that the handler may be called for.
owner :
    (p : ℕ) (st : Store) (x : Socket)
    → st.sockets p ≡ some x
    → Sound st p x
    → has_fdevent (some x) ≡ true
    → IsOwner p st
owner p st _ e (near_sound n s q t f) h = owns q (record { kind = n; base = s; same = e })
owner p st _ e (lingering_sound s) h = drains s e
owner p st _ e (far_sound id l t n i) h = absurd (ground arith)

step-Preserves : (e : Env) → Fits e → (c : Cause) → Preserves (step e c)
unfolding step
step-Preserves e fits (comes v) = handle_event-Preserves e fits v
step-Preserves e fits (is_ready p readable writable) = record { runs = λ st v. turn st v }
  where
    turn :
        (st : Store)
        → IsValid st
        → Safe
            (λ _. IsValid)
            ((if has_fdevent (st.sockets p)
                then local_socket_event_func depth p readable writable
                else pure tt)
              st)
    turn st v = elim (Option-cases (st.sockets p)) [
      | inl e ↦ rw e v
      | inr (x, e) ↦ elim (Bool-cases (has_fdevent (some x))) [
        | inl h ↦
            rw (e, h)
              (event_func_IsValid 1 p readable writable st v (owner p st x e (v.sound p x e) h))
        | inr h ↦ rw (e, h) v
      ]
    ]

steps-Preserves : (e : Env) → Fits e → (cs : List Cause) → Preserves (steps e cs)
unfolding steps
steps-Preserves e fits [] = Preserves-pure tt
steps-Preserves e fits (c ∷ cs) =
    Preserves-seq (step-Preserves e fits c) (steps-Preserves e fits cs)

-- From the daemon's first store, through any packets on any transports, answers and connections of
-- the framework and ready descriptors, whatever the kernel's calls do, when the device's texts fit a packet: no
-- pointer to a freed or absent socket is followed and no close runs short of its fuel. Unless the
-- process has exited, each socket of the daemon's side and its remote socket point at each other,
-- the local list and the transports' lists hold live sockets only, each once, and every remote
-- socket is in the list of its transport.
pub steps-IsValid :
    (e : Env) (st : Store) (cs : List Cause)
    → Fits e
    → IsInitial st
    → Safe (λ _. IsValid) (steps e cs st)
steps-IsValid e st cs fits i = (steps-Preserves e fits cs).runs st (initial-IsValid st i)
