-- ===== src/Session/Opening.antt =====
-- What an OPEN packet does to a well-formed store: `create_local_service_socket`, the new pair, and
-- `ready` (src/adbd/adb.c, src/adbd/sockets.c, src/adbd/jdwp_service.c).
use adbd.Base.{
  Option, none, some, ℕ, ◌+◌, ◌%◌, ◌^◌, ◌≡◌, refl, sym, ap, subst, ◌∙◌, ◌≢◌, Bool, true, false,
  List, [], ◌∷◌, ◌++◌, Bytes, codes, if◌then◌else◌,
}
use adbd.Sockets.{Socket, blank, Store, pure, ◌>>=◌, update, modify, calloc, install_local_socket}
use adbd.Sockets.Valid.{Near, near_enqueue, near_ready, near_close, near_of, local, jdwp, tracker}
use adbd.Sockets.Altered.{Safe, Safe-then}
use adbd.Sockets.Steps.{update_other, update_same, update_twice, modify_run}
use adbd.Sockets.Transfer.{
  create_local_socket, create_jdwp_service_socket, track, create_jdwp_tracker_service_socket,
}
use adbd.Session.{Env}
use adbd.Session.Handler.{open_name, service_socket, create_local_service_socket}
use adbd.Services.{service_of}
use adbd.Transport.{bytes_eq}

-- The store with a new socket at `p` that is in the local list and has no peer yet.
pub record IsOpened (st : Store) (p : ℕ) (st' : Store) : Type 0 where
  pub first : p ≡ st.fresh
  pub next : st'.fresh ≡ st.fresh + 1
  pub kind : Near
  pub base : Socket
  pub here : st'.sockets p ≡ some (near_of kind base none)
  pub others : (r : ℕ) → r ≢ p → st'.sockets r ≡ st.sockets r
  pub in_list : st'.socket_list ≡ st.socket_list ++ (p ∷ [])
  pub same_transports : (t : ℕ) → st'.disconnects t ≡ st.disconnects t

-- What calloc gives, with the descriptor set.
abbrev blank_of : Near → ℕ → Socket
blank_of n fd = record (blank (near_enqueue n) (near_ready n) (near_close n)) { fd = fd }

abbrev calloced : Near → ℕ → List ℕ → Store → Store
calloced n fd trackers st = record st {
  sockets = update st.sockets st.fresh (some (blank_of n fd));
  fresh = st.fresh + 1;
  trackers = trackers;
}

install_Opened :
    (n : Near) (fd : ℕ) (trackers : List ℕ) (st : Store)
    → Safe (λ _. IsOpened st st.fresh) (install_local_socket st.fresh (calloced n fd trackers st))
unfolding install_local_socket
install_Opened n fd trackers st =
    subst (Safe (λ _. IsOpened st st.fresh))
      (sym (
        modify_run p b (λ s. record s { id = st.next_id; linked = true }) st1
          (update_same st.sockets p (some b))))
      (record {
        first = refl;
        next = refl;
        kind = n;
        base = record b { id = st.next_id };
        here = update_same st1.sockets p (some x);
        others = λ r ne. update_twice st.sockets p (some b) (some x) r ne;
        in_list = refl;
        same_transports = λ t. refl;
      })
  where
    p : ℕ
    p = st.fresh

    b : Socket
    b = blank_of n fd

    x : Socket
    x = near_of n (record b { id = st.next_id }) none

    st1 : Store
    st1 = record (calloced n fd trackers st) {
      next_id = (st.next_id + 1) % 2 ^ 32;
      socket_list = st.socket_list ++ (p ∷ []);
    }

modify_Opened :
    (st : Store) (p : ℕ) (f g : Socket → Socket) (st1 : Store)
    → ((n : Near) (s : Socket) → f (near_of n s none) ≡ near_of n (g s) none)
    → IsOpened st p st1
    → Safe (λ _. IsOpened st p) (modify p f st1)
modify_Opened st p f g st1 fg o =
    subst (Safe (λ _. IsOpened st p)) (sym (modify_run p (near_of o.kind o.base none) f st1 o.here))
      (record {
        first = o.first;
        next = o.next;
        kind = o.kind;
        base = g o.base;
        here =
            update_same st1.sockets p (some (f (near_of o.kind o.base none)))
            ∙ ap some (fg o.kind o.base);
        others = λ r ne.
            update_other st1.sockets p (some (f (near_of o.kind o.base none))) r ne ∙ o.others r ne;
        in_list = o.in_list;
        same_transports = o.same_transports;
      })

-- What `create_local_service_socket` leaves: a new socket, or the store as it was.
abbrev pub Created : Store → Option ℕ → Store → Type 0
Created st none st' = st' ≡ st
Created st (some p) st' = IsOpened st p st'

create_local_Created : (fd : ℕ) (st : Store) → Safe (IsOpened st) (create_local_socket fd st)
unfolding create_local_socket calloc
create_local_Created fd st =
    Safe-then (λ _. IsOpened st st.fresh) (IsOpened st)
      (install_local_socket st.fresh (calloced local fd st.trackers st)) _
      (install_Opened local fd st.trackers st)
      (λ _ st1 o.
        Safe-then (λ _. IsOpened st st.fresh) (IsOpened st)
          (modify st.fresh (λ s. record s { active = true }) st1) _
          (modify_Opened st st.fresh (λ s. record s { active = true })
            (λ s. record s { active = true }) st1 (λ n s. refl) o)
          (λ _ st2 o'. o'))

service_Created :
    (e : Env) (name : Bytes) (o : Option ℕ) (st : Store)
    → Safe (Created st) (service_socket e name o st)
unfolding service_socket
service_Created e name none st = refl
service_Created e name (some fd) st =
    Safe-then (IsOpened st) (Created st) (create_local_socket fd st) _ (create_local_Created fd st)
      (λ p st1 o.
        Safe-then (λ _. IsOpened st p) (Created st) (modify p _ st1) _
          (modify_Opened st p _ (λ s. record s { exit_on_close = _ }) st1 (λ n s. refl) o)
          (λ _ st2 o'. o'))

jdwp_Created : (st : Store) → Safe (IsOpened st) (create_jdwp_service_socket st)
unfolding create_jdwp_service_socket calloc
jdwp_Created st =
    Safe-then (λ _. IsOpened st st.fresh) (IsOpened st)
      (install_local_socket st.fresh (calloced jdwp 0 st.trackers st)) _
      (install_Opened jdwp 0 st.trackers st) (λ _ st1 o. o)

tracker_Created : (st : Store) → Safe (IsOpened st) (create_jdwp_tracker_service_socket st)
unfolding create_jdwp_tracker_service_socket calloc track
tracker_Created st =
    Safe-then (λ _. IsOpened st st.fresh) (IsOpened st)
      (install_local_socket st.fresh (calloced tracker 0 (st.trackers ++ (st.fresh ∷ [])) st)) _
      (install_Opened tracker 0 (st.trackers ++ (st.fresh ∷ [])) st)
      (λ _ st1 o.
        Safe-then (λ _. IsOpened st st.fresh) (IsOpened st)
          (modify st.fresh (λ s. record s { need_update = true }) st1) _
          (modify_Opened st st.fresh (λ s. record s { need_update = true })
            (λ s. record s { need_update = true }) st1 (λ n s. refl) o)
          (λ _ st2 o'. o'))

pub create_Created :
    (e : Env) (name : Bytes) (st : Store)
    → Safe (Created st) (create_local_service_socket e name st)
unfolding create_local_service_socket
create_Created e name st = go (bytes_eq name (codes "jdwp")) (bytes_eq name (codes "track-jdwp"))
  where
    go :
        (b c : Bool)
        → Safe (Created st) (
            (if b
                then (create_jdwp_service_socket >>= λ p. pure (some p))
                else if c
                then (create_jdwp_tracker_service_socket >>= λ p. pure (some p))
                else service_socket e name (open_name e (service_of e.recovery e.host name)))
              st)
    go true c =
        Safe-then (IsOpened st) (Created st) (create_jdwp_service_socket st) _ (jdwp_Created st)
          (λ p st1 o. o)
    go false true =
        Safe-then (IsOpened st) (Created st) (create_jdwp_tracker_service_socket st) _
          (tracker_Created st) (λ p st1 o. o)
    go false false = service_Created e name (open_name e (service_of e.recovery e.host name)) st
