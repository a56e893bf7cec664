-- ===== src/Sockets/Frame.antt =====
-- What the socket operations leave alone. `Ends P r` says that a run leaves a store with `P`,
-- whichever way it ends; a command keeps `P` if every run from a store with `P` does.
use adbd.Base.{
  ◌++◌, ◌^◌, ◌%◌, ◌+◌, ℕ, ◌≡◌, Bool, true, false, Option, none, some, List, [], ◌∷◌, if◌then◌else◌,
}
use adbd.Transport.{Transport}
use adbd.Sockets.{
  Store, Socket, Run, ok, exited, fault, out_of_fuel, Cmd, pure, ◌>>=◌, ◌>>◌, and_then, fetch, load,
  store, modify, free, calloc, remove_socket, detach, install_local_socket, find_in,
  find_local_socket,
}

abbrev pub Ends {ℓ κ} : {A : Type ℓ} → (Store → Type κ) → Run A → Type κ
Ends P (ok a st) = P st
Ends P (exited st) = P st
Ends P fault = Unit
Ends P out_of_fuel = Unit

-- The transports are those of `T`.
abbrev pub Has : (ℕ → Transport) → Store → Type 0
Has T st = st.transports ≡ T

module _ {ℓ} {A : Type ℓ} where
  -- The command leaves every transport alone.
  pub record Keeps (m : Cmd A) : Type ℓ where
    pub holds : (T : ℕ → Transport) (st : Store) → Has T st → Ends (Has T) (m st)

and_then-Ends {ℓ κ} :
    {A : Type ℓ} {B : Type κ} (T : ℕ → Transport) (r : Run A) (k : A → Cmd B)
    → Ends (Has T) r
    → ((a : A) → Keeps (k a))
    → Ends (Has T) (and_then r k)
and_then-Ends T (ok a st) k h keep = (keep a).holds T st h
and_then-Ends T (exited st) k h keep = h
and_then-Ends T fault k h keep = tt
and_then-Ends T out_of_fuel k h keep = tt

pub Keeps-bind {ℓ κ} :
    {A : Type ℓ} {B : Type κ} {m : Cmd A} {k : A → Cmd B}
    → Keeps m
    → ((a : A) → Keeps (k a))
    → Keeps (m >>= k)
Keeps-bind {m} {k} hm hk = record {
  holds = λ T st h. and_then-Ends T (m st) k (hm.holds T st h) hk;
}

pub Keeps-seq {ℓ} :
    {B : Type ℓ} {m : Cmd (Unit {0})} {k : Cmd B} → Keeps m → Keeps k → Keeps (m >> k)
Keeps-seq hm hk = Keeps-bind hm (λ _. hk)

pub Keeps-pure {ℓ} : {A : Type ℓ} (a : A) → Keeps (pure a)
Keeps-pure a = record { holds = λ T st h. h }

pub Keeps-if {ℓ} :
    {A : Type ℓ} (b : Bool) {m n : Cmd A} → Keeps m → Keeps n → Keeps (if b then m else n)
Keeps-if true hm hn = hm
Keeps-if false hm hn = hn

pub load-Keeps : (p : ℕ) → Keeps (load p)
unfolding load
load-Keeps p = record { holds = λ T st h. go T st h (st.sockets p) }
  where
    go :
        (T : ℕ → Transport) (st : Store)
        → Has T st
        → (o : Option Socket) → Ends (Has T) (fetch o st)
    go T st h none = tt
    go T st h (some s) = h

pub store-Keeps : (p : ℕ) (s : Socket) → Keeps (store p s)
unfolding store
store-Keeps p s = record { holds = λ T st h. h }

pub modify-Keeps : (p : ℕ) (f : Socket → Socket) → Keeps (modify p f)
unfolding modify
modify-Keeps p f = Keeps-bind (load-Keeps p) (λ s. store-Keeps p (f s))

pub free-Keeps : (p : ℕ) → Keeps (free p)
unfolding free
free-Keeps p = record { holds = λ T st h. h }

pub calloc-Keeps : (s : Socket) → Keeps (calloc s)
unfolding calloc
calloc-Keeps s = record { holds = λ T st h. h }

detach-Keeps : (p : ℕ) (s : Socket) → Keeps (detach p s)
unfolding detach
detach-Keeps p s = record { holds = λ T st h. h }

pub remove_socket-Keeps : (p : ℕ) → Keeps (remove_socket p)
unfolding remove_socket
remove_socket-Keeps p =
    Keeps-bind (load-Keeps p) (λ s. Keeps-if s.linked (detach-Keeps p s) (Keeps-pure tt))

pub install_local_socket-Keeps : (p : ℕ) → Keeps (install_local_socket p)
unfolding install_local_socket
install_local_socket-Keeps p = record {
  holds = λ T st h.
      (modify-Keeps p (λ s. record s { id = st.next_id; linked = true })).holds T
        (record st {
          next_id = (st.next_id + 1) % 2 ^ 32;
          socket_list = st.socket_list ++ (p ∷ []);
        })
        h;
}

pub find_in-Keeps : (id : ℕ) (ps : List ℕ) → Keeps (find_in id ps)
unfolding find_in
find_in-Keeps id [] = Keeps-pure none
find_in-Keeps id (p ∷ ps) =
    Keeps-bind (load-Keeps p) (λ s. Keeps-if _ (Keeps-pure (some p)) (find_in-Keeps id ps))

pub find_local_socket-Keeps : (id : ℕ) → Keeps (find_local_socket id)
unfolding find_local_socket
find_local_socket-Keeps id = record {
  holds = λ T st h. (find_in-Keeps id st.socket_list).holds T st h;
}
