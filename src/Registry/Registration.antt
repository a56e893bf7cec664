-- ===== src/Registry/Registration.antt =====
-- The list of transports of src/adbd/transport.c: `transport_registration_func`, which puts a
-- transport in the list and starts its threads or takes it out and frees it, and
-- `unregister_usb_transport`. A pointer is a number.
use adbd.Base.{
  Option, none, some, ℕ, ◌≡◌, sym, subst, inl, inr, Bool, true, false, List, [], ◌∷◌, ◌++◌, ◌==◌,
  if◌then◌else◌,
}
use adbd.Base.{In, Distinct, In-append, Distinct-append}
use adbd.Sockets.{unlink}
use adbd.Sockets.Valid.{In-unlink, unlink-Distinct}
use adbd.Registry.Messages.{Tmsg}

-- The list, head first; the transports whose fdevent is installed and whose threads were started,
-- with the two ends of their pair; the descriptors that were closed; and the objects that were freed.
pub record Transports : Type 0 where
  pub transport_list : List ℕ
  pub started : List (ℕ × ℕ × ℕ)
  pub fds_closed : List ℕ
  pub freed : List ℕ

-- What the handler comes to: its end, or the end of the process.
pub data Turned : Type 0 where
  turned : Transports → Turned
  fatal : Turned

-- The ends of a transport that was started: `transport_socket` and `fd`.
abbrev ends_of : ℕ → List (ℕ × ℕ × ℕ) → List ℕ
ends_of t [] = []
ends_of t ((u, a, b) ∷ rest) = elim (u == t) [ true ↦ a ∷ b ∷ [] | false ↦ ends_of t rest ]

abbrev not_started : ℕ → List (ℕ × ℕ × ℕ) → List (ℕ × ℕ × ℕ)
not_started t [] = []
not_started t ((u, a, b) ∷ rest) = elim (u == t) [
  | true ↦ rest
  | false ↦ (u, a, b) ∷ not_started t rest
]

-- Action 0: the fdevent's descriptor and `fd` are closed, and the object is freed once its
-- disconnects have run.
unfoldable pub take_out : ℕ → Transports → Transports
unfolding unlink
take_out t s = record {
  transport_list = unlink t s.transport_list;
  started = not_started t s.started;
  fds_closed = s.fds_closed ++ ends_of t s.started;
  freed = t ∷ s.freed;
}

unfoldable pub put_in : ℕ → Transports → Transports
put_in t s = record s { transport_list = s.transport_list ++ (t ∷ []) }

-- The other action, with whether the transport lacks permission, the pair of descriptors, and
-- whether both threads could be made.
unfoldable pub start_up : ℕ → Bool → Option (ℕ × ℕ) → Bool → Transports → Turned
unfolding put_in
start_up t true pair threads s = turned (put_in t s)
start_up t false none threads s = fatal
start_up t false (some (a, b)) false s = fatal
start_up t false (some (a, b)) true s =
    turned (put_in t (record s { started = (t, a, b) ∷ s.started }))

unfoldable pub transport_registration_func :
    Tmsg → Bool → Option (ℕ × ℕ) → Bool → Transports → Turned
unfolding take_out start_up
transport_registration_func m noperm pair threads s =
    if m.action == 0
    then turned (take_out m.transport s)
    else start_up m.transport noperm pair threads s

-- `unregister_usb_transport`: the first that has the handle and lacks permission leaves the list.
-- The object is not freed.
unfoldable pub unregister_usb_transport : (ℕ → Bool) → List ℕ → List ℕ
unregister_usb_transport has_handle [] = []
unregister_usb_transport has_handle (t ∷ ts) =
    let rest = unregister_usb_transport has_handle ts in if has_handle t then ts else t ∷ rest

-- What the callers send: a new object, or one of the list whose last reference is gone; with what the handler
-- leaves. `unregister_usb_transport` may come between.
pub data Turns : Transports → Transports → Type 0 where
  registers :
      (s s' : Transports) (t : ℕ) (noperm threads : Bool) (pair : Option (ℕ × ℕ))
      → ¬ In t s.transport_list
      → ¬ In t s.freed
      → transport_registration_func (record { transport = t; action = 1 }) noperm pair threads s
        ≡ turned s'
      → Turns s s'
  removes :
      (s s' : Transports) (t : ℕ) (noperm threads : Bool) (pair : Option (ℕ × ℕ))
      → In t s.transport_list
      → transport_registration_func (record { transport = t; action = 0 }) noperm pair threads s
        ≡ turned s'
      → Turns s s'
  unregisters :
      (s : Transports) (has_handle : ℕ → Bool)
      → Turns s (record s { transport_list = unregister_usb_transport has_handle s.transport_list })

pub data Passes (s : Transports) : Transports → Type 0 where
  begins : Passes s s
  goes_on : {s' s'' : Transports} → Passes s s' → Turns s' s'' → Passes s s''

-- No transport stands in the list twice, none that is freed stands in it, and none is freed twice.
pub record IsSound (s : Transports) : Type 0 where
  pub once : Distinct s.transport_list
  pub live : (t : ℕ) → In t s.transport_list → ¬ In t s.freed
  pub freed_once : Distinct s.freed

put_in-IsSound :
    (t : ℕ) (s : Transports) (ended : List (ℕ × ℕ × ℕ))
    → IsSound s
    → ¬ In t s.transport_list
    → ¬ In t s.freed
    → IsSound (put_in t (record s { started = ended }))
unfolding put_in
put_in-IsSound t s ended h new live = record {
  once = Distinct-append t s.transport_list h.once new;
  live = λ u i k. elim (In-append u s.transport_list (t ∷ []) i) [
    | inl a ↦ h.live u a k
    | inr (inl e) ↦ live (subst (λ j. In j s.freed) (sym e) k)
    | inr (inr e) ↦ e
  ];
  freed_once = h.freed_once;
}

take_out-IsSound :
    (t : ℕ) (s : Transports) → IsSound s → In t s.transport_list → IsSound (take_out t s)
unfolding take_out
take_out-IsSound t s h there =
    let (distinct, out) = unlink-Distinct t s.transport_list h.once in
    record {
      once = distinct;
      live = λ u i k. elim k [
        | inl e ↦ out (subst (λ j. In j (unlink t s.transport_list)) (sym e) i)
        | inr f ↦ h.live u (In-unlink u t s.transport_list i) f
      ];
      freed_once = (h.live t there, h.freed_once);
    }

In-unregister :
    (g : ℕ → Bool) (r : ℕ) (xs : List ℕ) → In r (unregister_usb_transport g xs) → In r xs
unfolding unregister_usb_transport
In-unregister g r [] i = i
In-unregister g r (x ∷ xs) i = go (g x) i (In-unregister g r xs)
  where
    go :
        (b : Bool)
        → In r (if b then xs else x ∷ unregister_usb_transport g xs)
        → (In r (unregister_usb_transport g xs) → In r xs)
        → In r (x ∷ xs)
    go true i ih = inr i
    go false (inl e) ih = inl e
    go false (inr i) ih = inr (ih i)

unregister-Distinct :
    (g : ℕ → Bool) (xs : List ℕ) → Distinct xs → Distinct (unregister_usb_transport g xs)
unfolding unregister_usb_transport
unregister-Distinct g [] d = tt
unregister-Distinct g (x ∷ xs) (new, d) = go (g x) (unregister-Distinct g xs d)
  where
    go :
        (b : Bool)
        → Distinct (unregister_usb_transport g xs)
        → Distinct (if b then xs else x ∷ unregister_usb_transport g xs)
    go true ih = d
    go false ih = (λ i. new (In-unregister g x xs i), ih)

turned-IsSound : {a b : Transports} → turned a ≡ turned b → IsSound a → IsSound b
turned-IsSound {a = a} {b = b} e h = subst IsSound same h
  where
    same : a ≡ b
    same = cc

Turns-IsSound : (s s' : Transports) → IsSound s → Turns s s' → IsSound s'
unfolding transport_registration_func start_up
Turns-IsSound _ _ h (registers s s' t true threads pair new live e) =
    turned-IsSound e (put_in-IsSound t s s.started h new live)
Turns-IsSound _ _ h (registers s s' t false threads none new live e) = cc
Turns-IsSound _ _ h (registers s s' t false false (some (a, b)) new live e) = cc
Turns-IsSound _ _ h (registers s s' t false true (some (a, b)) new live e) =
    turned-IsSound e (put_in-IsSound t s ((t, a, b) ∷ s.started) h new live)
Turns-IsSound _ _ h (removes s s' t noperm threads pair there e) =
    turned-IsSound e (take_out-IsSound t s h there)
Turns-IsSound _ _ h (unregisters s g) = record {
  once = unregister-Distinct g s.transport_list h.once;
  live = λ u i. h.live u (In-unregister g u s.transport_list i);
  freed_once = h.freed_once;
}

-- From a list where it holds, as from the empty one, through any sequence of messages in which only
-- new objects are registered and only listed ones removed, and of unregistered USB handles: no
-- transport stands in the list twice, no object that the handler has freed stands in it, and none
-- is freed twice.
pub Passes-IsSound : (s s' : Transports) → IsSound s → Passes s s' → IsSound s'
Passes-IsSound s _ h begins = h
Passes-IsSound s _ h (goes_on {s' = s'} {s'' = s''} r m) =
    Turns-IsSound s' s'' (Passes-IsSound s s' h r) m
