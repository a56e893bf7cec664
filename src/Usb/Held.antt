-- ===== src/Usb/Held.antt =====
-- The descriptors of the functionfs handle of src/adbd/usb_linux_client.c over its whole life.
use adbd.Base.{
  Option, none, some, ℕ, zero, suc, ◌≡◌, refl, sym, ap, ◌∙◌, ◌≢◌, ◌⊎◌, inl, inr, Bool, true, false,
  List, ◌∷◌, ◌==◌, ==_iff, Bool-cases,
}
use adbd.Usb.Open.{
  UsbHandle, Attempt, usb_ffs_init, without, init_error, init_functionfs, usb_ffs_kick,
}

-- A handle that waits for the thread, and one that a transport uses. `base` are the descriptors that
-- the rest of the process has open.
pub data Holds (base : List ℕ) : UsbHandle → Type 0 where
  unset :
      (x : Option ℕ)
      → (x ≡ none) ⊎ (x ≡ some 0)
      → Holds base (record { control = none; bulk_out = none; bulk_in = x; open_fds = base })
  in_use :
      (c o i : ℕ)
      → c ≢ o
      → c ≢ i
      → o ≢ i
      → Holds base (record {
        control = some c;
        bulk_out = some o;
        bulk_in = some i;
        open_fds = i ∷ o ∷ c ∷ base;
      })

-- What a kernel returns: the descriptors differ from each other, and 0 is in use.
pub record IsKernel (a : Attempt) : Type 0 where
  pub ep0_positive : a.ep0 ≢ some 0
  pub ep_out_positive : a.ep_out ≢ some 0
  pub ep_in_positive : a.ep_in ≢ some 0
  pub ep0_out : (n : ℕ) → a.ep0 ≡ some n → a.ep_out ≢ some n
  pub ep0_in : (n : ℕ) → a.ep0 ≡ some n → a.ep_in ≢ some n
  pub ep_out_in : (n : ℕ) → a.ep_out ≡ some n → a.ep_in ≢ some n

-- What happens to the handle: the thread tries while there is no control endpoint, and a transport
-- is kicked once there is one.
pub data Moves : UsbHandle → UsbHandle → Type 0 where
  tries :
      (h : UsbHandle) (a : Attempt) → h.control ≡ none → IsKernel a → Moves h (init_functionfs h a)
  kicked : (h : UsbHandle) → h.control ≢ none → Moves h (usb_ffs_kick h)

pub data Reaches (h : UsbHandle) : UsbHandle → Type 0 where
  starts : Reaches h h
  goes : {h' h'' : UsbHandle} → Reaches h h' → Moves h' h'' → Reaches h h''

without_head : (fd : ℕ) (fds : List ℕ) → without fd (fd ∷ fds) ≡ fds
unfolding without
without_head fd fds = rw ((==_iff fd fd).1 refl) refl

without_tail : (fd x : ℕ) (fds : List ℕ) → fd ≢ x → without fd (x ∷ fds) ≡ x ∷ without fd fds
unfolding without
without_tail fd x fds h = elim (Bool-cases (x == fd)) [
  | inl t ↦ absurd (h (sym ((==_iff x fd).0 t)))
  | inr t ↦ rw t refl
]

module _ (base : List ℕ) where
  -- The error path after the control endpoint was opened.
  fails_open :
      (x : Option ℕ) (c : ℕ)
      → (x ≡ none) ⊎ (x ≡ some 0)
      → Holds base (
          init_error (record {
            control = some (suc c);
            bulk_out = none;
            bulk_in = x;
            open_fds = suc c ∷ base;
          }))
  unfolding init_error
  fails_open x c (inl e) = rw (e, without_head (suc c) base) (unset none (inl refl))
  fails_open x c (inr e) = rw (e, without_head (suc c) base) (unset (some 0) (inr refl))

  tries-Holds :
      (x : Option ℕ) (a : Attempt)
      → (x ≡ none) ⊎ (x ≡ some 0)
      → IsKernel a
      → Holds base (
          init_functionfs
            (record { control = none; bulk_out = none; bulk_in = x; open_fds = base })
            a)
  unfolding init_functionfs
  tries-Holds x a h k = go a.ep0 a.ep_out a.ep_in a.wrote_descriptors a.wrote_strings refl refl refl
    where
      go :
          (e0 eo ei : Option ℕ) (d s : Bool)
          → a.ep0 ≡ e0
          → a.ep_out ≡ eo
          → a.ep_in ≡ ei
          → Holds base (
              init_functionfs
                (record { control = none; bulk_out = none; bulk_in = x; open_fds = base })
                (record {
                  ep0 = e0;
                  wrote_descriptors = d;
                  wrote_strings = s;
                  ep_out = eo;
                  ep_in = ei;
                }))
      go none eo ei d s p q r = elim h [
        | inl e ↦ rw (e, init_error) (unset none (inl refl))
        | inr e ↦ rw (e, init_error) (unset (some 0) (inr refl))
      ]
      go (some zero) eo ei d s p q r = absurd (k.ep0_positive p)
      go (some (suc c)) eo ei false s p q r = fails_open x c h
      go (some (suc c)) eo ei true false p q r = fails_open x c h
      go (some (suc c)) none ei true true p q r = fails_open x c h
      go (some (suc c)) (some zero) ei true true p q r = absurd (k.ep_out_positive q)
      go (some (suc c)) (some (suc o)) none true true p q r =
          unfold init_error in
          rw (without_head (suc o) (suc c ∷ base), without_head (suc c) base)
            (unset none (inl refl))
      go (some (suc c)) (some (suc o)) (some zero) true true p q r = absurd (k.ep_in_positive r)
      go (some (suc c)) (some (suc o)) (some (suc i)) true true p q r =
          in_use (suc c) (suc o) (suc i) (λ e. k.ep0_out (suc c) p (q ∙ ap some (sym e)))
            (λ e. k.ep0_in (suc c) p (r ∙ ap some (sym e)))
            (λ e. k.ep_out_in (suc o) q (r ∙ ap some (sym e)))

  kicked-Holds : (h : UsbHandle) → Holds base h → h.control ≢ none → Holds base (usb_ffs_kick h)
  unfolding usb_ffs_kick
  kicked-Holds _ (unset x h) p = absurd (p refl)
  kicked-Holds _ (in_use c o i co ci oi) p =
      let out_c : without c (i ∷ o ∷ c ∷ base) ≡ i ∷ o ∷ base =
        without_tail c i (o ∷ c ∷ base) ci
        ∙ ap (◌∷◌ i) (without_tail c o (c ∷ base) co ∙ ap (◌∷◌ o) (without_head c base)) in
      let out_o : without o (i ∷ o ∷ base) ≡ i ∷ base =
        without_tail o i (o ∷ base) oi ∙ ap (◌∷◌ i) (without_head o base) in
      rw (out_c, out_o, without_head i base) (unset none (inl refl))

  Moves-Holds : {h h' : UsbHandle} → Holds base h → Moves h h' → Holds base h'
  Moves-Holds holds (tries h a e k) = start h a holds e k
    where
      start :
          (h : UsbHandle) (a : Attempt)
          → Holds base h
          → h.control ≡ none
          → IsKernel a
          → Holds base (init_functionfs h a)
      start _ a (unset x d) e k = tries-Holds x a d k
      start _ a (in_use c o i co ci oi) e k = cc
  Moves-Holds holds (kicked h e) = kicked-Holds h holds e

-- From the handle of `usb_ffs_init`, through any sequence of attempts to open the endpoints, each
-- failing at any of its calls, and of kicks of a handle in use, where the kernel never returns
-- descriptor 0 nor one descriptor for two endpoints of an attempt: either the handle holds no
-- endpoint and exactly the descriptors of the rest of the process are open, or it holds all three
-- endpoints and exactly they are open besides: no descriptor leaks.
pub Reaches-Holds : (base : List ℕ) (h : UsbHandle) → Reaches (usb_ffs_init base) h → Holds base h
unfolding usb_ffs_init
Reaches-Holds base _ starts = unset (some 0) (inr refl)
Reaches-Holds base _ (goes {h' = h'} r m) = Moves-Holds base (Reaches-Holds base h' r) m
