-- ===== src/Fdevent/Asked.antt =====
-- Each of fdevent_set, fdevent_add and fdevent_del of src/adbd/fdevent.c, against what the kernel is
-- asked for.
use adbd.Base.{zero, suc, sym, ap, subst, ◌∙◌, ◌≢◌, ◌⊎◌, inl, inr, Bool-cases}
use adbd.Fdevent.{after_update, epoll_or_exit, fdevent_update, fdevent_set, update_op}
use adbd.Base.{
  Option, none, some, ℕ, ◌-◌, ◌<◌, ◌≡◌, refl, Bool, true, false, not, arith, ltb, ◌==◌,
  if◌then◌else◌, ltb→lt, ==_iff, all_below, all_below-lem,
}
use adbd.Fdevent.{
  settle, Epoll, Result, Loop, store_fde, ev_events, plist_remove, ctl_add, ctl_mod, ctl_del, ok,
  exited, aborted,
}
use Prim.Native.Nat.{bit_and, bit_or}

-- The documented behaviour of epoll_ctl on descriptors that can be polled, below the system's limits.
pub record IsEpoll (E : Epoll) : Type 0 where
  pub add_new :
      (k : E.Kernel) (fd ev : ℕ)
      → E.interest k fd ≡ none
      → (k' : E.Kernel) × (E.epoll_ctl k ctl_add fd ev ≡ some k') × (E.interest k' fd ≡ some ev)
  pub mod_old :
      (k : E.Kernel) (fd ev old : ℕ)
      → E.interest k fd ≡ some old
      → (k' : E.Kernel) × (E.epoll_ctl k ctl_mod fd ev ≡ some k') × (E.interest k' fd ≡ some ev)
  pub del_old :
      (k : E.Kernel) (fd ev old : ℕ)
      → E.interest k fd ≡ some old
      → (k' : E.Kernel) × (E.epoll_ctl k ctl_del fd ev ≡ some k') × (E.interest k' fd ≡ none)
  -- ENOENT
  pub mod_new :
      (k : E.Kernel) (fd ev : ℕ) → E.interest k fd ≡ none → E.epoll_ctl k ctl_mod fd ev ≡ none

-- The interest that a mask stands for.
abbrev pub wanted : ℕ → Option ℕ
wanted zero = none
wanted (suc m) = some (suc m)

-- The facts about bits, at every mask of the three events.
pub ev_events-small : (m : ℕ) → m < 8 → ev_events m ≡ m
unfolding ev_events
ev_events-small m h = (==_iff (ev_events m) m).0 (all_below-lem 8 (λ m. ev_events m == m) refl m h)

pub byte-small : (m : ℕ) → m < 8 → bit_and m 255 ≡ m
byte-small m h = (==_iff (bit_and m 255) m).0 (all_below-lem 8 (λ m. bit_and m 255 == m) refl m h)

module _ (f : ℕ → ℕ → Bool) (ok8 : all_below 8 (λ m. all_below 8 (f m)) ≡ true) where
  pub both_below : (m e : ℕ) → m < 8 → e < 8 → f m e ≡ true
  both_below m e h k = all_below-lem 8 (f m) (all_below-lem 8 (λ m. all_below 8 (f m)) ok8 m h) e k

pub add_mask-small : (m e : ℕ) → m < 8 → e < 8 → bit_or m (bit_and e 255) < 8
add_mask-small m e h k =
    ltb→lt _ 8 (both_below (λ m e. ltb (bit_or m (bit_and e 255)) 8) refl m e h k)

pub del_mask-small : (m e : ℕ) → m < 8 → e < 8 → bit_and m (0xffff_ffff - bit_and e 255) < 8
del_mask-small m e h k =
    ltb→lt _ 8 (both_below (λ m e. ltb (bit_and m (0xffff_ffff - bit_and e 255)) 8) refl m e h k)

pub suc-not_zero : (m : ℕ) → (suc m == 0) ≡ false
suc-not_zero m = ground arith

pub if-true {ℓ} : {A : Type ℓ} → (b : Bool) (x y : A) → b ≡ true → (if b then x else y) ≡ x
if-true b x y h = rw h refl

pub ==-refl : (p : ℕ) → (p == p) ≡ true
==-refl p = ground arith

module _ (E : Epoll) (p : ℕ) where
  -- The kernel holds what the mask says, for an fdevent that is installed.
  abbrev pub Synced : Loop E.Kernel → Type 0
  Synced l =
      ((l.fdes p).active ≡ true)
      × ((l.fdes p).mask < 8)
      × (E.interest l.kernel (l.fdes p).fd ≡ wanted (l.fdes p).mask)

  -- The call went through, the mask is `m`, and the kernel follows.
  abbrev pub Sets : ℕ → Result (Loop E.Kernel) → Type 0
  Sets m (ok l) = Synced l × ((l.fdes p).mask ≡ m)
  Sets m exited = ⊥
  Sets m aborted = ⊥

  -- What `settle` needs of the state before.
  pub Updated : ℕ → Loop E.Kernel → Type 0
  Updated m l = ((l.fdes p).active ≡ true) × (E.interest l.kernel (l.fdes p).fd ≡ wanted m)

  pub settle-Sets : (l : Loop E.Kernel) (m : ℕ) → m < 8 → Updated m l → Sets m (ok (settle E l p m))
  unfolding Updated settle store_fde
  settle-Sets l m h (a, u) = go (l.fdes p).pending (bit_and (l.fdes p).events (65535 - m) == 0)
    where
      go :
          (b c : Bool)
          → Sets m (
              ok (
                let f = record (l.fdes p) { mask = m } in
                if not b
                then store_fde l p f
                else if c
                then record (store_fde l p (record f { events = 0; pending = false })) {
                  list_pending = plist_remove p l.list_pending;
                }
                else store_fde l p (record f { events = bit_and (l.fdes p).events (65535 - m) })))
      go false c = rw (==-refl p) ((a, h, u), refl)
      go true true = rw (==-refl p) ((a, h, u), refl)
      go true false = rw (==-refl p) ((a, h, u), refl)

  module _ (laws : IsEpoll E) where
    epoll_or_exit-Sets :
        (l : Loop E.Kernel) (fd m old : ℕ)
        → (l.fdes p).active ≡ true
        → (l.fdes p).fd ≡ fd
        → m < 8
        → m ≢ old
        → E.interest l.kernel fd ≡ wanted old
        → Sets m (
            after_update E p m (epoll_or_exit E l fd m (update_op (not (m == 0)) (not (old == 0)))))
    unfolding after_update epoll_or_exit update_op Updated
    epoll_or_exit-Sets l fd zero zero a q h ne i = absurd (ne refl)
    epoll_or_exit-Sets l fd zero (suc o) a q h ne i =
        let r = laws.del_old l.kernel fd 0 (suc o) i in
        rw (suc-not_zero o, r.1)
          (settle-Sets (record l { kernel = r.0 }) zero h (a, ap (E.interest r.0) q ∙ r.2))
    epoll_or_exit-Sets l fd (suc m) zero a q h ne i =
        let r = laws.add_new l.kernel fd (suc m) i in
        rw (suc-not_zero m, r.1)
          (settle-Sets (record l { kernel = r.0 }) (suc m) h (a, ap (E.interest r.0) q ∙ r.2))
    epoll_or_exit-Sets l fd (suc m) (suc o) a q h ne i =
        let r = laws.mod_old l.kernel fd (suc m) (suc o) i in
        rw (suc-not_zero m, suc-not_zero o, r.1)
          (settle-Sets (record l { kernel = r.0 }) (suc m) h (a, ap (E.interest r.0) q ∙ r.2))

    pub fdevent_set-Sets :
        (l : Loop E.Kernel) (m : ℕ) → m < 8 → Synced l → Sets m (fdevent_set E l p m)
    unfolding fdevent_set
    fdevent_set-Sets l m h (a, s, i) = rw (byte-small m h) (go (Bool-cases ((l.fdes p).mask == m)))
      where
        go :
            (((l.fdes p).mask == m) ≡ true) ⊎ (((l.fdes p).mask == m) ≡ false)
            → Sets m (
                if (l.fdes p).mask == m
                then ok l
                else after_update E p m
                    (if (l.fdes p).active then fdevent_update E l p m else ok l))
        go (inl e) = rw e ((a, s, i), (==_iff (l.fdes p).mask m).0 e)
        go (inr e) = rw e (
            subst (λ r. Sets m (after_update E p m r)) (sym (if-true _ _ _ a))
              (subst (Sets m) (sym shape) update))
          where
            changed : m ≢ (l.fdes p).mask
            changed q = ground arith

            shape :
                after_update E p m (fdevent_update E l p m)
                ≡ after_update E p m (
                    epoll_or_exit E
                      (store_fde l p (record (l.fdes p) { mask = m }))
                      (l.fdes p).fd
                      m
                      (update_op (not (m == 0)) (not ((l.fdes p).mask == 0))))
            shape = rw (fdevent_update, ev_events-small m h) refl

            update : Sets m (
                after_update E p m (
                  epoll_or_exit E
                    (store_fde l p (record (l.fdes p) { mask = m }))
                    (l.fdes p).fd
                    m
                    (update_op (not (m == 0)) (not ((l.fdes p).mask == 0)))))
            update =
                epoll_or_exit-Sets (store_fde l p (record (l.fdes p) { mask = m })) (l.fdes p).fd m
                  (l.fdes p).mask (rw (store_fde, ==-refl p) a) (rw (store_fde, ==-refl p) refl) h
                  changed i
