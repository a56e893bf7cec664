-- ===== src/Fdevent/Steps.antt =====
-- The event loop as a step relation (src/adbd/fdevent.c): what its functions do to the pending nodes
-- in any order.
use adbd.Base.{some, ℕ, ◌≡◌, sym, subst, Bool, true, false, List, ltb, ◌==◌, if◌then◌else◌}
use adbd.Fdevent.{
  grow, call_fdfunc, expand, fdevent_remove, enter, fdevent_set, fdevent_process,
  fdevent_plist_dequeue, fdevent_install, fdevent_register, Epoll, Loop, store_fde, ok, aborted,
}
use adbd.Fdevent.Pending.{Tied, restore, Returned, fdevent_process-Tied, fdevent_set-Returned}
use adbd.Fdevent.Removal.{Dispatched, fdevent_remove-Returned, dispatch-Dispatched}

-- What the loop and its callbacks do, one call at a time. A node that is installed is not pending:
-- it is new, or was removed.
pub data Step (E : Epoll) : Loop E.Kernel → Loop E.Kernel → Type 0 where
  processed : (l : Loop E.Kernel) (es : List (ℕ × ℕ)) → Step E l (fdevent_process E l es)
  installed :
      (l l' : Loop E.Kernel) (p fd func : ℕ)
      → (l.fdes p).pending ≡ false
      → fdevent_install E l p fd func ≡ ok l'
      → Step E l l'
  changed : (l l' : Loop E.Kernel) (p m : ℕ) → fdevent_set E l p m ≡ ok l' → Step E l l'
  removed : (l l' : Loop E.Kernel) (p : ℕ) → fdevent_remove E l p ≡ ok l' → Step E l l'
  called :
      (l l' : Loop E.Kernel) (p : ℕ)
      → fdevent_plist_dequeue E l ≡ some (p, l')
      → Step E l (call_fdfunc E l' p).0

pub data Reaches (E : Epoll) : Loop E.Kernel → Loop E.Kernel → Type 0 where
  here : (l : Loop E.Kernel) → Reaches E l l
  onward : (l l' l'' : Loop E.Kernel) → Step E l l' → Reaches E l' l'' → Reaches E l l''

module _ (E : Epoll) where
  fdevent_register-Returned :
      (l : Loop E.Kernel) (p : ℕ) → Tied E l → Returned E (fdevent_register E l p)
  unfolding fdevent_register enter expand
  fdevent_register-Returned l p t = go (ltb (l.fdes p).fd l.fd_table_max) (ltb 32000 (l.fdes p).fd)
    where
      fd : ℕ
      fd = (l.fdes p).fd

      go :
          (b c : Bool)
          → Returned E (
              if b
              then ok (enter E l fd p)
              else if c
              then aborted
              else ok (
                  enter E
                    (expand E l (grow E 8 fd (if l.fd_table_max == 0 then 256 else l.fd_table_max)))
                    fd
                    p))
      go true c = t
      go false true = tt
      go false false = t

  fdevent_install-Returned :
      (l : Loop E.Kernel) (p fd func : ℕ)
      → (l.fdes p).pending ≡ false
      → Tied E l
      → Returned E (fdevent_install E l p fd func)
  unfolding fdevent_install
  fdevent_install-Returned l p fd func h t =
      fdevent_register-Returned (store_fde l p _) p (restore E l p _ t (sym h))

  Step-Tied : (l l' : Loop E.Kernel) → Step E l l' → Tied E l → Tied E l'
  Step-Tied _ _ (processed l es) t = fdevent_process-Tied E l es t
  Step-Tied _ _ (installed l l' p fd func h e) t =
      subst (Returned E) e (fdevent_install-Returned l p fd func h t)
  Step-Tied _ _ (changed l l' p m e) t = subst (Returned E) e (fdevent_set-Returned E l p m t)
  Step-Tied _ _ (removed l l' p e) t = subst (Returned E) e (fdevent_remove-Returned E l p t)
  Step-Tied _ _ (called l l1 p e) t = (subst (Dispatched E l) e (dispatch-Dispatched E l t)).0

  Reaches-Tied : (l l' : Loop E.Kernel) → Reaches E l l' → Tied E l → Tied E l'
  Reaches-Tied _ _ (here l) t = t
  Reaches-Tied _ _ (onward l l1 l2 s r) t = Reaches-Tied l1 l2 r (Step-Tied l l1 s t)

-- For any order of steps: when at the start each node is in the list of pending nodes once if its
-- bit FDE_PENDING is set and not at all otherwise, the same holds at the end; and then the next round
-- of the inner loop of `fdevent_loop` either finds the list empty or calls the first node's function
-- with all the events it has gathered, never dropping it, and again leaves list and bits in step.
pub Reaches-Dispatched :
    (E : Epoll) (l l' : Loop E.Kernel)
    → Reaches E l l'
    → Tied E l
    → Tied E l' × Dispatched E l' (fdevent_plist_dequeue E l')
Reaches-Dispatched E l l' r t =
    let t' = Reaches-Tied E l l' r t in (t', dispatch-Dispatched E l' t')
