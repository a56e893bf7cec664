-- ===== src/Fdevent/Interest.antt =====
-- What epoll is asked for, against the masks of src/adbd/fdevent.c.
use adbd.Fdevent.Asked.{fdevent_set-Sets, IsEpoll, Sets, Synced, add_mask-small, del_mask-small}
use adbd.Fdevent.{fdevent_del, fdevent_add}
use adbd.Base.{List, [], ◌∷◌, All}
use adbd.Base.{subst}
use adbd.Fdevent.{fdevent_set}
use adbd.Base.{ℕ, ◌-◌, ◌<◌, refl}
use adbd.Fdevent.{Epoll, Result, Loop, ok, exited, aborted}
use Prim.Native.Nat.{bit_and, bit_or}

-- The calls that change what an fdevent waits for.
pub data Change : Type 0 where
  set_to add_to del_from : ℕ → Change

abbrev pub amount : Change → ℕ
amount (set_to e) = e
amount (add_to e) = e
amount (del_from e) = e

-- The mask after a change, as the callers mean it.
abbrev pub changed_mask : Change → ℕ → ℕ
changed_mask (set_to e) m = e
changed_mask (add_to e) m = bit_or m (bit_and e 255)
changed_mask (del_from e) m = bit_and m (0xffff_ffff - bit_and e 255)

abbrev pub final_mask : List Change → ℕ → ℕ
final_mask [] m = m
final_mask (c ∷ cs) m = final_mask cs (changed_mask c m)

module _ (E : Epoll) (p : ℕ) where
  abbrev pub change : Change → Loop E.Kernel → Result (Loop E.Kernel)
  change (set_to e) l = fdevent_set E l p e
  change (add_to e) l = fdevent_add E l p e
  change (del_from e) l = fdevent_del E l p e

  abbrev pub changes : List Change → Result (Loop E.Kernel) → Result (Loop E.Kernel)
  changes [] r = r
  changes (c ∷ cs) (ok l) = changes cs (change c l)
  changes (c ∷ cs) exited = exited
  changes (c ∷ cs) aborted = aborted

  change-Sets :
      (laws : IsEpoll E) (c : Change) (l : Loop E.Kernel)
      → amount c < 8
      → Synced E p l
      → (changed_mask c (l.fdes p).mask < 8)
        × Sets E p (changed_mask c (l.fdes p).mask) (change c l)
  unfolding fdevent_add fdevent_del
  change-Sets laws (set_to e) l h s = (h, fdevent_set-Sets E p laws l e h s)
  change-Sets laws (add_to e) l h (a, k, i) =
      let small = add_mask-small (l.fdes p).mask e k h in
      (small, fdevent_set-Sets E p laws l _ small (a, k, i))
  change-Sets laws (del_from e) l h (a, k, i) =
      let small = del_mask-small (l.fdes p).mask e k h in
      (small, fdevent_set-Sets E p laws l _ small (a, k, i))

  Follows : List Change → ℕ → Result (Loop E.Kernel) → Type 0
  Follows cs m r = Sets E p (final_mask cs m) (changes cs r)

  changes-Follows :
      (laws : IsEpoll E) (cs : List Change) (m : ℕ) (r : Result (Loop E.Kernel))
      → All (λ c. amount c < 8) cs
      → Sets E p m r
      → Follows cs m r
  unfolding Follows
  changes-Follows laws [] m r h s = s
  changes-Follows laws (c ∷ cs) m (ok l) (h, hs) (s, e) =
      changes-Follows laws cs (changed_mask c m) (change c l) hs
        (subst (λ k. Sets E p (changed_mask c k) (change c l)) e (change-Sets laws c l h s).1)
  changes-Follows laws (c ∷ cs) m exited h s = absurd s
  changes-Follows laws (c ∷ cs) m aborted h s = absurd s

-- With a kernel that behaves as documented, for an installed fdevent whose mask has only FDE_READ,
-- FDE_WRITE and FDE_ERROR and whose interest the kernel holds: no sequence of fdevent_set,
-- fdevent_add and fdevent_del with these events ends in `exit(1)`, the mask is the one that the
-- changes add up to, and the kernel's interest is again that mask (none when it is empty).
pub changes-Sets :
    (E : Epoll) (laws : IsEpoll E) (p : ℕ) (cs : List Change) (l : Loop E.Kernel)
    → All (λ c. amount c < 8) cs
    → Synced E p l
    → Sets E p (final_mask cs (l.fdes p).mask) (changes E p cs (ok l))
unfolding Follows
changes-Sets E laws p cs l h s = changes-Follows E p laws cs (l.fdes p).mask (ok l) h (s, refl)
