-- ===== src/Tests/CloseAll.antt =====
-- `close_all_sockets` at a concrete store: two pairs of sockets, of the transports 0 and 1.
use adbd.Sockets.Ops.{close}
use adbd.Base.{
  Option, none, some, ℕ, ◌≤◌, ◌≡◌, refl, subst, inl, inr, List, [], ◌∷◌, In, arith, zero, suc,
  Distinct,
}
use adbd.Sockets.{
  Socket, blank, Store, update, local_socket_enqueue, local_socket_ready, local_socket_close, ok,
  exited, fault, out_of_fuel, Run,
}
use adbd.Sockets.Valid.{
  near_of, far_of, local, tracker, IsFar, Sound, IsValid, near_sound, far_sound,
}
use adbd.Sockets.Altered.{Safe}
use adbd.Sockets.CloseAll.{close_all_sockets}
use adbd.Sockets.CloseAll.Emptied.{AllLocal, IsEmptied, close_all_sockets-IsEmptied}
use adbd.Sockets.CloseAll.Search.{IsLocal, local-IsNear}
use adbd.Tests.Handler.{empty_store}

abbrev base : Socket
base = record (blank local_socket_enqueue local_socket_ready local_socket_close) { id = 1; fd = 5 }

abbrev second : Socket
second = record base { id = 2; fd = 6 }

abbrev objects : ℕ → Option Socket
objects zero = none
objects (suc zero) = some (near_of local base (some 2))
objects (suc (suc zero)) = some (far_of 9 (some 1) 0)
objects (suc (suc (suc zero))) = some (near_of local second (some 4))
objects (suc (suc (suc (suc zero)))) = some (far_of 10 (some 3) 1)
objects (suc (suc (suc (suc (suc p))))) = none

abbrev remotes : ℕ → List ℕ
remotes zero = 2 ∷ []
remotes (suc zero) = 4 ∷ []
remotes (suc (suc t)) = []

abbrev pairs : Store
pairs = record empty_store {
  sockets = objects;
  fresh = 5;
  socket_list = 1 ∷ 3 ∷ [];
  next_id = 3;
  disconnects = remotes;
}

pairs_local : AllLocal pairs
pairs_local p (inl e) =
    subst (λ k. IsLocal (objects k)) e (record { peer = 2; base = base; same = refl })
pairs_local p (inr (inl e)) =
    subst (λ k. IsLocal (objects k)) e (record { peer = 4; base = second; same = refl })
pairs_local p (inr (inr e)) = absurd e

above : (p : ℕ) → 5 ≤ p → objects p ≡ none
above zero h = absurd (omega arith)
above (suc zero) h = absurd (omega arith)
above (suc (suc zero)) h = absurd (omega arith)
above (suc (suc (suc zero))) h = absurd (omega arith)
above (suc (suc (suc (suc zero)))) h = absurd (omega arith)
above (suc (suc (suc (suc (suc p))))) h = refl

unpack : {x y : Socket} → some x ≡ some y → x ≡ y
unpack e = cc

sound : (p : ℕ) (s : Socket) → objects p ≡ some s → Sound pairs p s
sound zero s e = cc
sound (suc zero) s e =
    subst (Sound pairs 1) (unpack e)
      (near_sound local base 2 0 (record { number = 9; same = refl }))
sound (suc (suc zero)) s e =
    subst (Sound pairs 2) (unpack e)
      (far_sound 9 1 0 (record { kind = local; base = base; same = refl }) (inl refl))
sound (suc (suc (suc zero))) s e =
    subst (Sound pairs 3) (unpack e)
      (near_sound local second 4 1 (record { number = 10; same = refl }))
sound (suc (suc (suc (suc zero)))) s e =
    subst (Sound pairs 4) (unpack e)
      (far_sound 10 3 1 (record { kind = local; base = second; same = refl }) (inl refl))
sound (suc (suc (suc (suc (suc p))))) s e = cc

joined : (t p : ℕ) → In p (remotes t) → (l : ℕ) × IsFar l t (objects p)
joined zero p (inl e) =
    (1, subst (λ k. IsFar 1 0 (objects k)) e (record { number = 9; same = refl }))
joined zero p (inr i) = absurd i
joined (suc zero) p (inl e) =
    (3, subst (λ k. IsFar 3 1 (objects k)) e (record { number = 10; same = refl }))
joined (suc zero) p (inr i) = absurd i
joined (suc (suc t)) p i = absurd i

joined_once : (t : ℕ) → Distinct (remotes t)
joined_once zero = (λ i. i, tt)
joined_once (suc zero) = (λ i. i, tt)
joined_once (suc (suc t)) = tt

pairs-IsValid : IsValid pairs
pairs-IsValid = record {
  above = above;
  sound = sound;
  listed = λ p i. let l = pairs_local p i in (l.peer, local-IsNear l);
  once = (λ i. elim i [ inl e ↦ omega arith | inr f ↦ f ], (λ i. i, tt));
  joined = joined;
  joined_once = joined_once;
}

close_all_sockets-IsEmptied_example : Safe (λ _. IsEmptied 1 pairs) (close_all_sockets 1 pairs)
close_all_sockets-IsEmptied_example = close_all_sockets-IsEmptied 1 pairs pairs-IsValid pairs_local

-- The pair of the other transport stays, and a tracker would not leave its own list.
abbrev listed_then : {A : Type 0} → Run A → List ℕ × List ℕ
listed_then (ok a st) = (st.socket_list, st.trackers)
listed_then (exited st) = ([], [])
listed_then fault = ([], [])
listed_then out_of_fuel = ([], [])

abbrev tracker_store : Store
tracker_store = record pairs {
  sockets = update objects 3 (some (near_of tracker second (some 4)));
  trackers = 3 ∷ [];
}

close_all_sockets_tests :
    (listed_then (close_all_sockets 1 pairs) ≡ (1 ∷ [], []))
    × (listed_then (close_all_sockets 1 tracker_store) ≡ (1 ∷ [], 3 ∷ []))
unfolding close_all_sockets close
close_all_sockets_tests = (refl, refl)
