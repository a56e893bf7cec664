-- ===== src/Session/Down.antt =====
-- A transport that is not online stays so under every part of the packet handler that does not call
-- `handle_online`.
use adbd.Base.{ℕ, ◌≡◌, refl, Bool, true, false, if◌then◌else◌, arith}
use adbd.Sockets.{Store, Run, ok, exited, fault, out_of_fuel, Cmd, pure, ◌>>=◌, ◌>>◌, and_then}
use adbd.Sockets.Frame.{Ends, Has, Keeps}
use adbd.Transport.{Transport}
use adbd.Session.{with_transport}

abbrev pub Down : ℕ → Store → Type 0
Down u st = (st.transports u).online ≡ false

pub record KeepsDown {ℓ} {A : Type ℓ} (u : ℕ) (m : Cmd A) : Type ℓ where
  pub holds : (st : Store) → Down u st → Ends (Down u) (m st)

module _ {u : ℕ} where
  and_then-Down {ℓ κ} :
      {A : Type ℓ} {B : Type κ} (r : Run A) (k : A → Cmd B)
      → Ends (Down u) r
      → ((a : A) → KeepsDown u (k a))
      → Ends (Down u) (and_then r k)
  and_then-Down (ok a st) k h keep = (keep a).holds st h
  and_then-Down (exited st) k h keep = h
  and_then-Down fault k h keep = tt
  and_then-Down out_of_fuel k h keep = tt

  pub bind {ℓ κ} :
      {A : Type ℓ} {B : Type κ} {m : Cmd A} {k : A → Cmd B}
      → KeepsDown u m
      → ((a : A) → KeepsDown u (k a))
      → KeepsDown u (m >>= k)
  bind {m} {k} hm hk = record { holds = λ st h. and_then-Down (m st) k (hm.holds st h) hk }

  pub seq {ℓ} :
      {B : Type ℓ} {m : Cmd (Unit {0})} {k : Cmd B}
      → KeepsDown u m
      → KeepsDown u k
      → KeepsDown u (m >> k)
  seq hm hk = bind hm (λ _. hk)

  pub done {ℓ} : {A : Type ℓ} (a : A) → KeepsDown u (pure a)
  done a = record { holds = λ st h. h }

  pub branch {ℓ} :
      {A : Type ℓ} (b : Bool) {m n : Cmd A}
      → KeepsDown u m
      → KeepsDown u n
      → KeepsDown u (if b then m else n)
  branch true hm hn = hm
  branch false hm hn = hn

  weaken {ℓ} :
      {A : Type ℓ} (st : Store) (r : Run A)
      → Down u st
      → Ends (Has st.transports) r
      → Ends (Down u) r
  weaken st (ok a st') d h = rw h d
  weaken st (exited st') d h = rw h d
  weaken st fault d h = tt
  weaken st out_of_fuel d h = tt

  -- What leaves the transports alone keeps them down.
  pub quiet {ℓ} : {A : Type ℓ} {m : Cmd A} → Keeps m → KeepsDown u m
  quiet {m} k = record { holds = λ st d. weaken st (m st) d (k.holds st.transports st refl) }

  -- So does an assignment that does not raise `online`.
  pub assign :
      (t : ℕ) (f : Transport → Transport)
      → ((x : Transport) → x.online ≡ false → (f x).online ≡ false)
      → KeepsDown u (with_transport t f)
  assign t f h = record { holds = λ st d. ground (arith, h (st.transports t)) }
