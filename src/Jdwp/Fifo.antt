-- ===== src/Jdwp/Fifo.antt =====
-- The descriptors of a JDWP process (src/adbd/jdwp_service.c) are a queue of at most four.
use adbd.Base.{
  ℕ, zero, suc, ◌-◌, ◌≤◌, ◌<◌, ◌≡◌, refl, sym, ap, ◌∙◌, true, false, not, List, [], ◌∷◌, ◌++◌,
  append_assoc, arith, ◌==◌, if◌then◌else◌, length, take, set, get_or,
}
use adbd.Jdwp.Process.{Process, Log, After, jdwp_process_free, kept, freed}
use adbd.Jdwp.Passing.{shift_fds, take_one, after_send}

-- What waits, oldest first.
abbrev pub waiting : Process → List ℕ
waiting p = take p.out_count p.out_fds

-- FDE_WRITE is asked for exactly while something waits, and no buffer is overrun.
pub record IsValid (p : Process) : Type 0 where
  pub slots : length p.out_fds ≡ 4
  pub in_slots : p.out_count ≤ 4
  pub watched : p.writable ≡ not (p.out_count == 0)
  pub in_buffer : length p.in_buff ≤ 4

four_slots : (fds : List ℕ) → length fds ≡ 4 → (a b c d : ℕ) × (fds ≡ a ∷ b ∷ c ∷ d ∷ [])
four_slots (a ∷ (b ∷ (c ∷ (d ∷ [])))) h = (a, b, c, d, refl)
four_slots [] h = absurd (omega arith)
four_slots (a ∷ []) h = absurd (omega arith)
four_slots (a ∷ (b ∷ [])) h = absurd (omega arith)
four_slots (a ∷ (b ∷ (c ∷ []))) h = absurd (omega arith)
four_slots (a ∷ (b ∷ (c ∷ (d ∷ (e ∷ fds))))) h = absurd (omega arith)

-- The first that waits, once the others have moved up.
take-shift_fds :
    (n : ℕ) (fds : List ℕ)
    → length fds ≡ 4
    → n < 4
    → (get_or fds 0 0 ∷ take n (shift_fds n 1 fds) ≡ take (suc n) fds)
      × (length (shift_fds n 1 fds) ≡ 4)
unfolding shift_fds
take-shift_fds n fds h l = let (a, b, c, d, e) = four_slots fds h in rw e (go a b c d n l)
  where
    go :
        (a b c d n : ℕ)
        → n < 4
        → (a ∷ take n (shift_fds n 1 (a ∷ b ∷ c ∷ d ∷ [])) ≡ take (suc n) (a ∷ b ∷ c ∷ d ∷ []))
          × (length (shift_fds n 1 (a ∷ b ∷ c ∷ d ∷ [])) ≡ 4)
    go a b c d zero l = (refl, refl)
    go a b c d (suc zero) l = (refl, refl)
    go a b c d (suc (suc zero)) l = (refl, refl)
    go a b c d (suc (suc (suc zero))) l = (refl, refl)
    go a b c d (suc (suc (suc (suc n)))) l = absurd (omega arith)

pub take-set :
    (n x : ℕ) (fds : List ℕ) → n < length fds → take (suc n) (set fds n x) ≡ take n fds ++ (x ∷ [])
take-set zero x [] h = absurd (omega arith)
take-set zero x (y ∷ fds) h = refl
take-set (suc n) x [] h = absurd (omega arith)
take-set (suc n) x (y ∷ fds) h = ap (◌∷◌ y) (take-set n x fds (omega arith))

pub length-set : (n x : ℕ) (fds : List ℕ) → length (set fds n x) ≡ length fds
length-set n x [] = refl
length-set zero x (y ∷ fds) = refl
length-set (suc n) x (y ∷ fds) = ap suc (length-set n x fds)

-- Everything that was ever accepted, `q`: it has been passed on or waits, in order; each descriptor
-- that was passed on is closed, and a process that is freed closes its socket and those that wait.
abbrev pub Delivers : ℕ → List ℕ → After → Type 0
Delivers s q (kept u p l) =
    IsValid p × (p.socket ≡ s) × (l.passed ++ waiting p ≡ q) × (l.closed ≡ l.passed)
Delivers s q (freed l) =
    (rest : List ℕ) × (l.passed ++ rest ≡ q) × (l.closed ≡ l.passed ++ (s ∷ rest))

pub free-Delivers :
    (s : ℕ) (q : List ℕ) (p : Process) (l : Log)
    → Delivers s q (kept false p l)
    → Delivers s q (jdwp_process_free p l)
unfolding jdwp_process_free
free-Delivers s q p l (v, e, has, c) = (
  waiting p,
  has,
  ap (λ u. u ++ (p.socket ∷ waiting p)) c ∙ ap (λ k. l.passed ++ (k ∷ waiting p)) e,
)

pub take_one-Delivers :
    (s : ℕ) (q : List ℕ) (p : Process) (l : Log) (n : ℕ)
    → p.out_count ≡ suc n
    → Delivers s q (kept false p l)
    → Delivers s q (after_send p l (get_or p.out_fds 0 0) true)
unfolding after_send take_one
take_one-Delivers s q p l n e (v, same, has, c) =
    let (front, four) = take-shift_fds n p.out_fds v.slots (omega (arith, v.in_slots)) in
    let less : p.out_count - 1 ≡ n = omega arith in
    let x : ℕ = get_or p.out_fds 0 0 in
    let moved : (l.passed ++ (x ∷ [])) ++ take n (shift_fds n 1 p.out_fds) ≡ l.passed ++ waiting p =
      append_assoc l.passed (x ∷ []) (take n (shift_fds n 1 p.out_fds))
      ∙ ap (λ u. l.passed ++ u) (front ∙ ap (λ k. take k p.out_fds) (sym e)) in
    (
      record {
        slots = rw less four;
        in_slots = omega (arith, v.in_slots);
        watched = still v.watched;
        in_buffer = v.in_buffer;
      },
      same,
      rw less moved ∙ has,
      ap (λ u. u ++ (x ∷ [])) c,
    )
  where
    still :
        p.writable ≡ not (p.out_count == 0)
        → (if p.out_count - 1 == 0 then false else p.writable) ≡ not (p.out_count - 1 == 0)
    still w = ground arith
