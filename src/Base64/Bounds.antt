-- ===== src/Base64/Bounds.antt =====
-- `b64_pton` keeps to the size that it is given.
use adbd.Base.{
  Option, none, some, ℕ, zero, suc, ◌+◌, ◌*◌, ◌%◌, ◌≤◌, ◌<◌, ◌≡◌, refl, ap, ◌∙◌, Bool, true, false,
  not, [], ◌∷◌, arith, Bytes, leb, ◌==◌, if◌then◌else◌, length, drop, set,
}
use adbd.Base64.{
  Kind, kind, Phase, Work, byte_at, put_digit, Decoded, ended, second_pad, all_blank, closed_off,
  padded, scan, b64_pton, terminator, blank, padding, foreign, digit, first, second, third, fourth,
  refused, decoded,
}

length-set : (bs : Bytes) (i v : ℕ) → length (set bs i v) ≡ length bs
length-set [] i v = refl
length-set (b ∷ bs) zero v = refl
length-set (b ∷ bs) (suc i) v = ap suc (length-set bs i v)

drop-set : (n : ℕ) (bs : Bytes) (i v : ℕ) → i < n → drop n (set bs i v) ≡ drop n bs
drop-set zero bs i v h = absurd (omega arith)
drop-set (suc n) [] i v h = refl
drop-set (suc n) (b ∷ bs) zero v h = refl
drop-set (suc n) (b ∷ bs) (suc i) v h = drop-set n bs i v (omega arith)

-- `t` is `bs` but for bytes below `n`.
abbrev Beyond : ℕ → Bytes → Bytes → Type 0
Beyond n bs t = (drop n t ≡ drop n bs) × (length t ≡ length bs)

Beyond-set : (n : ℕ) (bs t : Bytes) (i v : ℕ) → i < n → Beyond n bs t → Beyond n bs (set t i v)
Beyond-set n bs t i v h (d, l) = (drop-set n t i v h ∙ d, length-set t i v ∙ l)

-- What the result says with a target `bs`, a size `n` and a source of `k` characters.
abbrev pub Within : ℕ → Bytes → ℕ → Decoded → Type 0
Within n bs k (refused t) = Beyond n bs t
Within n bs k (decoded m t) = Beyond n bs t × (m ≤ n) × (m * 4 ≤ k * 3)

-- The quarters of a byte that a phase has read ahead.
abbrev ahead : Phase → ℕ
ahead first = 0
ahead second = 3
ahead third = 2
ahead fourth = 1

-- The state before `k` more characters of a source of `l`.
abbrev Good : ℕ → Bytes → ℕ → Phase → ℕ → Bytes → Type 0
Good n bs k ph i t = Beyond n bs t × (i ≤ n) × (i * 4 + ahead ph ≤ k * 3)

abbrev Put : ℕ → Bytes → ℕ → Option Work → Type 0
Put n bs k none = Unit
Put n bs k (some w) = Good n bs k w.phase w.tarindex w.target

branch-Put :
    (c : Bool) (n : ℕ) (bs : Bytes) (k : ℕ) (w : Work)
    → (c ≡ false → Good n bs k w.phase w.tarindex w.target)
    → Put n bs k (if c then none else some w)
branch-Put true n bs k w h = tt
branch-Put false n bs k w h = h refl

put_digit-Good :
    (n : ℕ) (bs : Bytes) (k v : ℕ) (ph : Phase) (i : ℕ) (t : Bytes)
    → Good n bs k ph i t
    → Put n bs (suc k) (put_digit n v ph i t)
unfolding put_digit
put_digit-Good n bs k v first i t (b, p, q) =
    branch-Put (leb n i) n bs (suc k) _
      (λ e. (Beyond-set n bs t i (v * 4 % 256) (ground arith) b, p, omega arith))
put_digit-Good n bs k v second i t (b, p, q) = branch-Put (leb n (i + 1)) n bs (suc k) _ (λ e.
    let room : i + 1 < n = ground arith in
    (
      Beyond-set n bs _ (i + 1) _ room (Beyond-set n bs t i _ (omega arith) b),
      omega arith,
      omega arith,
    ))
put_digit-Good n bs k v third i t (b, p, q) = branch-Put (leb n (i + 1)) n bs (suc k) _ (λ e.
    let room : i + 1 < n = ground arith in
    (
      Beyond-set n bs _ (i + 1) _ room (Beyond-set n bs t i _ (omega arith) b),
      omega arith,
      omega arith,
    ))
put_digit-Good n bs k v fourth i t (b, p, q) =
    branch-Put (leb n i) n bs (suc k) _
      (λ e. let room : i < n = ground arith in (Beyond-set n bs t i _ room b, room, omega arith))

ended-Within :
    (n : ℕ) (bs : Bytes) (k : ℕ) (ph : Phase) (i : ℕ) (t : Bytes)
    → Good n bs k ph i t
    → Within n bs k (ended ph i t)
unfolding ended
ended-Within n bs k first i t (b, p, q) = (b, p, omega arith)
ended-Within n bs k second i t (b, p, q) = b
ended-Within n bs k third i t (b, p, q) = b
ended-Within n bs k fourth i t (b, p, q) = b

closed_off-Within :
    (n : ℕ) (bs : Bytes) (k : ℕ) (cs : Bytes) (i : ℕ) (t : Bytes)
    → Beyond n bs t
    → i ≤ n
    → i * 4 ≤ k * 3
    → Within n bs k (closed_off cs i t)
unfolding closed_off
closed_off-Within n bs k cs i t b p q = go (all_blank cs) (byte_at t i == 0)
  where
    go :
        (c d : Bool)
        → Within n bs k (if not c then refused t else if not d then refused t else decoded i t)
    go false d = b
    go true false = b
    go true true = (b, p, q)

padded-Within :
    (n : ℕ) (bs : Bytes) (k : ℕ) (cs : Bytes) (ph : Phase) (i : ℕ) (t : Bytes)
    → Good n bs k ph i t
    → Within n bs k (padded cs ph i t)
unfolding padded
padded-Within n bs k cs first i t (b, p, q) = b
padded-Within n bs k cs second i t (b, p, q) = b
padded-Within n bs k cs third i t (b, p, q) = go (second_pad cs)
  where
    go :
        (o : Option Bytes)
        → Within n bs k (elim o [ none ↦ refused t | some cs' ↦ closed_off cs' i t ])
    go none = b
    go (some cs') = closed_off-Within n bs k cs' i t b p (omega arith)
padded-Within n bs k cs fourth i t (b, p, q) = closed_off-Within n bs k cs i t b p (omega arith)

-- More characters read only widen the bound.
Within-mono :
    (n : ℕ) (bs : Bytes) (k l : ℕ) (r : Decoded) → k ≤ l → Within n bs k r → Within n bs l r
Within-mono n bs k l (refused t) h b = b
Within-mono n bs k l (decoded m t) h (b, p, q) = (b, p, omega arith)

scan-Within :
    (n : ℕ) (bs : Bytes) (k : ℕ) (cs : Bytes) (ph : Phase) (i : ℕ) (t : Bytes)
    → Good n bs k ph i t
    → Within n bs (k + length cs) (scan n cs ph i t)
unfolding scan
scan-Within n bs k [] ph i t g =
    Within-mono n bs k _ (ended ph i t) (omega arith) (ended-Within n bs k ph i t g)
scan-Within n bs k (c ∷ cs) ph i t (b, p, q) = go (kind c) (λ ph' i' t' g'.
    Within-mono n bs _ _ _ (omega arith) (scan-Within n bs (suc k) cs ph' i' t' g'))
  where
    put :
        (o : Option Work)
        → Put n bs (suc k) o
        → ((ph' : Phase) (i' : ℕ) (t' : Bytes)
            → Good n bs (suc k) ph' i' t'
            → Within n bs (k + suc (length cs)) (scan n cs ph' i' t'))
        → Within n bs
            (k + suc (length cs))
            (elim o [ none ↦ refused t | some w ↦ scan n cs w.phase w.tarindex w.target ])
    put none h ih = b
    put (some w) h ih = ih w.phase w.tarindex w.target h

    go :
        (kd : Kind)
        → ((ph' : Phase) (i' : ℕ) (t' : Bytes)
            → Good n bs (suc k) ph' i' t'
            → Within n bs (k + suc (length cs)) (scan n cs ph' i' t'))
        → Within n bs (k + suc (length cs)) (elim kd [
          | terminator ↦ ended ph i t
          | blank ↦ scan n cs ph i t
          | padding ↦ padded cs ph i t
          | foreign ↦ refused t
          | digit v ↦ elim (put_digit n v ph i t) [
            | none ↦ refused t
            | some w ↦ scan n cs w.phase w.tarindex w.target
          ]
        ])
    go terminator ih = Within-mono n bs k _ _ (omega arith) (ended-Within n bs k ph i t (b, p, q))
    go blank ih = ih ph i t (b, p, omega arith)
    go padding ih = Within-mono n bs k _ _ (omega arith) (padded-Within n bs k cs ph i t (b, p, q))
    go foreign ih = b
    go (digit v) ih = put (put_digit n v ph i t) (put_digit-Good n bs k v ph i t (b, p, q)) ih

-- For every source, target and size: `b64_pton` changes no byte of the target at or beyond the size
-- it is given, whether it fails or not, and keeps the target's length; when it succeeds, the count
-- that it returns is at most that size, and at most three quarters of the source's length.
pub b64_pton-Within :
    (src target : Bytes) (n : ℕ) → Within n target (length src) (b64_pton src target n)
unfolding b64_pton
b64_pton-Within src target n =
    Within-mono n target _ _ _ (omega arith)
      (scan-Within n target 0 src first 0 target ((refl, refl), omega arith, omega arith))
