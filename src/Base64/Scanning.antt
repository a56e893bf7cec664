-- ===== src/Base64/Scanning.antt =====
-- What `scan` of src/adbd/base64.c does at each digit and at the end of an encoding.
use adbd.Base64.{ended, second_pad, all_blank, closed_off, padded, decoded}
use adbd.Base.{
  some, ℕ, zero, suc, ◌+◌, ◌*◌, ◌/◌, ◌%◌, ◌<◌, ◌≡◌, refl, ap, ◌∙◌, false, [], ◌∷◌, ◌++◌, zero-add,
  arith, Bytes, leb, length, set,
}
use adbd.Base64.{
  digit, kind, Work, Phase, pad64, byte_at, put_digit, scan, first, second, third, fourth,
}
use Prim.Native.Nat.{bit_and, bit_or}
use adbd.Base64.Table.{char, kind-char, low_four, low_two, join_two, join_four, join_six}

pub set_at : (d r : Bytes) (i j v : ℕ) → i ≡ length d + j → set (d ++ r) i v ≡ d ++ set r j v
set_at [] r i j v h = ap (λ k. set r k v) (h ∙ zero-add j)
set_at (x ∷ d) r zero j v h = absurd (omega arith)
set_at (x ∷ d) r (suc i) j v h = ap (◌∷◌ x) (set_at d r i j v (omega arith))

pub byte_at_in : (d r : Bytes) (i j : ℕ) → i ≡ length d + j → byte_at (d ++ r) i ≡ byte_at r j
byte_at_in [] r i j h = ap (λ k. byte_at r k) (h ∙ zero-add j)
byte_at_in (x ∷ d) r zero j h = absurd (omega arith)
byte_at_in (x ∷ d) r (suc i) j h = byte_at_in d r i j (omega arith)

pub has_room : (n i : ℕ) → i < n → leb n i ≡ false
has_room n i h = ground arith

pub scan-digit :
    (n c v : ℕ) (cs : Bytes) (ph : Phase) (i : ℕ) (bs : Bytes) (w : Work)
    → kind c ≡ digit v
    → put_digit n v ph i bs ≡ some w
    → scan n (c ∷ cs) ph i bs ≡ scan n cs w.phase w.tarindex w.target
unfolding scan
scan-digit n c v cs ph i bs w e e' = rw (scan, e, e') refl

-- The four cases of the switch, at a target `d ++ r` whose index is the length of `d`.
module _ (n v : ℕ) (cs d : Bytes) (i : ℕ) (at : i ≡ length d) (digit_v : v < 64) where
  pub scan-first :
      (x : ℕ) (r : Bytes)
      → i < n
      → scan n (char v ∷ cs) first i (d ++ (x ∷ r)) ≡ scan n cs second i (d ++ (v * 4 ∷ r))
  unfolding put_digit
  scan-first x r h =
      let small : v * 4 % 256 ≡ v * 4 = omega arith in
      scan-digit n (char v) v cs _ _ _ _ (kind-char v digit_v)
        (rw (has_room n i h, set_at d (x ∷ r) i 0 (v * 4 % 256) (omega arith), small) refl)

  pub scan-second :
      (x y : ℕ) (r : Bytes)
      → i + 1 < n
      → scan n (char v ∷ cs) second i (d ++ (x ∷ (y ∷ r)))
        ≡ scan n cs third (suc i) (d ++ (bit_or x (v / 16) % 256 ∷ (v % 16 * 16 ∷ r)))
  unfolding put_digit
  scan-second x y r h =
      let small : v % 16 * 16 % 256 ≡ v % 16 * 16 = omega arith in
      let low : bit_and v 15 * 16 % 256 ≡ v % 16 * 16 = rw (low_four v digit_v) small in
      scan-digit n (char v) v cs _ _ _ _ (kind-char v digit_v) (
        rw
          (
            has_room n (i + 1) h,
            low,
            byte_at_in d (x ∷ (y ∷ r)) i 0 (omega arith),
            set_at d (x ∷ (y ∷ r)) i 0 (bit_or x (v / 16) % 256) (omega arith),
            set_at d (bit_or x (v / 16) % 256 ∷ (y ∷ r)) (i + 1) 1 (v % 16 * 16) (omega arith),
          )
          refl)

  pub scan-third :
      (a x y : ℕ) (r : Bytes)
      → suc i + 1 < n
      → scan n (char v ∷ cs) third (suc i) (d ++ (a ∷ (x ∷ (y ∷ r))))
        ≡ scan n cs fourth (suc (suc i)) (d ++ (a ∷ (bit_or x (v / 4) % 256 ∷ (v % 4 * 64 ∷ r))))
  unfolding put_digit
  scan-third a x y r h =
      let small : v % 4 * 64 % 256 ≡ v % 4 * 64 = omega arith in
      let low : bit_and v 3 * 64 % 256 ≡ v % 4 * 64 = rw (low_two v digit_v) small in
      scan-digit n (char v) v cs _ _ _ _ (kind-char v digit_v) (
        rw
          (
            has_room n (suc i + 1) h,
            low,
            byte_at_in d (a ∷ (x ∷ (y ∷ r))) (suc i) 1 (omega arith),
            set_at d (a ∷ (x ∷ (y ∷ r))) (suc i) 1 (bit_or x (v / 4) % 256) (omega arith),
            set_at d (a ∷ (bit_or x (v / 4) % 256 ∷ (y ∷ r))) (suc i + 1) 2 (v % 4 * 64)
                (omega arith),
          )
          refl)

  pub scan-fourth :
      (a b x : ℕ) (r : Bytes)
      → suc (suc i) < n
      → scan n (char v ∷ cs) fourth (suc (suc i)) (d ++ (a ∷ (b ∷ (x ∷ r))))
        ≡ scan n cs first (suc (suc (suc i))) (d ++ (a ∷ (b ∷ (bit_or x v % 256 ∷ r))))
  unfolding put_digit
  scan-fourth a b x r h = scan-digit n (char v) v cs _ _ _ _ (kind-char v digit_v) (
      rw
        (
          has_room n (suc (suc i)) h,
          byte_at_in d (a ∷ (b ∷ (x ∷ r))) (suc (suc i)) 2 (omega arith),
          set_at d (a ∷ (b ∷ (x ∷ r))) (suc (suc i)) 2 (bit_or x v % 256) (omega arith),
        )
        refl)

-- The end of an encoding that has two padding characters, and of one that has one.
pub scan-two_pads :
    (n i : ℕ) (t : Bytes) → byte_at t i ≡ 0 → scan n (pad64 ∷ (pad64 ∷ [])) third i t ≡ decoded i t
unfolding scan padded second_pad closed_off all_blank kind
scan-two_pads n i t h = rw h refl

pub scan-one_pad :
    (n i : ℕ) (t : Bytes) → byte_at t i ≡ 0 → scan n (pad64 ∷ []) fourth i t ≡ decoded i t
unfolding scan padded closed_off all_blank kind
scan-one_pad n i t h = rw h refl

-- The three bytes of a group out of its digits.
pub byte_one :
    (a b : ℕ) → a < 256 → b < 256 → bit_or (a / 4 * 4) ((a % 4 * 16 + b / 16) / 16) % 256 ≡ a
byte_one a b p q =
    let e : (a % 4 * 16 + b / 16) / 16 ≡ a % 4 = omega arith in
    let m : a % 256 ≡ a = omega arith in rw (e, join_two a p) m

pub byte_two :
    (a b c : ℕ)
    → b < 256
    → c < 256
    → bit_or ((a % 4 * 16 + b / 16) % 16 * 16) ((b % 16 * 4 + c / 64) / 4) % 256 ≡ b
byte_two a b c p q =
    let e : (a % 4 * 16 + b / 16) % 16 ≡ b / 16 = omega arith in
    let f : (b % 16 * 4 + c / 64) / 4 ≡ b % 16 = omega arith in
    let m : b % 256 ≡ b = omega arith in rw (e, f, join_four b p) m

pub byte_three : (b c : ℕ) → c < 256 → bit_or ((b % 16 * 4 + c / 64) % 4 * 64) (c % 64) % 256 ≡ c
byte_three b c p =
    let e : (b % 16 * 4 + c / 64) % 4 ≡ c / 64 = omega arith in
    let m : c % 256 ≡ c = omega arith in rw (e, join_six c p) m

module _ (n : ℕ) (d : Bytes) (i : ℕ) (at : i ≡ length d) where
  -- A byte with its neighbour's high bits, and two.
  pub scan-one :
      (a b : ℕ) (cs : Bytes) (x y : ℕ) (r : Bytes)
      → a < 256
      → b < 256
      → i + 1 < n
      → scan n (char (a / 4) ∷ (char (a % 4 * 16 + b / 16) ∷ cs)) first i (d ++ (x ∷ (y ∷ r)))
        ≡ scan n cs third (suc i) (d ++ (a ∷ ((a % 4 * 16 + b / 16) % 16 * 16 ∷ r)))
  scan-one a b cs x y r p q h =
      scan-first n (a / 4) _ d i at (omega arith) x (y ∷ r) (omega arith)
      ∙ scan-second n (a % 4 * 16 + b / 16) cs d i at (omega arith) (a / 4 * 4) y r h
      ∙ ap (λ k. scan n cs third (suc i) (d ++ (k ∷ ((a % 4 * 16 + b / 16) % 16 * 16 ∷ r))))
          (byte_one a b p q)

  pub scan-two :
      (a b c : ℕ) (cs : Bytes) (x y z : ℕ) (r : Bytes)
      → a < 256
      → b < 256
      → c < 256
      → suc i + 1 < n
      → scan n
          (char (a / 4) ∷ (char (a % 4 * 16 + b / 16) ∷ (char (b % 16 * 4 + c / 64) ∷ cs)))
          first
          i
          (d ++ (x ∷ (y ∷ (z ∷ r))))
        ≡ scan n cs fourth (suc (suc i)) (d ++ (a ∷ (b ∷ ((b % 16 * 4 + c / 64) % 4 * 64 ∷ r))))
  scan-two a b c cs x y z r p q s h =
      scan-one a b _ x y (z ∷ r) p q (omega arith)
      ∙ scan-third n (b % 16 * 4 + c / 64) cs d i at (omega arith) a
          ((a % 4 * 16 + b / 16) % 16 * 16) z r h
      ∙ ap
          (λ k.
            scan n cs fourth (suc (suc i)) (d ++ (a ∷ (k ∷ ((b % 16 * 4 + c / 64) % 4 * 64 ∷ r)))))
          (byte_two a b c q s)

  pub scan-group :
      (a b c : ℕ) (cs : Bytes) (x y z : ℕ) (r : Bytes)
      → a < 256
      → b < 256
      → c < 256
      → suc i + 1 < n
      → scan n
          (char (a / 4)
            ∷ (char (a % 4 * 16 + b / 16) ∷ (char (b % 16 * 4 + c / 64) ∷ (char (c % 64) ∷ cs))))
          first
          i
          (d ++ (x ∷ (y ∷ (z ∷ r))))
        ≡ scan n cs first (suc (suc (suc i))) (d ++ (a ∷ (b ∷ (c ∷ r))))
  scan-group a b c cs x y z r p q s h =
      scan-two a b c _ x y z r p q s h
      ∙ scan-fourth n (c % 64) cs d i at (omega arith) a b ((b % 16 * 4 + c / 64) % 4 * 64) r
          (omega arith)
      ∙ ap (λ k. scan n cs first (suc (suc (suc i))) (d ++ (a ∷ (b ∷ (k ∷ r))))) (byte_three b c s)

pub scan-end : (n i : ℕ) (t : Bytes) → scan n [] first i t ≡ decoded (i + 0) t
unfolding scan ended
scan-end n i t = ap (λ k. decoded k t) (omega arith)
