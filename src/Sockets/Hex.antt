-- ===== src/Sockets/Hex.antt =====
-- `unhex` of src/adbd/sockets.c, and the four digits that the daemon's own messages start with.
use adbd.Base.{subst₂, ◌∙◌, ◌++◌}
use adbd.Base.{
  Option, none, some, ℕ, zero, suc, ◌+◌, ◌-◌, ◌*◌, ◌/◌, ◌%◌, ◌^◌, ◌<◌, ◌≡◌, refl, ap, subst, Bool,
  true, false, ◌&&◌, [], ◌∷◌, arith, Bytes, leb, ◌==◌, if◌then◌else◌, ==_iff, all_below,
  all_below-lem,
}
use Prim.Native.Nat.{bit_or}
use adbd.Jdwp.{hex4, hex_digit}

-- The value of a digit; `none` is the default of the switch.
unfoldable pub digit_value : ℕ → Option ℕ
digit_value c =
    if leb 48 c && leb c 57
    then some (c - 48)
    else if leb 97 c && leb c 102
    then some (c - 97 + 10)
    else if leb 65 c && leb c 70
    then some (c - 65 + 10)
    else none

-- The loop over `len` characters; 0xffffffff is the failure. A string that ends before has no digit
-- there.
unfoldable pub unhex_loop : ℕ → ℕ → Bytes → ℕ
unfolding digit_value
unhex_loop n zero s = n
unhex_loop n (suc len) [] = 0xffff_ffff
unhex_loop n (suc len) (c ∷ s) = elim (digit_value c) [
  | none ↦ 0xffff_ffff
  | some d ↦ unhex_loop (bit_or (n * 16 % 2 ^ 32) d) len s
]

unfoldable pub unhex : Bytes → ℕ → ℕ
unfolding unhex_loop
unhex s len = unhex_loop 0 len s

is_value : ℕ → Option ℕ → Bool
is_value d none = false
is_value d (some e) = e == d

is_value-lem : (d : ℕ) (o : Option ℕ) → is_value d o ≡ true → o ≡ some d
unfolding is_value
is_value-lem d none h = absurd (ground arith)
is_value-lem d (some e) h = ap some ((==_iff e d).0 h)

digit_value-hex_digit : (d : ℕ) → d < 16 → digit_value (hex_digit d) ≡ some d
unfolding digit_value is_value
digit_value-hex_digit d h =
    is_value-lem d (digit_value (hex_digit d))
      (all_below-lem 16 (λ d. is_value d (digit_value (hex_digit d))) refl d h)

-- The union with a shifted number is the sum.
shift-or : (p : ℕ) → p < 65536 → bit_or (p / 16 * 16 % 2 ^ 32) (p % 16) ≡ p
shift-or p h =
    let e =
      all_below-lem 256
        (λ a.
          all_below 256
            (λ b. bit_or ((a * 256 + b) / 16 * 16 % 2 ^ 32) ((a * 256 + b) % 16) == a * 256 + b))
        refl (p / 256) (omega arith) in
    let e' =
      all_below-lem 256
        (λ b.
          bit_or ((p / 256 * 256 + b) / 16 * 16 % 2 ^ 32) ((p / 256 * 256 + b) % 16)
          == p / 256 * 256 + b)
        e (p % 256) (omega arith) in
    let join : p / 256 * 256 + p % 256 ≡ p = omega arith in
    subst (λ k. bit_or (k / 16 * 16 % 2 ^ 32) (k % 16) ≡ k) join
      ((==_iff
          (bit_or ((p / 256 * 256 + p % 256) / 16 * 16 % 2 ^ 32) ((p / 256 * 256 + p % 256) % 16))
          (p / 256 * 256 + p % 256)).0
        e')

unhex_loop-hex_digit :
    (m d len : ℕ) (s : Bytes) (p : ℕ)
    → d < 16
    → p ≡ m * 16 + d
    → p < 65536
    → unhex_loop m (suc len) (hex_digit d ∷ s) ≡ unhex_loop p len s
unfolding unhex_loop
unhex_loop-hex_digit m d len s p h e k =
    let high : p / 16 ≡ m = omega arith in
    let low : p % 16 ≡ d = omega arith in
    let joined = subst₂ (λ x y. bit_or (x * 16 % 2 ^ 32) y ≡ p) high low (shift-or p k) in
    rw (unhex_loop, digit_value-hex_digit d h, joined) refl

unhex_loop-end : (n : ℕ) (s : Bytes) → unhex_loop n 0 s ≡ n
unfolding unhex_loop
unhex_loop-end n s = refl

-- Every length below 65536 that is printed as four hexadecimal digits is read back by unhex, whatever
-- stands behind the digits.
pub unhex-hex4 : (n : ℕ) (rest : Bytes) → n < 65536 → unhex (hex4 n ++ rest) 4 ≡ n
unfolding unhex hex4
unhex-hex4 n rest h =
    let one = hex_digit (n % 16) ∷ rest in
    let two = hex_digit (n / 16 % 16) ∷ one in
    let three = hex_digit (n / 256 % 16) ∷ two in
    unhex_loop-hex_digit 0 (n / 4096 % 16) 3 three (n / 4096) (omega arith) (omega arith)
      (omega arith)
    ∙ unhex_loop-hex_digit (n / 4096) (n / 256 % 16) 2 two (n / 256) (omega arith) (omega arith)
        (omega arith)
    ∙ unhex_loop-hex_digit (n / 256) (n / 16 % 16) 1 one (n / 16) (omega arith) (omega arith)
        (omega arith)
    ∙ unhex_loop-hex_digit (n / 16) (n % 16) 0 rest n (omega arith) (omega arith) h
    ∙ unhex_loop-end n rest
