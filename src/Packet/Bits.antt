-- ===== src/Packet/Bits.antt =====
-- The complement of a word, `c ^ 0xffffffff`: the law that the magic of a packet rests on.
use Prim.Native.Nat.{bit_xor, bit_xor-bitwise, digits, differ}
use native.Mathlib.Nat.{pow-suc, one-le-pow}
use adbd.Base.{ℕ, zero, suc, ◌-◌, ◌*◌, ◌/◌, ◌%◌, ◌^◌, ◌≤◌, ◌<◌, ◌≡◌, refl, arith, ◌∙◌}
use adbd.Packet.{u32_mod, u32_max}

differ_one : (x : ℕ) → x < 2 → differ x 1 ≡ 1 - x
differ_one zero h = refl
differ_one (suc zero) h = refl
differ_one (suc (suc x)) h = absurd (omega arith)

-- The mask of the low `k` bits.
abbrev ones : ℕ → ℕ
ones k = 2 ^ k - 1

digits-ones : (n k a : ℕ) → a ≤ n → a < 2 ^ k → digits (λ b. b) differ n a (ones k) ≡ ones k - a
digits-ones zero k zero p q = omega arith
digits-ones zero k (suc a) p q = absurd (omega arith)
digits-ones (suc n) k zero p q = omega arith
digits-ones (suc n) zero (suc a) p q = absurd (omega arith)
digits-ones (suc n) (suc j) (suc a) p q =
    let double : 2 ^ suc j ≡ 2 ^ j * 2 = pow-suc 2 j in
    let pos : 1 ≤ 2 ^ j = one-le-pow j 2 (omega arith) in
    let half : ones (suc j) / 2 ≡ ones j = omega arith in
    let odd : ones (suc j) % 2 ≡ 1 = omega arith in
    let ih = digits-ones n j (suc a / 2) (omega arith) (omega arith) in
    let low = differ_one (suc a % 2) (omega arith) in rw (half, odd, ih, low) (omega arith)

-- On a 32-bit word, `^ 0xffffffff` is the complement.
pub xor_ones : (c : ℕ) → c < u32_mod → bit_xor c u32_max ≡ u32_max - c
xor_ones c h = bit_xor-bitwise c u32_max ∙ digits-ones c 32 c (omega arith) h

pub xor_ones-lt : (c : ℕ) → c < u32_mod → bit_xor c u32_max < u32_mod
xor_ones-lt c h = omega (arith, xor_ones c h)
