-- ===== src/Base64/RoundTrip.antt =====
-- `b64_pton` undoes the encoding of RFC 4648, which the program has no function for.
use adbd.Base64.Scanning.{
  byte_at_in, scan-end, scan-group, scan-one, scan-one_pad, scan-two, scan-two_pads,
}
use adbd.Base.{◌≤◌, sym, subst, append_assoc, IsBytes, length-append}
use adbd.Base64.{b64_pton, decoded}
use adbd.Base.{
  ℕ, suc, ◌+◌, ◌*◌, ◌/◌, ◌%◌, ◌<◌, ◌≡◌, refl, ap, ◌∙◌, [], ◌∷◌, ◌++◌, arith, Bytes, length,
}
use adbd.Base64.{pad64, scan, first, third, fourth}
use adbd.Base64.Table.{char}

-- The encoding: three bytes as four digits; one or two at the end with padding.
abbrev pub encode : Bytes → Bytes
encode [] = []
encode (a ∷ []) = char (a / 4) ∷ (char (a % 4 * 16) ∷ (pad64 ∷ (pad64 ∷ [])))
encode (a ∷ (b ∷ [])) =
    char (a / 4) ∷ (char (a % 4 * 16 + b / 16) ∷ (char (b % 16 * 4) ∷ (pad64 ∷ [])))
encode (a ∷ (b ∷ (c ∷ bs))) =
    char (a / 4)
    ∷ (char (a % 4 * 16 + b / 16) ∷ (char (b % 16 * 4 + c / 64) ∷ (char (c % 64) ∷ encode bs)))

-- The scan of an encoding leaves the bytes behind `d`.
Decodes : ℕ → Bytes → ℕ → Bytes → Bytes → Type 0
Decodes n d i bs r =
    (r' : Bytes) × (scan n (encode bs) first i (d ++ r) ≡ decoded (i + length bs) (d ++ (bs ++ r')))

scan-encode :
    (n : ℕ) (d : Bytes) (i : ℕ) (bs r : Bytes)
    → i ≡ length d
    → IsBytes bs
    → i + length bs < n
    → length bs < length r
    → Decodes n d i bs r
unfolding Decodes
scan-encode n d i [] r at ok h l = (r, scan-end n i (d ++ r))
scan-encode n d i (a ∷ bs) [] at ok h l = absurd (omega arith)
scan-encode n d i (a ∷ bs) (x ∷ []) at ok h l = absurd (omega arith)
scan-encode n d i (a ∷ []) (x ∷ (y ∷ r)) at (p, ok) h l =
    let cut : a % 4 * 16 + 0 / 16 ≡ a % 4 * 16 = omega arith in
    let zero_left : a % 4 * 16 % 16 * 16 ≡ 0 = omega arith in
    let one = scan-one n d i at a 0 (pad64 ∷ (pad64 ∷ [])) x y r p (omega arith) (omega arith) in
    let one' =
      subst
        (λ v.
          scan n (char (a / 4) ∷ (char v ∷ (pad64 ∷ (pad64 ∷ [])))) first i (d ++ (x ∷ (y ∷ r)))
          ≡ scan n (pad64 ∷ (pad64 ∷ [])) third (suc i) (d ++ (a ∷ (v % 16 * 16 ∷ r))))
        cut one in
    (
      a % 4 * 16 % 16 * 16 ∷ r,
      one'
          ∙ scan-two_pads n (suc i) _ (byte_at_in d _ (suc i) 1 (omega arith) ∙ zero_left)
          ∙ ap (λ k. decoded k (d ++ (a ∷ (a % 4 * 16 % 16 * 16 ∷ r)))) (omega arith),
    )
scan-encode n d i (a ∷ (b ∷ bs)) (x ∷ (y ∷ [])) at ok h l = absurd (omega arith)
scan-encode n d i (a ∷ (b ∷ [])) (x ∷ (y ∷ (z ∷ r))) at (p, (q, ok)) h l =
    let cut : b % 16 * 4 + 0 / 64 ≡ b % 16 * 4 = omega arith in
    let zero_left : b % 16 * 4 % 4 * 64 ≡ 0 = omega arith in
    let two = scan-two n d i at a b 0 (pad64 ∷ []) x y z r p q (omega arith) (omega arith) in
    let two' =
      subst
        (λ v.
          scan n (char (a / 4) ∷ (char (a % 4 * 16 + b / 16) ∷ (char v ∷ (pad64 ∷ [])))) first i
            (d ++ (x ∷ (y ∷ (z ∷ r))))
          ≡ scan n (pad64 ∷ []) fourth (suc (suc i)) (d ++ (a ∷ (b ∷ (v % 4 * 64 ∷ r)))))
        cut two in
    (
      b % 16 * 4 % 4 * 64 ∷ r,
      two'
          ∙ scan-one_pad n (suc (suc i)) _
              (byte_at_in d _ (suc (suc i)) 2 (omega arith) ∙ zero_left)
          ∙ ap (λ k. decoded k (d ++ (a ∷ (b ∷ (b % 16 * 4 % 4 * 64 ∷ r))))) (omega arith),
    )
scan-encode n d i (a ∷ (b ∷ (c ∷ bs))) (x ∷ (y ∷ (z ∷ r))) at (p, (q, (s, ok))) h l =
    let front = append_assoc d (a ∷ (b ∷ (c ∷ []))) r in
    let longer : length (d ++ (a ∷ (b ∷ (c ∷ [])))) ≡ length d + 3 =
      length-append d (a ∷ (b ∷ (c ∷ []))) in
    let ih =
      scan-encode n (d ++ (a ∷ (b ∷ (c ∷ [])))) (suc (suc (suc i))) bs r (omega arith) ok
        (omega arith) (omega arith) in
    (
      ih.0,
      scan-group n d i at a b c (encode bs) x y z r p q s (omega arith)
          ∙ ap (scan n (encode bs) first (suc (suc (suc i)))) (sym front)
          ∙ ih.1
          ∙ ap (decoded (suc (suc (suc i)) + length bs))
              (append_assoc d (a ∷ (b ∷ (c ∷ []))) (bs ++ ih.0))
          ∙ ap (λ k. decoded k (d ++ (a ∷ (b ∷ (c ∷ (bs ++ ih.0)))))) (omega arith),
    )

-- For every list of bytes and every target with a size beyond the list's length: `b64_pton` of the
-- base64 encoding succeeds, returns the number of bytes, and leaves them at the front of the target.
pub b64_pton-encode :
    (bs target : Bytes) (n : ℕ)
    → IsBytes bs
    → length bs < n
    → n ≤ length target
    → (rest : Bytes) × (b64_pton (encode bs) target n ≡ decoded (length bs) (bs ++ rest))
unfolding b64_pton Decodes
b64_pton-encode bs target n ok h l =
    let r = scan-encode n [] 0 bs target refl ok (omega arith) (omega arith) in
    (r.0, r.1 ∙ ap (λ k. decoded k (bs ++ r.0)) (omega arith))
