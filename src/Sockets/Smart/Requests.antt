-- ===== src/Sockets/Smart/Requests.antt =====
-- A request to the smart socket of src/adbd/sockets.c is read the same however it is cut into
-- packets.
use adbd.Base.{◌⊎◌, append-nil, append_assoc, length-append}
use adbd.Packet.{max_payload}
use adbd.Base.{
  Option, none, some, ℕ, zero, suc, ◌+◌, ◌≤◌, ◌<◌, ◌≡◌, refl, sym, ap, ◌∙◌, inl, inr, false, List,
  [], ◌∷◌, ◌++◌, arith, Bytes, ltb, lt→ltb, Bool-cases, length, take, drop, take-append-drop,
  take_all,
}
use adbd.Sockets.Smart.{
  Reach, Smart, smart_connect, smart_request, smart_socket_enqueue, reaches, keeps, fails, connects,
}
use adbd.Sockets.Hex.{unhex, unhex-hex4}
use adbd.Transport.{c_string}
use adbd.Jdwp.{hex4}

-- The packets in turn, until one does not return 0.
pub smart_run : Reach → Option Bytes → List Bytes → Smart
unfolding smart_socket_enqueue
smart_run r none [] = keeps []
smart_run r (some d) [] = keeps d
smart_run r first (p ∷ ps) = elim (smart_socket_enqueue r first p) [
  | keeps d ↦ smart_run r (some d) ps
  | fails m ↦ fails m
  | connects t ↦ connects t
]

-- The bytes of the packets.
abbrev pub all_bytes : List Bytes → Bytes
all_bytes [] = []
all_bytes (p ∷ ps) = p ++ all_bytes ps

-- A request on the wire.
abbrev pub request : Bytes → Bytes
request text = hex4 (length text) ++ text

take_front : (n : ℕ) (xs ys : Bytes) → n ≤ length xs → take n (xs ++ ys) ≡ take n xs
take_front zero xs ys h = refl
take_front (suc n) [] ys h = absurd (omega arith)
take_front (suc n) (x ∷ xs) ys h = ap (◌∷◌ x) (take_front n xs ys (omega arith))

module _ (text : Bytes) (some_text : 0 < length text) (short : length text ≤ 1024)
    (no_zero : c_string text ≡ text) where
  length-request : length (request text) ≡ length text + 4
  length-request = unfold hex4 in omega arith

  -- The length is there once four bytes are.
  unhex-front : (d rest : Bytes) → d ++ rest ≡ request text → 4 ≤ length d → unhex d 4 ≡ length text
  unhex-front d rest e h =
      let four : take 4 d ≡ hex4 (length text) =
        sym (take_front 4 d rest h) ∙ ap (take 4) e ∙ (unfold hex4 in refl) in
      let whole : hex4 (length text) ++ drop 4 d ≡ d =
        ap (λ u. u ++ drop 4 d) (sym four) ∙ take-append-drop 4 d in
      ap (λ u. unhex u 4) (sym whole) ∙ unhex-hex4 (length text) (drop 4 d) (omega arith)

  -- Part of a request is kept.
  part_kept :
      (r : Reach) (d rest : Bytes)
      → d ++ rest ≡ request text
      → length d < length text + 4
      → smart_request r d ≡ keeps d
  unfolding smart_request
  part_kept r d rest e h = elim (Bool-cases (ltb (length d) 4)) [
    | inl t ↦ rw t refl
    | inr t ↦
        let n : unhex d 4 ≡ length text = unhex-front d rest e (ground arith) in
        rw (t, n) (rw (low, high, lt→ltb (length d) (length text + 4) h) refl)
  ]
    where
      low : ltb (length text) 1 ≡ false
      low = ground arith

      high : ltb 1024 (length text) ≡ false
      high = ground arith

  -- The whole of it is connected to.
  whole_connected : smart_request (reaches false) (request text) ≡ connects text
  unfolding smart_request smart_connect
  whole_connected =
      let n : unhex (request text) 4 ≡ length text = unhex-hex4 (length text) text (omega arith) in
      rw (n, length-request) (rw (low, high, here, there) (rw (back, no_zero) refl))
    where
      low : ltb (length text) 1 ≡ false
      low = ground arith

      high : ltb 1024 (length text) ≡ false
      high = ground arith

      here : ltb (length text + 4) 4 ≡ false
      here = ground arith

      there : ltb (length text + 4) (length text + 4) ≡ false
      there = ground arith

      back : take (length text) (drop 4 (request text)) ≡ text
      back = unfold hex4 in take_all (length text) text (omega arith)

  -- A longer start of the request: all of it, or less.
  next_part :
      (d rest : Bytes)
      → d ++ rest ≡ request text
      → (length d < length text + 4) ⊎ (d ≡ request text)
  next_part d [] e = inr (sym (append-nil d) ∙ e)
  next_part d (b ∷ rest) e =
      inl (omega (arith, length-append d (b ∷ rest), ap length e, length-request))

  smart_step :
      (ps : List Bytes) (d : Bytes)
      → d ++ all_bytes ps ≡ request text
      → (length d < length text + 4 → smart_run (reaches false) (some d) ps ≡ connects text)
      → elim (smart_request (reaches false) d) as (λ _. Smart) [
        | keeps d' ↦ smart_run (reaches false) (some d') ps
        | fails m ↦ fails m
        | connects t ↦ connects t
      ]
        ≡ connects text
  smart_step ps d e ih = elim (next_part d (all_bytes ps) e) [
    | inl less ↦ rw (part_kept (reaches false) d (all_bytes ps) e less) (ih less)
    | inr all ↦ rw (all, whole_connected) refl
  ]

  smart_run-rest :
      (ps : List Bytes) (d : Bytes)
      → d ++ all_bytes ps ≡ request text
      → length d < length text + 4
      → smart_run (reaches false) (some d) ps ≡ connects text
  unfolding smart_run smart_socket_enqueue
  smart_run-rest [] d e h =
      absurd (omega (arith, ap length (sym (append-nil d) ∙ e), length-request))
  smart_run-rest (p ∷ ps) d e h =
      let fits : ltb max_payload (length d + length p) ≡ false = roomy (
        omega (
          arith,
          length-append d (p ++ all_bytes ps),
          length-append p (all_bytes ps),
          ap length e,
          length-request,
        )) in
      rw (fits, smart_run, smart_socket_enqueue)
        (smart_step ps (d ++ p) (append_assoc d p (all_bytes ps) ∙ e)
          (λ less. smart_run-rest ps (d ++ p) (append_assoc d p (all_bytes ps) ∙ e) less))
    where
      roomy : length d + length p ≤ 4096 → ltb max_payload (length d + length p) ≡ false
      roomy k = ground arith

  -- A request of 1 to 1024 bytes with no zero byte, from a client for which a transport is there and
  -- not offline: however it is cut into packets, empty ones included, the smart socket keeps what it
  -- has until the last byte is there and then connects to the request's text.
  pub smart_run-connects :
      (ps : List Bytes)
      → all_bytes ps ≡ request text
      → smart_run (reaches false) none ps ≡ connects text
  unfolding smart_run smart_socket_enqueue
  smart_run-connects [] e = absurd (omega (arith, ap length e, length-request))
  smart_run-connects (p ∷ ps) e = smart_step ps p e (λ less. smart_run-rest ps p e less)
