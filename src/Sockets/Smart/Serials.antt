-- ===== src/Sockets/Smart/Serials.antt =====
-- Where `skip_host_serial` of src/adbd/sockets.c ends a serial number.
use adbd.Base.{some, ℕ, ◌≡◌, refl, ap, ◌∙◌, true, false, [], ◌∷◌, ◌++◌, Bytes, codes, All, ◌==◌}
use adbd.Sockets.Smart.{is_digit, skip_digits, strchr, serial_end, behind_colon, skip_host_serial}
use adbd.Transport.{starts_with}

-- No colon stands in it.
abbrev pub NoColon : Bytes → Type 0
NoColon = All (λ b. (b == b':') ≡ false)

abbrev pub Digits : Bytes → Type 0
Digits = All (λ b. is_digit b ≡ true)

strchr-NoColon :
    (s rest : Bytes) → NoColon s → strchr b':' (s ++ (b':' ∷ rest)) ≡ some (b':' ∷ rest)
unfolding strchr
strchr-NoColon [] rest h = refl
strchr-NoColon (b ∷ s) rest (h, hs) = rw (h) (strchr-NoColon s rest hs)

skip_digits-Digits : (s rest : Bytes) → Digits s → skip_digits (s ++ (b':' ∷ rest)) ≡ b':' ∷ rest
unfolding skip_digits
skip_digits-Digits [] rest h = refl
skip_digits-Digits (b ∷ s) rest (h, hs) = rw (h) (skip_digits-Digits s rest hs)

serial_end-port :
    (c : ℕ) (port rest : Bytes)
    → Digits (c ∷ port)
    → serial_end (c ∷ (port ++ (b':' ∷ rest))) ≡ b':' ∷ rest
unfolding serial_end
serial_end-port c port rest h = rw (serial_end, skip_digits-Digits (c ∷ port) rest h, h.0) refl

-- The string starts with none of the four words that name a transport in another way.
abbrev pub IsSerial : Bytes → Type 0
IsSerial s =
    (starts_with (codes "usb:") s ≡ false)
    × (starts_with (codes "product:") s ≡ false)
    × (starts_with (codes "model:") s ≡ false)
    × (starts_with (codes "device:") s ≡ false)

skip-plain : (s : Bytes) → IsSerial s → skip_host_serial s ≡ behind_colon (strchr b':' s)
unfolding skip_host_serial
skip-plain s (u, p, m, d) = rw (u, p, m, d) refl

-- A serial number of the form host, colon, port, where the host has no colon and the port is one
-- digit or more, in front of a colon and a request, the whole not starting with one of the words
-- usb:, product:, model: and device:: `skip_host_serial` skips the port as well and stops at the
-- colon in front of the request.
pub skip_host_serial-port :
    (host : Bytes) (c : ℕ) (port rest : Bytes)
    → NoColon host
    → Digits (c ∷ port)
    → IsSerial (host ++ (b':' ∷ (c ∷ (port ++ (b':' ∷ rest)))))
    → skip_host_serial (host ++ (b':' ∷ (c ∷ (port ++ (b':' ∷ rest))))) ≡ some (b':' ∷ rest)
unfolding behind_colon
skip_host_serial-port host c port rest h digits serial =
    skip-plain _ serial
    ∙ ap behind_colon (strchr-NoColon host (c ∷ (port ++ (b':' ∷ rest))) h)
    ∙ ap some (serial_end-port c port rest digits)
