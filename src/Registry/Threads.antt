-- ===== src/Registry/Threads.antt =====
-- The two threads of a transport (src/adbd/transport.c). `fd` is one end of a pair whose other end the
-- event thread reads and writes; a packet passes as its pointer, so a stream of them is a list.
use adbd.Base.{
  ℕ, zero, suc, ◌+◌, ◌%◌, ◌≡◌, refl, ap, Bool, true, false, ◌&&◌, List, [], ◌∷◌, ◌++◌, ◌==◌, length,
  take,
}
use Prim.Native.Nat.{bit_xor}
use adbd.Io.{Source}
use adbd.Packet.{Packet, get_apacket, a_sync, u32_max, u32_mod}
use adbd.Packet.Wire.{remote_read, received, rejected}

unfoldable pub sync_packet : ℕ → ℕ → Packet
unfolding get_apacket
sync_packet arg0 arg1 = record get_apacket {
  msg = record get_apacket.msg {
    command = a_sync;
    arg0 = arg0;
    arg1 = arg1;
    magic = bit_xor a_sync u32_max;
  };
}

-- The loop of `output_thread`: every packet that arrives, until `read_from_remote` fails. A packet
-- has at least a header, so the bytes there are bound the rounds.
unfoldable pub output_loop : ℕ → Source → List Packet
unfolding remote_read
output_loop zero s = []
output_loop (suc f) s = elim (remote_read s) [
  | received p s' ↦ p ∷ output_loop f s'
  | rejected ↦ []
]

-- What `output_thread` writes to `fd`, and the new sync token. `room` is how many of its writes
-- succeed; the first that fails ends the thread.
unfoldable pub output_thread : ℕ → ℕ → Source → List Packet × ℕ
unfolding sync_packet output_loop
output_thread room sync_token s =
    let token = (sync_token + 1) % u32_mod in
    (
      take room
          (sync_packet 1 token ∷ (output_loop (suc (length s.bytes)) s ++ (sync_packet 0 0 ∷ []))),
      token,
    )

-- What `input_thread` hands to `write_to_remote` out of the packets on `fd`, at the token that
-- `output_thread` has set.
unfoldable pub input_thread : ℕ → Bool → List Packet → List Packet
input_thread sync_token active [] = []
input_thread sync_token active (p ∷ ps) = elim (p.msg.command == a_sync) [
  | true ↦ elim (p.msg.arg0 == 0) [
    | true ↦ []
    | false ↦ elim (p.msg.arg1 == sync_token) [
      | true ↦ input_thread sync_token true ps
      | false ↦ input_thread sync_token active ps
    ]
  ]
  | false ↦ elim active [
    | true ↦ p ∷ input_thread sync_token true ps
    | false ↦ input_thread sync_token false ps
  ]
]

-- The packets in front of the first SYNC whose first argument is 0.
abbrev pub before_stop : List Packet → List Packet
before_stop [] = []
before_stop (p ∷ ps) = elim (p.msg.command == a_sync && p.msg.arg0 == 0) [
  | true ↦ []
  | false ↦ p ∷ before_stop ps
]

-- The packets behind the first SYNC of this token.
abbrev pub behind_start : ℕ → List Packet → List Packet
behind_start token [] = []
behind_start token (p ∷ ps) = elim (p.msg.command == a_sync && p.msg.arg1 == token) [
  | true ↦ ps
  | false ↦ behind_start token ps
]

abbrev pub traffic : List Packet → List Packet
traffic [] = []
traffic (p ∷ ps) = elim (p.msg.command == a_sync) [ true ↦ traffic ps | false ↦ p ∷ traffic ps ]

input_thread-active :
    (token : ℕ) (ps : List Packet) → input_thread token true ps ≡ traffic (before_stop ps)
unfolding input_thread
input_thread-active token [] = refl
input_thread-active token (p ∷ ps) =
    go (p.msg.command == a_sync) refl (p.msg.arg0 == 0) (p.msg.arg1 == token)
      (input_thread-active token ps)
  where
    go :
        (b : Bool)
        → (p.msg.command == a_sync) ≡ b
        → (c d : Bool) → input_thread token true ps ≡ traffic (before_stop ps)
        → elim b as (λ _. List Packet) [
          | true ↦ elim c [
            | true ↦ []
            | false ↦ elim d [
              | true ↦ input_thread token true ps
              | false ↦ input_thread token true ps
            ]
          ]
          | false ↦ p ∷ input_thread token true ps
        ]
          ≡ traffic (elim (b && c) [ true ↦ [] | false ↦ p ∷ before_stop ps ])
    go true e true d ih = refl
    go true e false true ih = rw (traffic, e) ih
    go true e false false ih = rw (traffic, e) ih
    go false e c d ih = rw (traffic, e) (ap (◌∷◌ p) ih)

-- `input_thread` sends to the remote side exactly the packets other than SYNC that stand behind the
-- first SYNC of its token and in front of the first SYNC with 0: nothing that was queued for an earlier
-- connection, and nothing after the end.
pub input_thread-traffic :
    (token : ℕ) (ps : List Packet)
    → input_thread token false ps ≡ traffic (behind_start token (before_stop ps))
unfolding input_thread
input_thread-traffic token [] = refl
input_thread-traffic token (p ∷ ps) =
    go (p.msg.command == a_sync) refl (p.msg.arg0 == 0) (p.msg.arg1 == token) refl
      (input_thread-traffic token ps)
  where
    go :
        (b : Bool)
        → (p.msg.command == a_sync) ≡ b
        → (c d : Bool) → (p.msg.arg1 == token) ≡ d
        → input_thread token false ps ≡ traffic (behind_start token (before_stop ps))
        → elim b as (λ _. List Packet) [
          | true ↦ elim c [
            | true ↦ []
            | false ↦ elim d [
              | true ↦ input_thread token true ps
              | false ↦ input_thread token false ps
            ]
          ]
          | false ↦ input_thread token false ps
        ]
          ≡ traffic (behind_start token (elim (b && c) [ true ↦ [] | false ↦ p ∷ before_stop ps ]))
    go true e true d e' ih = refl
    go true e false true e' ih = rw (behind_start, e, e') (input_thread-active token ps)
    go true e false false e' ih = rw (behind_start, e, e') ih
    go false e c d e' ih = rw (behind_start, e) ih
