-- ===== src/Registry/Messages.antt =====
-- The pipes of src/adbd/transport.c: the pointers to packets that `read_packet` and `write_packet`
-- pass between a transport's threads and the event thread, and the messages of
-- `transport_write_action` and `transport_read_action`, by which transports are registered and
-- removed. The four loops are the one of `readx` or `writex`, over an object of fixed size.
use adbd.Io.Reads.{readx-Returns}
use adbd.Base.{ap, subst, ◌∙◌, length-append, take_left, drop_left}
use adbd.Packet.RoundTrip.{Returns-got}
use adbd.Base.{
  ℕ, ◌+◌, ◌*◌, ◌/◌, ◌%◌, ◌^◌, ◌<◌, ◌≡◌, refl, List, [], ◌++◌, arith, Bytes, All, length, get_or,
}
use adbd.Io.{Turn, IsCalm, Source, Got, readx, Sink, Put, writex, got, lost, unfinished, done}
use adbd.Io.Writes.{writex-done}
use adbd.Packet.Wire.{le32}

-- The memory of a pointer of 8 bytes.
abbrev pub le64 : ℕ → Bytes → Bytes
le64 n rest = le32 (n % 2 ^ 32) (le32 (n / 2 ^ 32) rest)

abbrev word_at : ℕ → Bytes → ℕ
word_at i bs =
    get_or bs i 0
    + get_or bs (i + 1) 0 * 256
    + get_or bs (i + 2) 0 * 65536
    + get_or bs (i + 3) 0 * 16777216

abbrev pointer_at : ℕ → Bytes → ℕ
pointer_at i bs = word_at i bs + word_at (i + 4) bs * 2 ^ 32

-- What is read: an object and 0, or -1.
pub data Fetched (A : Type 0) : Type 0 where
  fetched : A → Source → Fetched A
  unread : Fetched A

abbrev fetch_as : {A : Type 0} → (Bytes → A) → Got → Fetched A
fetch_as f (got bs s) = fetched (f bs) s
fetch_as f (lost s) = unread
fetch_as f unfinished = unread

unfoldable pub read_packet : Source → Fetched ℕ
unfolding readx
read_packet s = fetch_as (pointer_at 0) (readx 8 s)

unfoldable pub write_packet : ℕ → Sink → Put
unfolding writex
write_packet p s = writex (le64 p []) s

-- `struct tmsg`, with the four bytes behind `action` that no member covers.
pub record Tmsg : Type 0 where
  pub transport : ℕ
  pub action : ℕ

abbrev pub tmsg_bytes : Tmsg → Bytes → Bytes
tmsg_bytes m padding = le64 m.transport (le32 m.action padding)

abbrev tmsg_of : Bytes → Tmsg
tmsg_of bs = record { transport = pointer_at 0 bs; action = word_at 8 bs }

unfoldable pub transport_read_action : Source → Fetched Tmsg
unfolding readx
transport_read_action s = fetch_as tmsg_of (readx 16 s)

unfoldable pub transport_write_action : Tmsg → Bytes → Sink → Put
unfolding writex
transport_write_action m padding s = writex (tmsg_bytes m padding) s

-- `register_transport` and `remove_transport`; a failure of the write ends the process.
unfoldable pub register_transport : ℕ → Bytes → Sink → Put
unfolding transport_write_action
register_transport t padding s =
    transport_write_action (record { transport = t; action = 1 }) padding s

unfoldable pub remove_transport : ℕ → Bytes → Sink → Put
unfolding transport_write_action
remove_transport t padding s =
    transport_write_action (record { transport = t; action = 0 }) padding s

pointer_back : (p : ℕ) (rest : Bytes) → p < 2 ^ 64 → pointer_at 0 (le64 p rest) ≡ p
pointer_back p rest h = omega arith

tmsg_back :
    (m : Tmsg) (padding : Bytes)
    → m.transport < 2 ^ 64
    → m.action < 2 ^ 32
    → tmsg_of (tmsg_bytes m padding) ≡ m
tmsg_back m padding h k = fields (pointer_back m.transport (le32 m.action padding) h) action_back
  where
    action_back : word_at 8 (tmsg_bytes m padding) ≡ m.action
    action_back = omega arith

    fields : {a b : ℕ} → a ≡ m.transport → b ≡ m.action → record { transport = a; action = b } ≡ m
    fields x y = rw (x, y) refl

read_back :
    {A : Type 0} (f : Bytes → A) (bs rest : Bytes) (ps : List Turn)
    → All IsCalm ps
    → (s' : Source) × (fetch_as f (readx (length bs) (record { bytes = bs ++ rest; plan = ps }))
        ≡ fetched (f bs) s')
      × (s'.bytes ≡ rest)
read_back f bs rest ps calm =
    let src : Source = record { bytes = bs ++ rest; plan = ps } in
    let (ps', e, _) =
      Returns-got (readx-Returns (length bs) src (omega (arith, length-append bs rest)) calm) in
    (
      record { bytes = rest; plan = ps' },
      ap (fetch_as f) (rw (take_left bs rest, drop_left bs rest) at e),
      refl,
    )

-- Whatever the calls do short of failing: a message of `transport_write_action` for any 64-bit
-- pointer and 32-bit action, with any padding, goes out in one piece behind what was there; and
-- `transport_read_action` takes it off the pipe as it was, and leaves what stands behind it. In the
-- same way `write_packet` puts any 64-bit pointer behind what was there, and `read_packet` takes it
-- off the pipe as it was.
pub transport_read_action-transport_write_action :
    (m : Tmsg) (padding : Bytes) (p : ℕ) (out : Sink) (rest : Bytes) (ps : List Turn)
    → m.transport < 2 ^ 64
    → m.action < 2 ^ 32
    → p < 2 ^ 64
    → length padding ≡ 4
    → All IsCalm out.plan
    → All IsCalm ps
    → (out' out'' : Sink) × (s s' : Source) × (transport_write_action m padding out ≡ done out')
      × (out'.written ≡ out.written ++ tmsg_bytes m padding)
      × (transport_read_action (record { bytes = tmsg_bytes m padding ++ rest; plan = ps })
          ≡ fetched m s)
      × (s.bytes ≡ rest)
      × (write_packet p out ≡ done out'')
      × (out''.written ≡ out.written ++ le64 p [])
      × (read_packet (record { bytes = le64 p [] ++ rest; plan = ps }) ≡ fetched p s')
      × (s'.bytes ≡ rest)
unfolding transport_write_action transport_read_action write_packet read_packet
transport_read_action-transport_write_action m padding p out rest ps h k l four calm_out calm =
    let (out', sent, was, _) = writex-done (tmsg_bytes m padding) out calm_out in
    let (out'', sent', was', _) = writex-done (le64 p []) out calm_out in
    let (s, read, left) = read_back tmsg_of (tmsg_bytes m padding) rest ps calm in
    let (s', read', left') = read_back (pointer_at 0) (le64 p []) rest ps calm in
    let src : Source = record { bytes = tmsg_bytes m padding ++ rest; plan = ps } in
    let sixteen : length (tmsg_bytes m padding) ≡ 16 = omega arith in
    (
      out',
      out'',
      s,
      s',
      sent,
      was,
      subst (λ n. fetch_as tmsg_of (readx n src) ≡ fetched m s) sixteen
          (read ∙ ap (λ x. fetched x s) (tmsg_back m padding h k)),
      left,
      sent',
      was',
      read' ∙ ap (λ x. fetched x s') (pointer_back p [] l),
      left',
    )
