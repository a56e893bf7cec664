-- ===== src/Packet/RoundTrip.antt =====
-- What `remote_write` puts on the wire `remote_read` takes off it, for every plan of the kernel;
-- and what `remote_read` lets through has passed both checks.
use adbd.Io.Writes.{writex-done}
use adbd.Io.Reads.{readx-Returns, returns, Returns}
use adbd.Io.{readx, done, IsCalm, got, Sink, Turn, Source, Got}
use adbd.Base.{
  drop_left, drop, take_left, length-append, length-take, All, List, ℕ, zero, suc, ◌+◌, ◌*◌, ◌/◌,
  ◌%◌, ◌≤◌, ◌<◌, ◌≡◌, refl, true, some, [], ◌∷◌, ◌++◌, arith, Bytes, length, take, ==_iff,
}
use adbd.Packet.{Message, Packet, max_payload, u32_mod, check_header, check_data, seal, sum_bytes}
use adbd.Packet.Bits.{xor_ones-lt}
use adbd.Packet.Wire.{
  header_size, received, read_body, remote_read, remote_write, read_data, encode, decode,
}

-- Each field is an `unsigned`.
pub record IsWords (m : Message) : Type 0 where
  pub command : m.command < u32_mod
  pub arg0 : m.arg0 < u32_mod
  pub arg1 : m.arg1 < u32_mod
  pub data_length : m.data_length < u32_mod
  pub data_check : m.data_check < u32_mod
  pub magic : m.magic < u32_mod

pub decode-encode : (m : Message) → IsWords m → decode (encode m) ≡ some m
unfolding decode encode
decode-encode m w = cc (
  word_le32 m.command w.command,
  word_le32 m.arg0 w.arg0,
  word_le32 m.arg1 w.arg1,
  word_le32 m.data_length w.data_length,
  word_le32 m.data_check w.data_check,
  word_le32 m.magic w.magic,
)
  where
    word_le32 :
        (n : ℕ)
        → n < u32_mod
        → n % 256 + n / 256 % 256 * 256 + n / 65536 % 256 * 65536 + n / 16777216 % 256 * 16777216
          ≡ n
    word_le32 n h = omega arith

sum_bytes-lt : (n : ℕ) (bs : Bytes) (acc : ℕ) → acc < u32_mod → sum_bytes n bs acc < u32_mod
unfolding sum_bytes
sum_bytes-lt zero bs acc h = h
sum_bytes-lt (suc n) [] acc h = h
sum_bytes-lt (suc n) (b ∷ bs) acc h = sum_bytes-lt n bs ((acc + b) % u32_mod) (omega arith)

sum_bytes-take : (n : ℕ) (bs : Bytes) (acc : ℕ) → sum_bytes n (take n bs) acc ≡ sum_bytes n bs acc
unfolding sum_bytes
sum_bytes-take zero bs acc = refl
sum_bytes-take (suc n) [] acc = refl
sum_bytes-take (suc n) (b ∷ bs) acc = sum_bytes-take n bs ((acc + b) % u32_mod)

-- A packet that the callers of `send_packet` make: its words fit, and its data is there.
pub record IsSendable (p : Packet) : Type 0 where
  pub command : p.msg.command < u32_mod
  pub arg0 : p.msg.arg0 < u32_mod
  pub arg1 : p.msg.arg1 < u32_mod
  pub fits : p.msg.data_length ≤ max_payload
  pub there : p.msg.data_length ≤ length p.bytes

pub seal-IsWords : (p : Packet) → IsSendable p → IsWords (seal p).msg
unfolding seal
seal-IsWords p s = record {
  command = s.command;
  arg0 = s.arg0;
  arg1 = s.arg1;
  data_length = omega arith;
  data_check = sum_bytes-lt p.msg.data_length p.bytes 0 (omega arith);
  magic = xor_ones-lt p.msg.command s.command;
}

pub check_header-seal : (p : Packet) → IsSendable p → check_header (seal p).msg ≡ true
unfolding seal check_header
check_header-seal p s = ground arith

-- The packet that arrives: the sealed message, and the `data_length` bytes that were sent.
abbrev pub arrived : Packet → Packet
arrived p = record { msg = (seal p).msg; len = 0; bytes = take p.msg.data_length p.bytes }

pub check_data-arrived : (p : Packet) → check_data (arrived p) ≡ true
unfolding check_data seal
check_data-arrived p = (==_iff _ _).1 (sum_bytes-take p.msg.data_length p.bytes 0)

-- What is on the wire for a packet.
abbrev pub wire : Packet → Bytes
wire p = encode (seal p).msg ++ take p.msg.data_length p.bytes

pub Returns-got :
    {bs rest : Bytes} {g : Got}
    → Returns bs rest g
    → (ps : List Turn) × (g ≡ got bs (record { bytes = rest; plan = ps })) × All IsCalm ps
Returns-got (returns ps calm) = (ps, refl, calm)

read_data-received :
    (m : Message) (s : Source) {bs : Bytes} {s' : Source}
    → readx m.data_length s ≡ got bs s'
    → check_data (record { msg = m; len = 0; bytes = bs }) ≡ true
    → read_data m s ≡ received (record { msg = m; len = 0; bytes = bs }) s'
unfolding read_data
read_data-received m s e c = rw (e, read_data) (rw c)

read_data-arrived :
    (p : Packet) (rest : Bytes) (ps : List Turn)
    → IsSendable p
    → All IsCalm ps
    → (ps' : List Turn) × (read_data
          (seal p).msg
          (record { bytes = take p.msg.data_length p.bytes ++ rest; plan = ps })
        ≡ received (arrived p) (record { bytes = rest; plan = ps' }))
      × All IsCalm ps'
read_data-arrived p rest ps s calm = finish (
    Returns-got (
      readx-Returns (length body) (record { bytes = body ++ rest; plan = ps })
        (omega (arith, length-append body rest)) calm))
  where
    body : Bytes
    body = take p.msg.data_length p.bytes

    same : (seal p).msg.data_length ≡ length body
    same = unfold seal in omega (arith, length-take p.msg.data_length p.bytes, s.there)

    finish :
        (ps' : List Turn) × (readx (length body) (record { bytes = body ++ rest; plan = ps })
            ≡ got
                (take (length body) (body ++ rest))
                (record { bytes = drop (length body) (body ++ rest); plan = ps' }))
          × All IsCalm ps'
        → (ps' : List Turn) × (read_data (seal p).msg (record { bytes = body ++ rest; plan = ps })
            ≡ received (arrived p) (record { bytes = rest; plan = ps' }))
          × All IsCalm ps'
    finish (ps', e, calm') =
        let e' = rw (take_left body rest, drop_left body rest) at e in
        (ps', read_data-received (seal p).msg _ (rw same e') (check_data-arrived p), calm')

remote_read-wire :
    (p : Packet) (rest : Bytes) (ps : List Turn)
    → IsSendable p
    → All IsCalm ps
    → (ps' : List Turn) × (remote_read (record { bytes = wire p ++ rest; plan = ps })
        ≡ received (arrived p) (record { bytes = rest; plan = ps' }))
unfolding remote_read read_body
remote_read-wire p rest ps s calm =
    let (ps', e, calm') = Returns-got (
      readx-Returns header_size (record { bytes = wire p ++ rest; plan = ps })
        (unfold encode in omega arith) calm) in
    let (ps'', read, _) = read_data-arrived p rest ps' s calm' in (ps'', finish ps' ps'' e read)
  where
    body : Bytes
    body = take p.msg.data_length p.bytes

    front : take header_size (wire p ++ rest) ≡ encode (seal p).msg
    front = unfold encode in refl

    back : drop header_size (wire p ++ rest) ≡ body ++ rest
    back = unfold encode in refl

    finish :
        (ps' ps'' : List Turn)
        → readx header_size (record { bytes = wire p ++ rest; plan = ps })
          ≡ got
              (take header_size (wire p ++ rest))
              (record { bytes = drop header_size (wire p ++ rest); plan = ps' })
        → read_data (seal p).msg (record { bytes = body ++ rest; plan = ps' })
          ≡ received (arrived p) (record { bytes = rest; plan = ps'' })
        → remote_read (record { bytes = wire p ++ rest; plan = ps })
          ≡ received (arrived p) (record { bytes = rest; plan = ps'' })
    finish ps' ps'' e read =
        rw (e, remote_read)
          (rw (front, back, decode-encode (seal p).msg (seal-IsWords p s), check_header-seal p s)
            read)

-- Whatever the kernel's calls do short of failing, `remote_write` of a packet that `send_packet`
-- has sealed returns 0 and puts it on the wire behind what was there; and `remote_read` of that
-- wire, with any bytes behind it, returns 0 with the sealed packet and its data, and leaves those
-- bytes.
pub remote_read-remote_write :
    (p : Packet) (out : Sink) (rest : Bytes) (ps : List Turn)
    → IsSendable p
    → All IsCalm out.plan
    → All IsCalm ps
    → (out' : Sink) × (src' : Source) × (remote_write (seal p) out ≡ done out')
      × (out'.written ≡ out.written ++ wire p)
      × (remote_read (record { bytes = wire p ++ rest; plan = ps }) ≡ received (arrived p) src')
      × (src'.bytes ≡ rest)
unfolding remote_write
remote_read-remote_write p out rest ps s calm_out calm =
    let (out', sent, was, _) = writex-done (wire p) out calm_out in
    let (ps', read) = remote_read-wire p rest ps s calm in
    (out', record { bytes = rest; plan = ps' }, unfold seal in sent, was, read, refl)
