-- ===== src/Usb/RoundTrip.antt =====
-- A packet that `remote_write` of src/adbd/transport_usb.c has put on the endpoint is the one that
-- `remote_read` takes off it, over the functionfs driver of src/adbd/usb_linux_client.c.
use adbd.Usb.Delivery.{usb_ffs_read-Brings}
use adbd.Base.{
  ◌+◌, ◌≤◌, ◌≡◌, refl, sym, ap, ◌∙◌, inl, inr, true, List, [], ◌++◌, append-nil, append_assoc,
  arith, Bytes, All, ◌==◌, if◌then◌else◌, ==_iff, Bool-cases, length, take, drop, length-append,
  length-take, take_left, drop_left,
}
use adbd.Usb.{
  Completion, Outlet, Write, UsbDriver, ffs_driver, wrote_all, write_failed, write_waits,
  write_unfinished,
}
use adbd.Usb.Bulk.{Writes, IsFaithful}
use adbd.Usb.Drivers.{drivers-IsFaithful}
use adbd.Usb.Delivery.{IsRunning, progress}
use adbd.Usb.Wire.{usb_read_body, usb_remote_write, usb_remote_read, usb_read_data, arrives}
use adbd.Packet.{Packet, seal}
use adbd.Packet.Wire.{encode, header_size}
use adbd.Packet.RoundTrip.{
  decode-encode, IsSendable, seal-IsWords, check_header-seal, arrived, check_data-arrived, wire,
}

usb_remote_write-wire :
    (d : UsbDriver)
    → IsFaithful d
    → (p : Packet) (o : Outlet) → Writes (wire p) o.written (usb_remote_write d (seal p) o)
unfolding usb_remote_write seal
usb_remote_write-wire d faithful p o =
    go (d.write (encode (seal p).msg) o) (faithful.writes (encode (seal p).msg) o)
  where
    body : Bytes
    body = take p.msg.data_length p.bytes

    extend :
        (o' : Outlet) (w : Write)
        → o'.written ≡ o.written ++ encode (seal p).msg
        → Writes body o'.written w
        → Writes (wire p) o.written w
    extend o' (wrote_all o'') was h =
        h ∙ ap (λ u. u ++ body) was ∙ append_assoc o.written (encode (seal p).msg) body
    extend o' (write_failed o'') was h = tt
    extend o' write_waits was h = tt
    extend o' write_unfinished was h = h

    nothing : (p.msg.data_length == 0) ≡ true → body ≡ []
    nothing z = ap (λ n. take n p.bytes) ((==_iff p.msg.data_length 0).0 z)

    go :
        (w : Write)
        → Writes (encode (seal p).msg) o.written w
        → Writes (wire p) o.written (elim w [
          | wrote_all o' ↦ if p.msg.data_length == 0 then wrote_all o' else d.write body o'
          | write_failed o' ↦ write_failed o'
          | write_waits ↦ write_waits
          | write_unfinished ↦ write_unfinished
        ])
    go (wrote_all o') was = elim (Bool-cases (p.msg.data_length == 0)) [
      | inl z ↦ rw z (
          extend o' (wrote_all o') was
            (sym (append-nil o'.written) ∙ ap (λ u. o'.written ++ u) (sym (nothing z))))
      | inr z ↦ rw z (extend o' (d.write body o') was (faithful.writes body o'))
    ]
    go (write_failed o') h = tt
    go write_waits h = tt
    go write_unfinished h = h

usb_read_data-arrives :
    (p : Packet) (rest : Bytes) (ps : List Completion)
    → IsSendable p
    → All IsRunning ps
    → p.msg.data_length ≤ progress ps
    → (ps' : List Completion) × (usb_read_data ffs_driver
          (seal p).msg
          (record { bytes = take p.msg.data_length p.bytes ++ rest; plan = ps })
        ≡ arrives (arrived p) (record { bytes = rest; plan = ps' }))
unfolding usb_read_data seal
usb_read_data-arrives p rest ps s run h = elim (Bool-cases (p.msg.data_length == 0)) [
  | inl z ↦
      let none_sent : take p.msg.data_length p.bytes ≡ [] =
        ap (λ n. take n p.bytes) ((==_iff p.msg.data_length 0).0 z) in
      (ps, rw z (rw (← none_sent) (rw (check_data-arrived p) (rw none_sent refl))))
  | inr z ↦
      let i =
        usb_ffs_read-Brings p.msg.data_length 0
          (record { bytes = take p.msg.data_length p.bytes ++ rest; plan = ps }) run (ground arith)
          (omega (arith, length-append body rest, same)) (omega arith) in
      (i.rest, rw (z, i.result, front, back, check_data-arrived p) refl)
]
  where
    body : Bytes
    body = take p.msg.data_length p.bytes

    same : length body ≡ p.msg.data_length
    same = omega (arith, length-take p.msg.data_length p.bytes, s.there)

    front : take p.msg.data_length (body ++ rest) ≡ body
    front = ap (λ n. take n (body ++ rest)) (sym same) ∙ take_left body rest

    back : drop p.msg.data_length (body ++ rest) ≡ rest
    back = ap (λ n. drop n (body ++ rest)) (sym same) ∙ drop_left body rest

usb_remote_read-wire :
    (p : Packet) (rest : Bytes) (ps : List Completion)
    → IsSendable p
    → All IsRunning ps
    → header_size + p.msg.data_length ≤ progress ps
    → (ps' : List Completion) × (usb_remote_read ffs_driver
          (record { bytes = wire p ++ rest; plan = ps })
        ≡ arrives (arrived p) (record { bytes = rest; plan = ps' }))
unfolding usb_remote_read usb_read_body
usb_remote_read-wire p rest ps s run h =
    let i =
      usb_ffs_read-Brings header_size p.msg.data_length
        (record { bytes = wire p ++ rest; plan = ps }) run (omega arith)
        (unfold encode in omega arith) h in
    let (ps', read) = usb_read_data-arrives p rest i.rest s i.running i.enough in
    (
      ps',
      rw (i.result, usb_remote_read)
          (rw (front, back, decode-encode (seal p).msg (seal-IsWords p s), check_header-seal p s)
            read),
    )
  where
    front : take header_size (wire p ++ rest) ≡ encode (seal p).msg
    front = unfold encode in refl

    back : drop header_size (wire p ++ rest) ≡ take p.msg.data_length p.bytes ++ rest
    back = unfold encode in refl

-- When `remote_write` over the functionfs driver returns 0 for a packet that `send_packet` has
-- sealed, whatever its calls did: the packet is on the wire behind what was there. And once the
-- reads of an endpoint that holds that wire fail with nothing but EINTR and move a byte at least
-- as often as the packet has bytes: `remote_read` returns 0 with the sealed packet and its data,
-- and leaves what stands behind it, however the bytes are cut into transfers, empty ones included.
pub usb_remote_read-usb_remote_write :
    (p : Packet) (o : Outlet) (rest : Bytes) (ps : List Completion)
    → IsSendable p
    → All IsRunning ps
    → header_size + p.msg.data_length ≤ progress ps
    → Writes (wire p) o.written (usb_remote_write ffs_driver (seal p) o)
      × (ps' : List Completion) × (usb_remote_read ffs_driver
            (record { bytes = wire p ++ rest; plan = ps })
          ≡ arrives (arrived p) (record { bytes = rest; plan = ps' }))
usb_remote_read-usb_remote_write p o rest ps s run h =
    let (ps', read) = usb_remote_read-wire p rest ps s run h in
    (usb_remote_write-wire ffs_driver drivers-IsFaithful.0 p o, ps', read)
