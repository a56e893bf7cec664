-- ===== src/Usb.antt =====
-- The USB transport: the endpoint loops and the drivers of src/adbd/usb_linux_client.c, and
-- `remote_read` and `remote_write` of src/adbd/transport_usb.c over a driver. What the system calls
-- on an endpoint do is an argument: a plan with one entry for each call. At the plan's end a call
-- does not return. A loop takes one round more than the plan has entries.
pub mod Bulk
pub mod Drivers
pub mod Wire
pub mod Delivery
pub mod RoundTrip
pub mod Open
pub mod Held
use adbd.Base.{
  ℕ, zero, suc, ◌-◌, min, List, [], ◌∷◌, ◌++◌, Bytes, ◌==◌, if◌then◌else◌, length, take, drop,
}
use adbd.Io.{Errno, eintr, eagain, other}

-- What one system call on an endpoint does: it moves at most `n` bytes, maybe none, or fails.
pub data Completion : Type 0 where
  moves : ℕ → Completion
  fails : Errno → Completion

-- What the host sends on the endpoint, and how the reads of it go.
pub record Endpoint : Type 0 where
  pub bytes : Bytes
  pub plan : List Completion

-- What `adb_read` of an endpoint comes to.
pub data Reading : Type 0 where
  chunk : Bytes → Endpoint → Reading
  failed : Errno → Endpoint → Reading
  blocked : Reading

-- `adb_read`, which repeats the call on EINTR.
unfoldable pub endpoint_read : ℕ → Bytes → List Completion → Reading
endpoint_read len bs [] = blocked
endpoint_read len bs (moves n ∷ ps) =
    let m : ℕ = min n len in chunk (take m bs) (record { bytes = drop m bs; plan = ps })
endpoint_read len bs (fails eintr ∷ ps) = endpoint_read len bs ps
endpoint_read len bs (fails eagain ∷ ps) = failed eagain (record { bytes = bs; plan = ps })
endpoint_read len bs (fails other ∷ ps) = failed other (record { bytes = bs; plan = ps })

-- How a read of a given length ends: with all the bytes, with -1, never, or short of fuel.
pub data Read : Type 0 where
  read_all : Bytes → Endpoint → Read
  read_failed : Endpoint → Read
  read_waits : Read
  read_unfinished : Read

-- The loop of `bulk_read`: `acc` is what the buffer holds, and `room` is `length-count`. Its test
-- stands behind the call.
unfoldable pub bulk_read_loop : ℕ → ℕ → Bytes → Endpoint → Read
unfolding endpoint_read
bulk_read_loop zero room acc e = read_unfinished
bulk_read_loop (suc f) room acc e = elim (endpoint_read room e.bytes e.plan) [
  | chunk bs e' ↦ elim (room - length bs) [
    | zero ↦ read_all (acc ++ bs) e'
    | suc left ↦ bulk_read_loop f (suc left) (acc ++ bs) e'
  ]
  | failed eintr e' ↦ elim room [
    | zero ↦ read_all acc e'
    | suc left ↦ bulk_read_loop f (suc left) acc e'
  ]
  | failed eagain e' ↦ read_failed e'
  | failed other e' ↦ read_failed e'
  | blocked ↦ read_waits
]

-- `usb_ffs_read`: what `bulk_read` returns has to be the length that was asked for.
unfoldable pub usb_ffs_read : ℕ → Endpoint → Read
unfolding bulk_read_loop
usb_ffs_read len e = elim (bulk_read_loop (suc (length e.plan)) len [] e) [
  | read_all bs e' ↦ if length bs == len then read_all bs e' else read_failed e'
  | read_failed e' ↦ read_failed e'
  | read_waits ↦ read_waits
  | read_unfinished ↦ read_unfinished
]

-- `usb_adb_read`: one call, which has to bring all the bytes.
unfoldable pub usb_adb_read : ℕ → Endpoint → Read
unfolding endpoint_read
usb_adb_read len e = elim (endpoint_read len e.bytes e.plan) [
  | chunk bs e' ↦ if length bs == len then read_all bs e' else read_failed e'
  | failed r e' ↦ read_failed e'
  | blocked ↦ read_waits
]

-- What the host has received on the endpoint, and how the writes of it go.
pub record Outlet : Type 0 where
  pub written : Bytes
  pub plan : List Completion

pub data Writing : Type 0 where
  took : ℕ → Outlet → Writing
  refused : Errno → Outlet → Writing
  stuck : Writing

unfoldable pub outlet_write : Bytes → Bytes → List Completion → Writing
outlet_write bs out [] = stuck
outlet_write bs out (moves n ∷ ps) =
    let m : ℕ = min n (length bs) in took m (record { written = out ++ take m bs; plan = ps })
outlet_write bs out (fails eintr ∷ ps) = outlet_write bs out ps
outlet_write bs out (fails eagain ∷ ps) = refused eagain (record { written = out; plan = ps })
outlet_write bs out (fails other ∷ ps) = refused other (record { written = out; plan = ps })

pub data Write : Type 0 where
  wrote_all : Outlet → Write
  write_failed : Outlet → Write
  write_waits : Write
  write_unfinished : Write

-- The loop of `bulk_write` over the bytes that are left, `buf+count`.
unfoldable pub bulk_write_loop : ℕ → Bytes → Outlet → Write
unfolding outlet_write
bulk_write_loop zero bs o = write_unfinished
bulk_write_loop (suc f) bs o = elim (outlet_write bs o.written o.plan) [
  | took n o' ↦ elim (drop n bs) [ [] ↦ wrote_all o' | c ∷ cs ↦ bulk_write_loop f (c ∷ cs) o' ]
  | refused eintr o' ↦ elim bs [ [] ↦ wrote_all o' | c ∷ cs ↦ bulk_write_loop f (c ∷ cs) o' ]
  | refused eagain o' ↦ write_failed o'
  | refused other o' ↦ write_failed o'
  | stuck ↦ write_waits
]

-- `usb_ffs_write`: the count that `bulk_write` returns is the length, since it never takes more.
unfoldable pub usb_ffs_write : Bytes → Outlet → Write
unfolding bulk_write_loop
usb_ffs_write bs o = bulk_write_loop (suc (length o.plan)) bs o

unfoldable pub usb_adb_write : Bytes → Outlet → Write
unfolding outlet_write
usb_adb_write bs o = elim (outlet_write bs o.written o.plan) [
  | took n o' ↦ if n == length bs then wrote_all o' else write_failed o'
  | refused r o' ↦ write_failed o'
  | stuck ↦ write_waits
]

-- The functions that a `usb_handle` carries, which `usb_read` and `usb_write` call.
pub record UsbDriver : Type 0 where
  pub read : ℕ → Endpoint → Read
  pub write : Bytes → Outlet → Write

-- The handle that `usb_ffs_init` makes, and the one of `usb_adb_init`.
abbrev pub ffs_driver : UsbDriver
ffs_driver = record { read = usb_ffs_read; write = usb_ffs_write }

abbrev pub adb_driver : UsbDriver
adb_driver = record { read = usb_adb_read; write = usb_adb_write }
