-- ===== src/Tests/Usb.antt =====
-- The USB transport at concrete values.
use adbd.Base.{none, some, ℕ, zero, suc, ◌≡◌, refl, true, List, [], ◌∷◌, ◌++◌, arith, codes, All}
use adbd.Usb.{Completion, Endpoint, Outlet, ffs_driver, moves, fails}
use adbd.Usb.Bulk.{Writes}
use adbd.Usb.Drivers.{drivers-IsFaithful}
use adbd.Usb.Delivery.{IsRunning}
use adbd.Usb.Wire.{usb_remote_read, usb_remote_write, Next, usb_remote_read-Next, arrives}
use adbd.Usb.RoundTrip.{usb_remote_read-usb_remote_write}
use adbd.Usb.Open.{UsbHandle, Attempt, usb_ffs_init, init_functionfs, usb_ffs_kick}
use adbd.Usb.Held.{Holds, IsKernel, Reaches, Reaches-Holds, tries, kicked, starts, goes}
use adbd.Packet.{a_wrte, Packet, seal}
use adbd.Packet.RoundTrip.{IsSendable, arrived, wire}
use adbd.Io.{eintr}

-- Empty transfers, short ones and an interruption, and a byte for each call after them.
abbrev ones : ℕ → List Completion
ones zero = []
ones (suc n) = moves 1 ∷ ones n

abbrev bumpy : List Completion
bumpy = moves 0 ∷ (moves 7 ∷ (fails eintr ∷ (moves 0 ∷ ones 40)))

abbrev outlet : Outlet
outlet = record {
  written = codes "so ";
  plan = moves 10 ∷ (moves 0 ∷ (moves 64 ∷ (moves 64 ∷ [])));
}

abbrev hello : Packet
hello = record {
  msg = record { command = a_wrte; arg0 = 7; arg1 = 9; data_length = 5; data_check = 0; magic = 0 };
  len = 5;
  bytes = codes "hello";
}

hello-IsSendable : IsSendable hello
hello-IsSendable = omega arith

abbrev calm : (n : ℕ) → All IsRunning (ones n)
calm zero = tt
calm (suc n) = (tt, calm n)

usb_remote_read-usb_remote_write_example :
    Writes (wire hello) (codes "so ") (usb_remote_write ffs_driver (seal hello) outlet)
    × (ps' : List Completion) × (usb_remote_read ffs_driver
          (record { bytes = wire hello ++ codes "more"; plan = bumpy })
        ≡ arrives (arrived hello) (record { bytes = codes "more"; plan = ps' }))
usb_remote_read-usb_remote_write_example =
    usb_remote_read-usb_remote_write hello outlet (codes "more") bumpy hello-IsSendable
      (tt, (tt, (tt, (tt, calm 40)))) (omega arith)

abbrev endpoint : Endpoint
endpoint = record { bytes = wire hello ++ codes "more"; plan = bumpy }

usb_remote_read-Next_example : Next endpoint.bytes (usb_remote_read ffs_driver endpoint)
usb_remote_read-Next_example = usb_remote_read-Next ffs_driver drivers-IsFaithful.0 endpoint

-- An attempt that fails at the last endpoint, one that opens all of them, and a kick.
abbrev failing : Attempt
failing = record {
  ep0 = some 5;
  wrote_descriptors = true;
  wrote_strings = true;
  ep_out = some 6;
  ep_in = none;
}

abbrev working : Attempt
working = record {
  ep0 = some 5;
  wrote_descriptors = true;
  wrote_strings = true;
  ep_out = some 6;
  ep_in = some 7;
}

failing-IsKernel : IsKernel failing
failing-IsKernel = record {
  ep0_positive = λ e. cc;
  ep_out_positive = λ e. cc;
  ep_in_positive = λ e. cc;
  ep0_out = λ n e e'. cc;
  ep0_in = λ n e e'. cc;
  ep_out_in = λ n e e'. cc;
}

working-IsKernel : IsKernel working
working-IsKernel = record {
  ep0_positive = λ e. cc;
  ep_out_positive = λ e. cc;
  ep_in_positive = λ e. cc;
  ep0_out = λ n e e'. cc;
  ep0_in = λ n e e'. cc;
  ep_out_in = λ n e e'. cc;
}

abbrev begun : UsbHandle
unfolding usb_ffs_init
begun = usb_ffs_init (3 ∷ 4 ∷ [])

abbrev retried : UsbHandle
unfolding init_functionfs
retried = init_functionfs begun failing

abbrev opened : UsbHandle
unfolding init_functionfs
opened = init_functionfs retried working

life : Reaches (usb_ffs_init (3 ∷ 4 ∷ [])) (usb_ffs_kick opened)
unfolding usb_ffs_init init_functionfs
life =
    goes
      (goes (goes starts (tries begun failing refl failing-IsKernel))
        (tries retried working refl working-IsKernel))
      (kicked opened (λ e. cc))

Reaches-Holds_example : Holds (3 ∷ 4 ∷ []) (usb_ffs_kick opened)
Reaches-Holds_example = Reaches-Holds (3 ∷ 4 ∷ []) (usb_ffs_kick opened) life
