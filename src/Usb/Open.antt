-- ===== src/Usb/Open.antt =====
-- How the functionfs endpoints of src/adbd/usb_linux_client.c are opened and closed:
-- `init_functionfs`, the round of `usb_ffs_open_thread` around it, and `usb_ffs_kick`. What the
-- system calls of one attempt return is an argument. A descriptor of -1 is none.
use adbd.Base.{
  Option, none, some, ℕ, zero, suc, Bool, true, false, not, List, [], ◌∷◌, ◌==◌, if◌then◌else◌,
}

-- The descriptors of a `usb_handle`, and the descriptors that the process has open.
pub record UsbHandle : Type 0 where
  pub control : Option ℕ
  pub bulk_out : Option ℕ
  pub bulk_in : Option ℕ
  pub open_fds : List ℕ

-- The results of an attempt's calls, in their order: an opened descriptor or none, and whether a
-- write went well.
pub record Attempt : Type 0 where
  pub ep0 : Option ℕ
  pub wrote_descriptors : Bool
  pub wrote_strings : Bool
  pub ep_out : Option ℕ
  pub ep_in : Option ℕ

-- `usb_ffs_init`, as it leaves the calloc'ed handle: `bulk_out` is set twice and `bulk_in` is not.
unfoldable pub usb_ffs_init : List ℕ → UsbHandle
usb_ffs_init fds = record { control = none; bulk_out = none; bulk_in = some 0; open_fds = fds }

-- A successful close of a descriptor that is open.
unfoldable pub without : ℕ → List ℕ → List ℕ
without fd [] = []
without fd (x ∷ xs) = let rest = without fd xs in if x == fd then xs else x ∷ rest

-- `adb_close`; on -1 it fails and changes nothing.
abbrev pub close_fd : Option ℕ → List ℕ → List ℕ
close_fd none fds = fds
close_fd (some fd) fds = without fd fds

-- The result of an open joins the open descriptors.
abbrev pub open_fd : Option ℕ → List ℕ → List ℕ
open_fd none fds = fds
open_fd (some fd) fds = fd ∷ fds

-- `if(fd>0){adb_close(fd);fd=-1;}` as it leaves the field, and the descriptors.
abbrev clear_field : Option ℕ → Option ℕ
clear_field none = none
clear_field (some zero) = some zero
clear_field (some (suc n)) = none

abbrev clear_fds : Option ℕ → List ℕ → List ℕ
clear_fds none fds = fds
clear_fds (some zero) fds = fds
clear_fds (some (suc n)) fds = close_fd (some (suc n)) fds

-- The label `err`.
unfoldable pub init_error : UsbHandle → UsbHandle
unfolding without
init_error h = record {
  control = clear_field h.control;
  bulk_out = clear_field h.bulk_out;
  bulk_in = clear_field h.bulk_in;
  open_fds = clear_fds h.control (clear_fds h.bulk_out (clear_fds h.bulk_in h.open_fds));
}

abbrev is_none : Option ℕ → Bool
is_none none = true
is_none (some fd) = false

abbrev set_control : UsbHandle → Option ℕ → UsbHandle
set_control h fd = record h { control = fd; open_fds = open_fd fd h.open_fds }

abbrev set_bulk_out : UsbHandle → Option ℕ → UsbHandle
set_bulk_out h fd = record h { bulk_out = fd; open_fds = open_fd fd h.open_fds }

abbrev set_bulk_in : UsbHandle → Option ℕ → UsbHandle
set_bulk_in h fd = record h { bulk_in = fd; open_fds = open_fd fd h.open_fds }

unfoldable pub init_functionfs : UsbHandle → Attempt → UsbHandle
unfolding init_error
init_functionfs h a =
    let h0 = set_control h a.ep0 in
    let h1 = set_bulk_out h0 a.ep_out in
    let h2 = set_bulk_in h1 a.ep_in in
    if is_none a.ep0
    then init_error h0
    else if not a.wrote_descriptors
    then init_error h0
    else if not a.wrote_strings
    then init_error h0
    else if is_none a.ep_out
    then init_error h1
    else if is_none a.ep_in
    then init_error h2
    else h2

-- The inner loop of `usb_ffs_open_thread` over the attempts: the handle it registers, or none while
-- it goes on trying.
unfoldable pub usb_ffs_open : UsbHandle → List Attempt → Option UsbHandle
unfolding init_functionfs
usb_ffs_open h [] = none
usb_ffs_open h (a ∷ rest) =
    let h' = init_functionfs h a in
    let later = usb_ffs_open h' rest in if is_none h'.control then later else some h'

-- `usb_ffs_kick`: the three closes, and -1 in each field, which wakes the thread.
unfoldable pub usb_ffs_kick : UsbHandle → UsbHandle
unfolding without
usb_ffs_kick h = record {
  control = none;
  bulk_out = none;
  bulk_in = none;
  open_fds = close_fd h.bulk_in (close_fd h.bulk_out (close_fd h.control h.open_fds));
}

-- The wait of `usb_adb_open_thread` and its open of either device, over the results of the opens in
-- turn: the `fd` it registers, or none while it goes on trying.
unfoldable pub usb_adb_open : List (Option ℕ × Option ℕ) → Option ℕ
usb_adb_open [] = none
usb_adb_open ((some fd, second) ∷ rest) = some fd
usb_adb_open ((none, some fd) ∷ rest) = some fd
usb_adb_open ((none, none) ∷ rest) = usb_adb_open rest
