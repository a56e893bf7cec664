-- ===== src/Jdwp.antt =====
-- The process list of src/adbd/jdwp_service.c: the text that `jdwp_process_list` writes into a
-- buffer, and the message with its length in front. A process is its pid, or none while its `pid`
-- field is negative.
pub mod Listing
pub mod Process
pub mod Passing
pub mod Fifo
pub mod Reading
pub mod Handling
pub mod Runs
pub mod Control
use adbd.Base.{true, false}
use adbd.Base.{
  ℕ, zero, suc, ◌+◌, ◌-◌, ◌/◌, ◌%◌, Option, none, some, List, [], ◌∷◌, ◌++◌, leb, ltb,
  if◌then◌else◌, Bytes, length,
}

-- `%d` of a number that is not negative, in front of `acc`; one round of fuel for each digit.
decimal_loop : ℕ → ℕ → Bytes → Bytes
decimal_loop zero n acc = acc
decimal_loop (suc f) n acc = elim (ltb n 10) [
  | true ↦ (b'0' + n) ∷ acc
  | false ↦ decimal_loop f (n / 10) ((b'0' + n % 10) ∷ acc)
]

unfoldable pub decimal : ℕ → Bytes
unfolding decimal_loop
decimal n = decimal_loop (suc n) n []

-- One line of the list, `"%d\n"`.
unfoldable pub pid_line : ℕ → Bytes
unfolding decimal
pid_line pid = decimal pid ++ (b'\n' ∷ [])

-- The loop of `jdwp_process_list`; `room` is `end-p`. A line that does not fit with its terminator
-- ends the list.
unfoldable pub jdwp_process_list : List (Option ℕ) → ℕ → Bytes
unfolding pid_line
jdwp_process_list [] room = []
jdwp_process_list (none ∷ ps) room = jdwp_process_list ps room
jdwp_process_list (some pid ∷ ps) room =
    let line = pid_line pid in
    let rest = jdwp_process_list ps (room - length line) in
    if leb room (length line) then [] else line ++ rest

-- A hexadecimal digit, as `%x` prints it.
abbrev pub hex_digit : ℕ → ℕ
hex_digit d = if ltb d 10 then b'0' + d else b'a' + (d - 10)

-- `%04x` of a number below 65536.
unfoldable pub hex4 : ℕ → Bytes
hex4 n =
    hex_digit (n / 4096 % 16)
    ∷ (hex_digit (n / 256 % 16) ∷ (hex_digit (n / 16 % 16) ∷ (hex_digit (n % 16) ∷ [])))

-- `jdwp_process_list_msg`: the length in four digits, and the list in what is left of the buffer.
unfoldable pub jdwp_process_list_msg : List (Option ℕ) → ℕ → Bytes
unfolding jdwp_process_list hex4
jdwp_process_list_msg ps room =
    let text = jdwp_process_list ps (room - 4) in hex4 (length text) ++ text
