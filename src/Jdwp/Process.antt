-- ===== src/Jdwp/Process.antt =====
-- A process that has connected to the JDWP control socket (src/adbd/jdwp_service.c): what
-- `jdwp_process_event` does with it, `create_jdwp_connection_fd`, and `jdwp_process_free`. What the
-- system calls of an event return is an argument.
use adbd.Base.{
  Option, none, some, ℕ, zero, suc, ◌+◌, ◌-◌, ◌*◌, min, Bool, true, false, ◌&&◌, ◌||◌, List, [],
  ◌∷◌, ◌++◌, Bytes, leb, ◌==◌, if◌then◌else◌, length, take,
}
use adbd.Io.{Turn, Source, Reading, deliver, eintr, eagain, other, give, fault, chunk, failed}
use adbd.Transport.{c_string}
use adbd.Sockets.Hex.{digit_value}

-- An `int`.
pub data ℤ : Type 0 where
  pos : ℕ → ℤ
  negsuc : ℕ → ℤ

unfoldable pub int_eq : ℤ → ℤ → Bool
int_eq (pos m) (pos n) = m == n
int_eq (pos m) (negsuc n) = false
int_eq (negsuc m) (pos n) = false
int_eq (negsuc m) (negsuc n) = m == n

-- The process: `in_len` is the length of `in_buff`, `out_fds` has its four slots, and `writable` is
-- FDE_WRITE in its fdevent.
pub record Process : Type 0 where
  pub pid : ℤ
  pub socket : ℕ
  pub in_buff : Bytes
  pub out_fds : List ℕ
  pub out_count : ℕ
  pub writable : Bool

abbrev pub max_out_fds : ℕ
max_out_fds = 4

-- The calls of `adb_close` so far, and the descriptors that processes have received.
pub record Log : Type 0 where
  pub closed : List ℕ
  pub passed : List ℕ

-- What is left of a process after an event: itself, with whether the list of pids was announced, or
-- nothing.
pub data After : Type 0 where
  kept : Bool → Process → Log → After
  freed : Log → After

-- `jdwp_process_free`: the socket, which the fdevent does not close, and the descriptors that wait.
-- The announcement that ends it is made by its caller here.
unfoldable pub jdwp_process_free : Process → Log → After
jdwp_process_free p l =
    freed (record l { closed = l.closed ++ (p.socket ∷ take p.out_count p.out_fds) })

-- The characters that `isspace` accepts.
abbrev is_space : ℕ → Bool
is_space c = c == 32 || (leb 9 c && leb c 13)

unfoldable pub skip_space : Bytes → Bytes
skip_space [] = []
skip_space (c ∷ s) = let rest = skip_space s in if is_space c then rest else c ∷ s

-- The digits in front, `n` so far.
unfoldable pub hex_value : ℕ → Bytes → ℕ
unfolding digit_value
hex_value n [] = n
hex_value n (c ∷ s) = elim (digit_value c) [ none ↦ n | some d ↦ hex_value (n * 16 + d) s ]

-- The digits of a number, of which there has to be one.
unfoldable pub hex_number : Bytes → Option ℕ
unfolding digit_value hex_value
hex_number [] = none
hex_number (c ∷ s) = elim (digit_value c) [ none ↦ none | some d ↦ some (hex_value d s) ]

-- A prefix `0x` is part of the number.
unfoldable pub hex_field : Bytes → Option ℕ
unfolding hex_number
hex_field (c ∷ (x ∷ s)) =
    if c == b'0' && (x == b'x' || x == b'X') then hex_number s else hex_number (c ∷ (x ∷ s))
hex_field s = hex_number s

abbrev negated : Option ℕ → Option ℤ
negated none = none
negated (some zero) = some (pos 0)
negated (some (suc n)) = some (negsuc n)

abbrev positive : Option ℕ → Option ℤ
positive none = none
positive (some n) = some (pos n)

-- `sscanf(temp,"%04x",&pid)`: blanks, then a field of at most four characters with an optional
-- sign.
unfoldable pub signed_field : Bytes → Option ℤ
unfolding hex_field
signed_field [] = none
signed_field (c ∷ s) =
    if c == b'-'
    then negated (hex_field s)
    else if c == b'+'
    then positive (hex_field s)
    else positive (hex_field (c ∷ s))

unfoldable pub scan_pid : Bytes → Option ℤ
unfolding signed_field skip_space c_string
scan_pid temp = signed_field (take 4 (skip_space (c_string temp)))

-- `recv`, on the bytes that the process sends; EINTR is not retried.
unfoldable pub recv : ℕ → Bytes → List Turn → Reading
recv len bs [] = deliver len bs []
recv len bs (give n ∷ ps) = deliver (min (suc n) len) bs ps
recv len bs (fault e ∷ ps) = failed e (record { bytes = bs; plan = ps })

-- How the loop of a read ends: with the buffer filled, on EAGAIN, or at CloseProcess.
pub data Filled : Type 0 where
  filled : Bytes → Filled
  paused : Bytes → Filled
  closing : Filled
  unfilled : Filled

-- The loop that fills `in_buff`; `size` is what it lacks.
unfoldable pub fill_in_buff : ℕ → ℕ → Bytes → Source → Filled
unfolding recv
fill_in_buff zero size buff s = unfilled
fill_in_buff (suc f) zero buff s = filled buff
fill_in_buff (suc f) (suc n) buff s = elim (recv (suc n) s.bytes s.plan) [
  | chunk [] s' ↦ closing
  | chunk (b ∷ bs) s' ↦ fill_in_buff f (suc n - length (b ∷ bs)) (buff ++ (b ∷ bs)) s'
  | failed eintr s' ↦ fill_in_buff f (suc n) buff s'
  | failed eagain s' ↦ paused buff
  | failed other s' ↦ closing
]

-- The loop that ignores what a known process sends, 32 bytes at a time.
unfoldable pub ignore_loop : ℕ → Source → Filled
unfolding recv
ignore_loop zero s = unfilled
ignore_loop (suc f) s = elim (recv 32 s.bytes s.plan) [
  | chunk [] s' ↦ closing
  | chunk (b ∷ bs) s' ↦ ignore_loop f s'
  | failed eintr s' ↦ ignore_loop f s'
  | failed eagain s' ↦ paused []
  | failed other s' ↦ closing
]

-- The part of the event under FDE_READ: whether the handler goes on to FDE_WRITE, and what it
-- leaves.
pub data ReadEnd : Type 0 where
  goes_on returns : After → ReadEnd
  short_of_fuel : ReadEnd

unfoldable pub set_pid : Process → Log → Option ℤ → ReadEnd
unfolding jdwp_process_free
set_pid p l none = returns (jdwp_process_free p l)
set_pid p l (some n) = goes_on (kept true (record p { pid = n }) l)

unfoldable pub read_unknown : Process → Log → Source → ReadEnd
unfolding fill_in_buff scan_pid jdwp_process_free set_pid
read_unknown p l s = elim (fill_in_buff (5 + length s.plan) (4 - length p.in_buff) p.in_buff s) [
  | filled buff ↦ set_pid (record p { in_buff = buff }) l (scan_pid buff)
  | paused buff ↦ returns (kept false (record p { in_buff = buff }) l)
  | closing ↦ returns (jdwp_process_free p l)
  | unfilled ↦ short_of_fuel
]

unfoldable pub read_known : Process → Log → Source → ReadEnd
unfolding ignore_loop jdwp_process_free
read_known p l s = elim (ignore_loop (suc (length s.bytes + length s.plan)) s) [
  | filled buff ↦ returns (kept false p l)
  | paused buff ↦ returns (kept false p l)
  | closing ↦ returns (jdwp_process_free p l)
  | unfilled ↦ short_of_fuel
]
