-- ===== src/Listeners/Format.antt =====
-- The answer to list-forward (src/adbd/adb.c): its length is announced before it is printed.
use adbd.Base.{
  Option, none, some, ℕ, ◌+◌, ◌-◌, ◌<◌, ◌≤◌, ◌≡◌, refl, ap, ◌⊎◌, inl, inr, Bool, true, false, List,
  [], ◌∷◌, ◌++◌, arith, Bytes, codes, ltb, lt→ltb, Bool-cases, if◌then◌else◌, length, take,
  take_all, length-append,
}
use adbd.Jdwp.{hex4}
use adbd.Listeners.{
  Formatted, Listener, is_star, serial_on, listener_line, format_listener, add_line, listeners_size,
  longer, print_line, format_listeners, formatted, announce, body_of, Listed, listed, crashed,
  list_forward,
}

-- A line before the others, if it has a serial number and they have theirs.
abbrev with_line : Listener → Option Bytes → Option Bytes → Option Bytes
with_line l none rest = none
with_line l (some serial) none = none
with_line l (some serial) (some text) = some (listener_line serial l ++ text)

-- The lines that the answer must have, none if a serial number is missing.
abbrev pub listing : (ℕ → Option Bytes) → List Listener → Option Bytes
listing serial_of [] = some []
listing serial_of (l ∷ ls) =
    if is_star l.connect_to
    then listing serial_of ls
    else with_line l (serial_on serial_of l.transport) (listing serial_of ls)

length-listener_line :
    (serial : Bytes) (l : Listener) → length (listener_line serial l) ≡ format_listener serial l
unfolding listener_line format_listener
length-listener_line serial l = omega (
  arith,
  length-append serial (32 ∷ (l.local_name ++ (32 ∷ (l.connect_to ++ (10 ∷ []))))),
  length-append l.local_name (32 ∷ (l.connect_to ++ (10 ∷ []))),
  length-append l.connect_to (10 ∷ []),
)

-- What the two passes make of the lines: the first their length, the second in a larger buffer
-- themselves.
abbrev Passes : Option Bytes → Option ℕ → (ℕ → Formatted) → Type 0
Passes none size print = size ≡ none
Passes (some text) size print =
    (size ≡ some (length text))
    × ((n : ℕ) → length text < n → print n ≡ formatted (length text) text)

line-Passes :
    (l : Listener) (serial : Option Bytes) (rest : Option Bytes) (size : Option ℕ)
    (print : ℕ → Formatted)
    → Passes rest size print
    → Passes (with_line l serial rest) (add_line l serial size) (λ n. print_line l n serial print)
unfolding add_line print_line longer
line-Passes l none rest size print h = refl
line-Passes l (some serial) none size print h = rw (h, add_line) refl
line-Passes l (some serial) (some text) size print (e, p) = (
  rw (e, add_line) (ap some total),
  λ n h.
      let fits = lt→ltb (format_listener serial l) n (omega (arith, total)) in
      let rest = p (n - format_listener serial l) (omega (arith, total)) in
      rw (fits, rest, longer) (ap (λ k. formatted k (listener_line serial l ++ text)) total),
)
  where
    total : format_listener serial l + length text ≡ length (listener_line serial l ++ text)
    total =
        omega (arith, length-append (listener_line serial l) text, length-listener_line serial l)

listing-Passes :
    (serial_of : ℕ → Option Bytes) (ls : List Listener)
    → Passes
        (listing serial_of ls)
        (listeners_size serial_of ls)
        (λ n. format_listeners serial_of n ls)
unfolding listeners_size format_listeners
listing-Passes serial_of [] = (refl, λ n h. refl)
listing-Passes serial_of (l ∷ ls) = go (is_star l.connect_to) (listing-Passes serial_of ls)
  where
    serial : Option Bytes
    serial = serial_on serial_of l.transport

    go :
        (b : Bool)
        → Passes
            (listing serial_of ls)
            (listeners_size serial_of ls)
            (λ n. format_listeners serial_of n ls)
        → Passes
            (if b then listing serial_of ls else with_line l serial (listing serial_of ls))
            (if b
              then listeners_size serial_of ls
              else add_line l serial (listeners_size serial_of ls))
            (λ n.
              if b
              then format_listeners serial_of n ls
              else print_line l n serial (λ left. format_listeners serial_of left ls))
    go true h = h
    go false h = line-Passes l serial (listing serial_of ls) _ _ h

-- What the answer must be.
abbrev pub Answers : Option Bytes → Listed → Type 0
Answers none r = r ≡ crashed
Answers (some text) r =
    (r ≡ listed (announce (length text)) text)
    × ((announce (length text) ≡ codes "OKAY" ++ hex4 (length text)) ⊎ (65536 ≤ length text))

announce_short : (n : ℕ) → (announce n ≡ codes "OKAY" ++ hex4 n) ⊎ (65536 ≤ n)
unfolding announce
announce_short n = elim (Bool-cases (ltb n 65536)) [
  | inl e ↦ inl (rw (e) refl)
  | inr e ↦ inr (ground arith)
]

-- The answer to list-forward never writes past its buffer. If each listener but the smart socket's
-- has a transport with a serial number, the text behind the header is the line of every such
-- listener, in order and whole, and the header announces its length, if that is below 65536; else
-- the process ends at a null pointer.
pub list_forward-listing :
    (serial_of : ℕ → Option Bytes) (ls : List Listener)
    → Answers (listing serial_of ls) (list_forward serial_of ls)
unfolding list_forward body_of
list_forward-listing serial_of ls =
    go (listing serial_of ls) (listeners_size serial_of ls) (listing-Passes serial_of ls)
  where
    print : ℕ → Formatted
    print n = format_listeners serial_of n ls

    go :
        (o : Option Bytes) (size : Option ℕ)
        → Passes o size print
        → Answers o
            (elim size as (λ _. Listed) [ none ↦ crashed | some n ↦ body_of n (print (n + 1)) ])
    go none size h = rw (h) refl
    go (some text) size (e, p) =
        let whole : take (length text) text ≡ text = take_all (length text) text (omega arith) in
        (
          rw (e)
              (rw (p (length text + 1) (omega arith)) (ap (listed (announce (length text))) whole)),
          announce_short (length text),
        )
