-- ===== src/Jdwp/Handling.antt =====
-- What one connection or event does to a JDWP process (src/adbd/jdwp_service.c) and its queue.
use adbd.Jdwp.Process.{
  After, ReadEnd, read_unknown, read_known, freed, goes_on, returns, short_of_fuel,
}
use adbd.Jdwp.Passing.{Event, int_negative, announced, write_part, jdwp_process_event}
use adbd.Jdwp.Reading.{read_known-Delivers, read_unknown-Delivers, ReadDelivers}
use adbd.Base.{
  Option, none, some, ℕ, suc, ◌+◌, ◌-◌, ◌<◌, ◌≡◌, refl, sym, ap, ◌∙◌, Bool, true, false, not, List,
  [], ◌∷◌, ◌++◌, append-nil, append_assoc, arith, leb, ◌==◌, if◌then◌else◌, take, set, get_or,
}
use adbd.Jdwp.Process.{Process, Log, jdwp_process_free, kept}
use adbd.Jdwp.Passing.{Calls, sendmsg_loop, after_send, pass_event, add_fd, connect_process}
use adbd.Jdwp.Fifo.{take-set, length-set, Delivers, free-Delivers, take_one-Delivers}

pub pass_event-Delivers :
    (s : ℕ) (q : List ℕ) (p : Process) (l : Log) (c : Calls)
    → c.restored ≡ true
    → Delivers s q (kept false p l)
    → Delivers s q (pass_event p l c)
unfolding pass_event
pass_event-Delivers s q p l c r h =
    go (p.out_count == 0) c.getfl c.setfl (sendmsg_loop c.sends) refl
  where
    ends : Delivers s q (jdwp_process_free p l)
    ends = free-Delivers s q p l h

    go :
        (empty getfl setfl sent : Bool)
        → (p.out_count == 0) ≡ empty
        → Delivers s q (
            if empty
            then kept false p l
            else if not getfl
            then jdwp_process_free p l
            else if not setfl
            then jdwp_process_free p l
            else if not sent
            then jdwp_process_free p l
            else after_send p l (get_or p.out_fds 0 0) c.restored)
    go true getfl setfl sent e = h
    go false false setfl sent e = ends
    go false true false sent e = ends
    go false true true false e = ends
    go false true true true e = rw r (take_one-Delivers s q p l (p.out_count - 1) (ground arith) h)

-- The queue after a connection that found the process.
abbrev pub taken_on : Option ℕ × Process → Option (ℕ × ℕ) → List ℕ
taken_on (none, p) pair = []
taken_on (some near, p) none = []
taken_on (some near, p) (some (n, far)) = far ∷ []

pub add_fd-Delivers :
    (s : ℕ) (q : List ℕ) (p : Process) (l : Log) (far : ℕ)
    → p.out_count < 4
    → Delivers s q (kept false p l)
    → Delivers s (q ++ (far ∷ [])) (kept false (add_fd p far) l)
unfolding add_fd
add_fd-Delivers s q p l far less (v, same, has, c) = (
  record {
    slots = length-set p.out_count far p.out_fds ∙ v.slots;
    in_slots = omega arith;
    watched = wakes v.watched;
    in_buffer = v.in_buffer;
  },
  same,
  longer,
  c,
)
  where
    wakes :
        p.writable ≡ not (p.out_count == 0)
        → (if p.out_count + 1 == 1 then true else p.writable) ≡ not (p.out_count + 1 == 0)
    wakes w = ground arith

    next : p.out_count + 1 ≡ suc p.out_count
    next = omega arith

    longer : l.passed ++ take (p.out_count + 1) (set p.out_fds p.out_count far) ≡ q ++ (far ∷ [])
    longer =
        ap (λ k. l.passed ++ take k (set p.out_fds p.out_count far)) next
        ∙ ap (λ u. l.passed ++ u) (take-set p.out_count far p.out_fds (omega (arith, v.slots)))
        ∙ sym (append_assoc l.passed (take p.out_count p.out_fds) (far ∷ []))
        ∙ ap (λ u. u ++ (far ∷ [])) has

pub connect_process-Delivers :
    (s : ℕ) (q : List ℕ) (p : Process) (l : Log) (pair : Option (ℕ × ℕ))
    → Delivers s q (kept false p l)
    → Delivers s
        (q ++ taken_on (connect_process p pair) pair)
        (kept false (connect_process p pair).1 l)
unfolding connect_process
connect_process-Delivers s q p l pair h = go (leb 4 p.out_count) pair refl
  where
    nothing : Delivers s (q ++ []) (kept false p l)
    nothing = rw append-nil h

    go :
        (full : Bool) (pair : Option (ℕ × ℕ))
        → leb 4 p.out_count ≡ full
        → let r = if full then (none, p) else (elim pair as (λ _. Option ℕ × Process) [
          | none ↦ (none, p)
          | some (near, far) ↦ (some near, add_fd p far)
        ]) in
          Delivers s (q ++ taken_on r pair) (kept false r.1 l)
    go true pair e = nothing
    go false none e = nothing
    go false (some (near, far)) e = add_fd-Delivers s q p l far (ground arith) h

pub write_part-Delivers :
    (s : ℕ) (q : List ℕ) (e : Event) (a : After)
    → e.calls.restored ≡ true
    → Delivers s q a
    → Delivers s q (write_part e a)
unfolding pass_event write_part
write_part-Delivers s q e (kept u p l) r h = go e.can_write
  where
    said : (a : After) → Delivers s q a → Delivers s q (announced u a)
    said (kept v p' l') h' = h'
    said (freed l') h' = h'

    go : (b : Bool) → Delivers s q (if b then announced u (pass_event p l e.calls) else kept u p l)
    go true = said (pass_event p l e.calls) (pass_event-Delivers s q p l e.calls r h)
    go false = h
write_part-Delivers s q e (freed l) r h = h

-- What the handler leaves, with its fuel.
abbrev pub Handles : ℕ → List ℕ → Option After → Type 0
Handles s q none = ⊥
Handles s q (some a) = Delivers s q a

pub jdwp_process_event-Handles :
    (s : ℕ) (q : List ℕ) (p : Process) (l : Log) (e : Event)
    → e.calls.restored ≡ true
    → Delivers s q (kept false p l)
    → Handles s q (jdwp_process_event p l e)
unfolding jdwp_process_event
jdwp_process_event-Handles s q p l e r h = go e.readable (int_negative p.pid)
  where
    rest :
        (x : ReadEnd)
        → ReadDelivers s q x
        → Handles s q (elim x [
          | goes_on a ↦ some (write_part e a)
          | returns a ↦ some a
          | short_of_fuel ↦ none
        ])
    rest (goes_on a) k = write_part-Delivers s q e a r k
    rest (returns a) k = k
    rest short_of_fuel k = k

    go :
        (readable negative : Bool)
        → Handles s q (
            if not readable
            then some (write_part e (kept false p l))
            else (elim (if negative then read_unknown p l e.input else read_known p l e.input) [
              | goes_on a ↦ some (write_part e a)
              | returns a ↦ some a
              | short_of_fuel ↦ none
            ]))
    go false negative = write_part-Delivers s q e (kept false p l) r h
    go true true = rest (read_unknown p l e.input) (read_unknown-Delivers s q p l h e.input)
    go true false = rest (read_known p l e.input) (read_known-Delivers s q p l h e.input)
