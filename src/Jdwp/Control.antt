-- ===== src/Jdwp/Control.antt =====
-- The control socket of src/adbd/jdwp_service.c: `jdwp_control_init`, `jdwp_control_event` and
-- `init_jdwp`. What the system calls return is an argument.
use adbd.Base.{
  Option, none, some, ℕ, ◌≡◌, refl, Bool, true, false, not, List, [], ◌∷◌, ◌++◌, leb, if◌then◌else◌,
  ==_iff,
}
use adbd.Jdwp.Process.{Process}
use adbd.Jdwp.Runs.{connected}
use adbd.Usb.Open.{without}

-- The results of the calls of `jdwp_control_init`: the socket, and whether bind, listen and
-- fdevent_create went well.
pub record ControlCalls : Type 0 where
  pub sock : Option ℕ
  pub bound : Bool
  pub listening : Bool
  pub created : Bool

-- sizeof(addr.sun_path)
abbrev pub maxpath : ℕ
maxpath = 108

-- Behind the call of socket: `control->listen_socket`, or none for -1, and the open descriptors.
unfoldable pub control_bind : ControlCalls → ℕ → List ℕ → Option ℕ × List ℕ
unfolding without
control_bind c s fds =
    if not c.bound
    then (none, without s (s ∷ fds))
    else if not c.listening
    then (none, without s (s ∷ fds))
    else if not c.created
    then (none, without s (s ∷ fds))
    else (some s, s ∷ fds)

-- `jdwp_control_init` with a name of the given length.
unfoldable pub jdwp_control_init : ControlCalls → ℕ → List ℕ → Option ℕ × List ℕ
unfolding control_bind
jdwp_control_init c socknamelen fds =
    if leb maxpath socknamelen
    then (none, fds)
    else (elim c.sock [ none ↦ (none, fds) | some s ↦ control_bind c s fds ])

-- `init_jdwp`: JDWP_CONTROL_NAME_LEN is 13.
unfoldable pub init_jdwp : ControlCalls → List ℕ → Option ℕ × List ℕ
unfolding jdwp_control_init
init_jdwp c fds = jdwp_control_init c 13 fds

-- What one call of accept comes to.
pub data Accept : Type 0 where
  accepted : ℕ → Accept
  interrupted aborted broke : Accept

-- The loop of `jdwp_control_event` over the calls in turn. With none left the call waits.
unfoldable pub accept_loop : List Accept → Option ℕ
accept_loop [] = none
accept_loop (accepted s ∷ calls) = some s
accept_loop (interrupted ∷ calls) = accept_loop calls
accept_loop (aborted ∷ calls) = none
accept_loop (broke ∷ calls) = none

-- `jdwp_control_event`: the new process stands at the end of the list. `allocated` says whether
-- jdwp_process_alloc gives one.
unfoldable pub jdwp_control_event : Bool → Bool → List Accept → List Process → List Process
unfolding accept_loop
jdwp_control_event readable allocated calls ps =
    if not readable then ps else (elim (accept_loop calls) [
      | none ↦ ps
      | some s ↦ if allocated then ps ++ (connected s ∷ []) else ps
    ])

-- A result none leaves the descriptors as they were, and another one adds the socket to them.
abbrev pub Settled : List ℕ → Option ℕ × List ℕ → Type 0
Settled fds (none, fds') = fds' ≡ fds
Settled fds (some s, fds') = fds' ≡ s ∷ fds

closes_again : (s : ℕ) (fds : List ℕ) → without s (s ∷ fds) ≡ fds
unfolding without
closes_again s fds = rw ((==_iff s s).1 refl) refl

-- Whichever of its calls fails, and for a name of any length: `jdwp_control_init` that returns -1
-- leaves the open descriptors as they were, and when it returns 0 exactly the listening socket has
-- joined them.
pub jdwp_control_init-Settled :
    (c : ControlCalls) (socknamelen : ℕ) (fds : List ℕ)
    → Settled fds (jdwp_control_init c socknamelen fds)
unfolding jdwp_control_init control_bind
jdwp_control_init-Settled c socknamelen fds =
    go (leb maxpath socknamelen) c.sock c.bound c.listening c.created
  where
    go :
        (long : Bool) (sock : Option ℕ) (bound listening created : Bool)
        → Settled fds (
            if long then (none, fds) else (elim sock as (λ _. Option ℕ × List ℕ) [
              | none ↦ (none, fds)
              | some s ↦
                  control_bind
                    (record {
                      sock = sock;
                      bound = bound;
                      listening = listening;
                      created = created;
                    })
                    s
                    fds
            ]))
    go true sock bound listening created = refl
    go false none bound listening created = refl
    go false (some s) false listening created = closes_again s fds
    go false (some s) true false created = closes_again s fds
    go false (some s) true true false = closes_again s fds
    go false (some s) true true true = refl
