-- ===== src/Container/Down/Wait.antt =====
-- The wait of `down` for a process to end, as the loop over its two channels.
use zylo.Prelude.{◌≡◌, refl, Bool, true, false, not, Option, none, some, List, [], ◌∷◌, ◌++◌, any}

-- What `select` takes next: the timer of ten seconds, or a tick with whether the process lives.
pub data Event : Type 0 where
  timeout : Event
  tick : Bool → Event

pub data Signal : Type 0 where
  sigterm sigkill : Signal

-- The rest of the loop, with the signals sent from here on; nothing where the events end first.
unfoldable pub wait_rest : List Event → Option (List Signal)
wait_rest [] = none
wait_rest (timeout ∷ es) = elim (wait_rest es) [ none ↦ none | some sent ↦ some (sigkill ∷ sent) ]
wait_rest (tick true ∷ es) = wait_rest es
wait_rest (tick false ∷ es) = some []

unfoldable pub wait_loop : List Event → Option (List Signal)
unfolding wait_rest
wait_loop es = elim (wait_rest es) [ none ↦ none | some sent ↦ some (sigterm ∷ sent) ]

abbrev pub is_death : Event → Bool
is_death timeout = false
is_death (tick alive) = not alive

-- A SIGKILL for each time that the timer fires.
abbrev pub kills : List Event → List Signal
kills [] = []
kills (timeout ∷ es) = sigkill ∷ kills es
kills (tick alive ∷ es) = kills es

wait_rest-alive :
    (es : List Event)
    → any is_death es ≡ false
    → (wait_rest es ≡ none)
      × ((rest : List Event) → wait_rest (es ++ tick false ∷ rest) ≡ some (kills es))
unfolding wait_rest
wait_rest-alive [] h = (refl, λ rest. refl)
wait_rest-alive (timeout ∷ es) h =
    let (never, ends) = wait_rest-alive es h in (rw never refl, λ rest. rw (ends rest) refl)
wait_rest-alive (tick true ∷ es) h = wait_rest-alive es h
wait_rest-alive (tick false ∷ es) h = absurd (cc)

-- As long as every tick finds the process alive, the wait does not end; the first tick that finds it
-- gone ends it, whatever would come later, and then SIGTERM was sent once, first, and SIGKILL once for
-- each time that the timer had fired.
pub wait_loop-death :
    (es rest : List Event)
    → any is_death es ≡ false
    → (wait_loop es ≡ none) × (wait_loop (es ++ tick false ∷ rest) ≡ some (sigterm ∷ kills es))
unfolding wait_loop
wait_loop-death es rest h =
    let (never, ends) = wait_rest-alive es h in
    (rw (wait_loop, never) refl, rw (wait_loop, ends rest) refl)
