-- ===== src/Interrupts/Keyboard/Delivery.antt =====
-- kernel/src/interrupts.rs: a scancode that is stored reaches the reader.
use cat.Common.{ℕ, suc, ◌-◌, ◌<◌, ◌≡◌, refl, ap, ◌∙◌, sym, arith}
use cat.Common.{Option, some, List, [], ◌∷◌, ◌++◌, done, ltb, true, Bool-cases, inl, inr}
use cat.Common.{length, get_elem?}
use mathlib.Core.List.{append_assoc}
use cat.Interrupts.Keyboard.{KeyboardBuffer, buffer_size, Event, key, pop, run}
use cat.Interrupts.Keyboard.Refine.{
  IsValid, enqueue, run_queue, waiting, contents, run-refines, length-contents,
}

-- How many pops a history has.
abbrev pub pops : List Event → ℕ
pops [] = 0
pops (key s ∷ events) = pops events
pops (pop ∷ events) = suc (pops events)

-- A scancode behind others leaves the queue with the pop after theirs, whatever arrives meanwhile.
queue_delivers :
    (events : List Event) (before : List ℕ) (s : ℕ) (behind : List ℕ)
    → length before < pops events
    → get_elem? (run_queue events (before ++ (s ∷ behind))) (length before) ≡ some (some s)
unfolding run_queue enqueue
queue_delivers [] before s behind h = absurd (omega arith)
queue_delivers (key k ∷ events) before s behind h =
    elim (Bool-cases (ltb (length (before ++ (s ∷ behind))) (buffer_size - 1))) [
      | inl room ↦
          let moved : (before ++ (s ∷ behind)) ++ (k ∷ []) ≡ before ++ (s ∷ (behind ++ (k ∷ []))) =
            append_assoc before (s ∷ behind) (k ∷ []) in
          rw (room, moved) (queue_delivers events before s (behind ++ (k ∷ [])) h)
      | inr full ↦ rw full (queue_delivers events before s behind h)
    ]
queue_delivers (pop ∷ events) [] s behind h = refl
queue_delivers (pop ∷ events) (b ∷ before) s behind h =
    queue_delivers events before s behind (omega arith)

-- With room in a valid buffer, a scancode that arrives is handed out by the pop after those for the
-- scancodes that wait before it, whatever else arrives, and no call of the history panics.
pub run-delivers :
    (lock : KeyboardBuffer) (s : ℕ) (events : List Event)
    → IsValid lock
    → waiting lock < buffer_size - 1
    → waiting lock < pops events
    → (results : List (Option ℕ)) × (run (key s ∷ events) lock ≡ done results)
      × (get_elem? results (waiting lock) ≡ some (some s))
unfolding run_queue enqueue
run-delivers lock s events v room enough =
    let size = length-contents lock in
    let fits : ltb (length (contents lock)) (buffer_size - 1) ≡ true = ground (arith, size) in
    (
      run_queue (key s ∷ events) (contents lock),
      run-refines (key s ∷ events) lock v,
      rw fits (
          ap (get_elem? (run_queue events (contents lock ++ (s ∷ [])))) (sym size)
          ∙ queue_delivers events (contents lock) s [] (omega (arith, size))),
    )
