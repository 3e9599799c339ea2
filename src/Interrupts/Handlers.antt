-- ===== src/Interrupts/Handlers.antt =====
-- kernel/src/interrupts.rs: `timer_handler` and `keyboard_handler`, with the calls of `pop_scancode`
-- between them. Interrupts are off in a handler and in `pop_scancode`, so these are whole steps.
-- The byte at port 0x60 comes with the interrupt.
mod Tests
use cat.Common.{ℕ, zero, suc, ◌+◌, ◌-◌, ◌%◌, ◌^◌, ◌<◌, ◌≤◌, ◌≡◌, refl, ap, ◌∙◌, sym, arith, u64}
use cat.Common.{Option, none, some, List, [], ◌∷◌, ◌++◌, Run, done, ◌>>=◌, Ends, Ends-bind}
use mathlib.Core.List.{append_assoc, append-nil}
use cat.Interrupts.Keyboard.{KeyboardBuffer, Event, key, pop, add_scancode, pop_scancode}
use cat.Interrupts.Keyboard.Refine.{
  IsValid, run_queue, enqueue, contents, add_scancode_lem, Popped, pop_scancode-Popped, empty,
  oldest,
}
use cat.Interrupts.Timer.{InterruptIndex, timer, keyboard, as_u8, tick}

-- `acknowledged` lists the numbers that `notify_end_of_interrupt` was called with.
pub record Controller : Type 0 where
  pub ticks : ℕ
  pub buffer : KeyboardBuffer
  pub acknowledged : List ℕ
  pub popped : List (Option ℕ)

pub notify_end_of_interrupt : Controller → ℕ → Controller
notify_end_of_interrupt c id = record c { acknowledged = c.acknowledged ++ (id ∷ []) }

pub timer_handler : Controller → Controller
timer_handler c = notify_end_of_interrupt (record c { ticks = tick c.ticks }) (as_u8 timer)

pub keyboard_handler : Controller → ℕ → Run Controller
keyboard_handler c scancode = add_scancode c.buffer scancode >>= λ buffer.
    done (notify_end_of_interrupt (record c { buffer = buffer }) (as_u8 keyboard))

-- What happens to the kernel, one after the other.
pub data Happening : Type 0 where
  timer_fires reader_pops : Happening
  key_pressed : ℕ → Happening

pub happen : Happening → Controller → Run Controller
happen timer_fires c = done (timer_handler c)
happen (key_pressed s) c = keyboard_handler c s
happen reader_pops c = pop_scancode c.buffer >>= λ (r, buffer).
    done (record c { buffer = buffer; popped = c.popped ++ (r ∷ []) })

pub happen_all : List Happening → Controller → Run Controller
happen_all [] c = done c
happen_all (h ∷ hs) c = happen h c >>= happen_all hs

-- The interrupts of a history by their numbers, its key presses and pops, and its ticks.
abbrev pub numbers : List Happening → List ℕ
numbers [] = []
numbers (timer_fires ∷ hs) = 32 ∷ numbers hs
numbers (key_pressed s ∷ hs) = 33 ∷ numbers hs
numbers (reader_pops ∷ hs) = numbers hs

abbrev pub events_of : List Happening → List Event
events_of [] = []
events_of (timer_fires ∷ hs) = events_of hs
events_of (key_pressed s ∷ hs) = key s ∷ events_of hs
events_of (reader_pops ∷ hs) = pop ∷ events_of hs

abbrev pub ticks_of : List Happening → ℕ
ticks_of [] = 0
ticks_of (timer_fires ∷ hs) = suc (ticks_of hs)
ticks_of (key_pressed s ∷ hs) = ticks_of hs
ticks_of (reader_pops ∷ hs) = ticks_of hs

pub record Handled (hs : List Happening) (c d : Controller) : Type 0 where
  pub ticks : d.ticks % 2 ^ 64 ≡ (c.ticks + ticks_of hs) % 2 ^ 64
  pub acknowledged : d.acknowledged ≡ c.acknowledged ++ numbers hs
  pub popped : d.popped ≡ c.popped ++ run_queue (events_of hs) (contents c.buffer)
  pub valid : IsValid d.buffer

-- Over any history of interrupts and pops, from a valid buffer, nothing panics; each interrupt is
-- acknowledged once, by its number and in order; the ticks count the timer's interrupts modulo
-- 2^64; and the pops return what the queue of scancodes returns, the timer notwithstanding.
pub happen_all-Handled :
    (hs : List Happening) (c : Controller)
    → IsValid c.buffer
    → Ends (happen_all hs c) (Handled hs c)
unfolding happen_all happen timer_handler keyboard_handler notify_end_of_interrupt tick as_u8
    run_queue
happen_all-Handled [] c v = record {
  value = c;
  ends = refl;
  holds = record {
    ticks = omega arith;
    acknowledged = sym (append-nil c.acknowledged);
    popped = sym (append-nil c.popped);
    valid = v;
  };
}
happen_all-Handled (timer_fires ∷ hs) c v =
    let later = happen_all-Handled hs (timer_handler c) v in
    record {
      value = later.value;
      ends = later.ends;
      holds = record {
        ticks = omega (arith, later.holds.ticks);
        acknowledged =
            later.holds.acknowledged ∙ append_assoc c.acknowledged (32 ∷ []) (numbers hs);
        popped = later.holds.popped;
        valid = later.holds.valid;
      };
    }
happen_all-Handled (key_pressed s ∷ hs) c v =
    let (after, e, v', q) = add_scancode_lem c.buffer s v in
    let next = notify_end_of_interrupt (record c { buffer = after }) 33 in
    let later = happen_all-Handled hs next v' in
    rw e (record {
      value = later.value;
      ends = later.ends;
      holds = record {
        ticks = later.holds.ticks;
        acknowledged =
            later.holds.acknowledged ∙ append_assoc c.acknowledged (33 ∷ []) (numbers hs);
        popped = later.holds.popped ∙ ap (λ (x : List ℕ). c.popped ++ run_queue (events_of hs) x) q;
        valid = later.holds.valid;
      };
    })
happen_all-Handled (reader_pops ∷ hs) c v = elim (pop_scancode-Popped c.buffer v) [
  | empty e q ↦
      let next = record c { popped = c.popped ++ (none ∷ []) } in
      let later = happen_all-Handled hs next v in
      rw e (record {
        value = later.value;
        ends = later.ends;
        holds = record {
          ticks = later.holds.ticks;
          acknowledged = later.holds.acknowledged;
          popped =
              later.holds.popped
              ∙ append_assoc c.popped (none ∷ []) _
              ∙ ap (λ (x : List (Option ℕ)). c.popped ++ x)
                  (ap (λ (x : List ℕ). none ∷ run_queue (events_of hs) x) q
                    ∙ sym (ap (run_queue (pop ∷ events_of hs)) q));
          valid = later.holds.valid;
        };
      })
  | oldest s after e v' q ↦
      let next = record c { buffer = after; popped = c.popped ++ (some s ∷ []) } in
      let later = happen_all-Handled hs next v' in
      rw e (record {
        value = later.value;
        ends = later.ends;
        holds = record {
          ticks = later.holds.ticks;
          acknowledged = later.holds.acknowledged;
          popped =
              later.holds.popped
              ∙ append_assoc c.popped (some s ∷ []) _
              ∙ ap (λ (x : List (Option ℕ)). c.popped ++ x)
                  (sym (ap (run_queue (pop ∷ events_of hs)) q));
          valid = later.holds.valid;
        };
      })
]
