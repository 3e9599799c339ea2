-- ===== src/Interrupts/Keyboard/Refine.antt =====
-- kernel/src/interrupts.rs: the ring of scancodes behaves as a queue that drops what exceeds 63.
use cat.Common.{ℕ, zero, suc, ◌+◌, ◌-◌, ◌%◌, ◌<◌, ◌≡◌, ◌≢◌, refl, ap, ap₂, ◌∙◌, sym, arith}
use cat.Common.{Option, none, some, List, [], ◌∷◌, ◌++◌, done, ltb, ◌==◌, Bool-cases}
use cat.Common.{inl, inr, if◌then◌else◌, length, get_or, set, length-set, get_elem?-eq-get_or}
use cat.Common.{get_or-set_self, get_or-set_ne, bind-done}
use cat.Interrupts.Keyboard.{KeyboardBuffer, buffer_size, add_scancode, pop_scancode, Event, key}
use cat.Interrupts.Keyboard.{pop, run}

-- The specification: scancodes in the order of arrival, at most 63 of them.
unfoldable pub enqueue : ℕ → List ℕ → List ℕ
enqueue s q = if ltb (length q) (buffer_size - 1) then q ++ (s ∷ []) else q

unfoldable pub run_queue : List Event → List ℕ → List (Option ℕ)
unfolding enqueue
run_queue [] q = []
run_queue (key s ∷ events) q = run_queue events (enqueue s q)
run_queue (pop ∷ events) [] = none ∷ run_queue events []
run_queue (pop ∷ events) (s ∷ q) = some s ∷ run_queue events q

pub record IsValid (lock : KeyboardBuffer) : Type 0 where
  pub sized : length lock.buffer ≡ buffer_size
  pub head_in : lock.head < buffer_size
  pub tail_in : lock.tail < buffer_size

-- How many scancodes wait, and which: `n` of them from index `t` on, round the end of the array.
abbrev pub waiting : KeyboardBuffer → ℕ
waiting lock = (lock.head + buffer_size - lock.tail) % buffer_size

abbrev pub from_tail : List ℕ → ℕ → ℕ → List ℕ
from_tail buffer t zero = []
from_tail buffer t (suc n) = get_or buffer t 0 ∷ from_tail buffer ((t + 1) % buffer_size) n

abbrev pub contents : KeyboardBuffer → List ℕ
contents lock = from_tail lock.buffer lock.tail (waiting lock)

length-from_tail : (buffer : List ℕ) (t n : ℕ) → length (from_tail buffer t n) ≡ n
length-from_tail buffer t zero = refl
length-from_tail buffer t (suc n) = ap suc (length-from_tail buffer ((t + 1) % buffer_size) n)

pub length-contents : (lock : KeyboardBuffer) → length (contents lock) ≡ waiting lock
length-contents lock = length-from_tail lock.buffer lock.tail (waiting lock)

-- A write at the free slot behind the last of `n` scancodes adds it to them.
from_tail-set :
    (n t i s : ℕ) (buffer : List ℕ)
    → length buffer ≡ buffer_size
    → t < buffer_size
    → n < buffer_size
    → i ≡ (t + n) % buffer_size
    → from_tail (set buffer i s) t (suc n) ≡ from_tail buffer t n ++ (s ∷ [])
from_tail-set zero t i s buffer e ht hn ei =
    let here : i ≡ t = omega arith in
    rw here (ap (λ v. v ∷ []) (get_or-set_self buffer t s 0 (omega arith)))
from_tail-set (suc n) t i s buffer e ht hn ei =
    ap₂ ◌∷◌ (get_or-set_ne buffer i t s 0 (λ same. omega arith)) (
      from_tail-set n ((t + 1) % buffer_size) i s buffer e (omega arith) (omega arith)
        (omega arith))

-- `add_scancode` never panics on a valid buffer, keeps it valid, and enqueues.
pub add_scancode_lem :
    (lock : KeyboardBuffer) (s : ℕ)
    → IsValid lock
    → (after : KeyboardBuffer) × (add_scancode lock s ≡ done after)
      × IsValid after
      × (contents after ≡ enqueue s (contents lock))
unfolding add_scancode enqueue
add_scancode_lem lock s v =
    let size = length-from_tail lock.buffer lock.tail (waiting lock) in
    elim (Bool-cases ((lock.head + 1) % buffer_size == lock.tail)) [
      | inl full ↦ (lock, rw full refl, v, ground (arith, size))
      | inr room ↦ (
        record lock { buffer = set lock.buffer lock.head s; head = (lock.head + 1) % buffer_size },
        ground arith,
        record {
          sized = length-set lock.buffer lock.head s ∙ v.sized;
          head_in = omega arith;
          tail_in = v.tail_in;
        },
        let grown : ((lock.head + 1) % buffer_size + buffer_size - lock.tail) % buffer_size
                ≡ suc (waiting lock) =
              ground arith in
            let queued : enqueue s (contents lock) ≡ contents lock ++ (s ∷ []) =
              ground (arith, size) in
            rw grown (
              from_tail-set (waiting lock) lock.tail lock.head s lock.buffer v.sized v.tail_in
                (omega arith) (ground arith)
              ∙ sym queued),
      )
    ]

from_tail_of_ne :
    (buffer : List ℕ) (t n : ℕ)
    → n ≢ 0
    → from_tail buffer t n ≡ get_or buffer t 0 ∷ from_tail buffer ((t + 1) % buffer_size) (n - 1)
from_tail_of_ne buffer t zero h = absurd (h refl)
from_tail_of_ne buffer t (suc n) h = ap (λ k. from_tail buffer t (suc k)) (omega arith)

-- What `pop_scancode` does to a valid buffer: nothing to an empty one, else the oldest goes.
pub data Popped (lock : KeyboardBuffer) : Type 0 where
  empty : pop_scancode lock ≡ done (none, lock) → contents lock ≡ [] → Popped lock
  oldest :
      (s : ℕ) (after : KeyboardBuffer)
      → pop_scancode lock ≡ done (some s, after)
      → IsValid after
      → contents lock ≡ s ∷ contents after
      → Popped lock

pub pop_scancode-Popped : (lock : KeyboardBuffer) → IsValid lock → Popped lock
unfolding pop_scancode
pop_scancode-Popped lock v = elim (Bool-cases (lock.head == lock.tail)) [
  | inl same ↦
      let none_wait : waiting lock ≡ 0 = ground arith in empty (rw same refl) (rw none_wait refl)
  | inr differ ↦
      let some_wait : waiting lock ≢ 0 = λ e. ground arith in
      let fewer : waiting lock - 1
          ≡ (lock.head + buffer_size - (lock.tail + 1) % buffer_size) % buffer_size =
        ground arith in
      oldest (get_or lock.buffer lock.tail 0) (record lock { tail = (lock.tail + 1) % buffer_size })
        (ground (arith, get_elem?-eq-get_or lock.buffer lock.tail 0 (omega (arith, v.sized))))
        (record { sized = v.sized; head_in = v.head_in; tail_in = omega arith })
        (from_tail_of_ne lock.buffer lock.tail (waiting lock) some_wait
          ∙ ap
              (λ k.
                get_or lock.buffer lock.tail 0
                ∷ from_tail lock.buffer ((lock.tail + 1) % buffer_size) k)
              fewer)
]

-- Over any history of key presses and pops, a valid buffer panics nowhere and hands out what the
-- queue of its contents hands out: the scancodes in the order of arrival, less those that came
-- while 63 were waiting.
pub run-refines :
    (events : List Event) (lock : KeyboardBuffer)
    → IsValid lock
    → run events lock ≡ done (run_queue events (contents lock))
unfolding run run_queue
run-refines [] lock v = refl
run-refines (key s ∷ events) lock v =
    let (after, e, v', c) = add_scancode_lem lock s v in
    bind-done _ _ e (run-refines events after v' ∙ ap (λ q. done (run_queue events q)) c)
run-refines (pop ∷ events) lock v = elim (pop_scancode-Popped lock v) [
  | empty e c ↦ bind-done _ _ e (
      bind-done _ _ (run-refines events lock v ∙ ap (λ q. done (run_queue events q)) c)
        (sym (ap (λ q. done (run_queue (pop ∷ events) q)) c)))
  | oldest s after e v' c ↦ bind-done _ _ e (
      bind-done _ _ (run-refines events after v')
        (sym (ap (λ q. done (run_queue (pop ∷ events) q)) c)))
]
