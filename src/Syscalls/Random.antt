-- ===== src/Syscalls/Random.antt =====
-- kernel/src/syscalls.rs: what `sys_getrandom` leaves in the buffer.
use cat.Common.{ℕ, zero, suc, ◌+◌, ◌<◌, ◌≡◌}
use cat.Common.{false}
use cat.Syscalls.State.{Kernel, within, store}
use cat.Syscalls.Handlers.{next_seed, random_byte}

-- The seed after `n` steps of the generator.
abbrev pub seed_after : ℕ → ℕ → ℕ
seed_after zero seed = seed
seed_after (suc n) seed = seed_after n (next_seed seed)

-- The loop writes byte `i` of the buffer from the seed after `i + 1` steps, and nothing else.
pub record Randomised (k k' : Kernel) (buf len : ℕ) : Type 0 where
  pub bytes : (i : ℕ) → i < len → k'.memory (buf + i) ≡ random_byte (seed_after (suc i) k.seed)
  pub outside : (a : ℕ) → within buf len a ≡ false → k'.memory a ≡ k.memory a
  pub seed : k'.seed ≡ seed_after len k.seed

abbrev after_one : Kernel → ℕ → Kernel
after_one k ptr = record k {
  seed = next_seed k.seed;
  memory = store ptr 1 (random_byte (next_seed k.seed)) k.memory;
}
