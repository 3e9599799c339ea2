-- ===== src/Syscalls/Ending.antt =====
-- kernel/src/syscalls.rs: the calls that do not come back, and the numbers that no arm handles.
use cat.Common.{ℕ, ◌≡◌, refl, arith, ◌∙◌, Option, none, some, List, [], ◌∷◌, ◌==◌, ◌||◌, ◌&&◌}
use cat.Common.{if◌then◌else◌}
use cat.Syscalls.State.{
  Kernel, ret, halted, kernel_panic, errno, emit, entered, unhandled, returned,
}
use cat.Common.{Bool, true, false, ◌≢◌, sym}
use cat.Syscalls.State.{Reply}
use cat.Syscalls.Dispatch.{log_result, Number, number_of, call, handle_syscall}
use cat.Syscalls.Handlers.{sys_exit, sys_arch_prctl}

-- How a call ends.
pub data Ending : Type 0 where
  returns halts panics : Ending

abbrev pub ending : Reply → Ending
ending (ret r k) = returns
ending (halted k) = halts
ending kernel_panic = panics

-- The ending by the number and the arguments alone, where prints and accesses to memory succeed.
abbrev expected_ending : (ℕ → Option ℕ) → ℕ → ℕ → ℕ → Ending
expected_ending va nr a1 a2 =
    if nr == 60 || nr == 231
    then halts
    else if nr == 158 && (a1 == 0x1002 || a1 == 0x1001)
    then elim (va a2) [ none ↦ panics | some base ↦ returns ]
    else returns

ending-log_result : (r : Reply) → ending (log_result r) ≡ ending r
ending-log_result (ret r k) = refl
ending-log_result (halted k) = refl
ending-log_result kernel_panic = refl

-- The ending by the arm of the `match`.
abbrev ending_of : (ℕ → Option ℕ) → Number → ℕ → ℕ → Ending
ending_of va Number.exit a1 a2 = halts
ending_of va Number.exit_group a1 a2 = halts
ending_of va Number.arch_prctl a1 a2 =
    if a1 == 0x1002 || a1 == 0x1001
    then elim (va a2) [ none ↦ panics | some base ↦ returns ]
    else returns
ending_of va _ a1 a2 = returns

ending-call :
    (va : ℕ → Option ℕ) (n : Number) (k : Kernel) (nr a1 a2 a3 a4 : ℕ)
    → ending (call va n k nr a1 a2 a3 a4) ≡ ending_of va n a1 a2
unfolding call sys_exit sys_arch_prctl
ending-call va Number.read k nr a1 a2 a3 a4 = refl
ending-call va _ k nr a1 a2 a3 a4 = ground arith

ending-number_of :
    (va : ℕ → Option ℕ) (nr a1 a2 : ℕ)
    → ending_of va (number_of nr) a1 a2 ≡ expected_ending va nr a1 a2
unfolding number_of
ending-number_of va nr a1 a2 = ground arith

ending-handle_syscall :
    (va : ℕ → Option ℕ) (k : Kernel) (nr a1 a2 a3 a4 a5 a6 : ℕ)
    → ending (handle_syscall va k nr a1 a2 a3 a4 a5 a6) ≡ expected_ending va nr a1 a2
unfolding handle_syscall
ending-handle_syscall va k nr a1 a2 a3 a4 a5 a6 =
    ending-log_result (call va (number_of nr) (emit k (entered nr a1 a2 a3 ∷ [])) nr a1 a2 a3 a4)
    ∙ ending-call va (number_of nr) (emit k (entered nr a1 a2 a3 ∷ [])) nr a1 a2 a3 a4
    ∙ ending-number_of va nr a1 a2

abbrev is_refused : Option ℕ → Bool
is_refused none = true
is_refused (some base) = false

-- The calls that end the program, or the kernel.
abbrev pub is_last : (ℕ → Option ℕ) → ℕ → ℕ → ℕ → Bool
is_last va nr a1 a2 =
    (nr == 60 || nr == 231) || ((nr == 158 && (a1 == 0x1002 || a1 == 0x1001)) && is_refused (va a2))

not_back :
    (exits sets : Bool) (base : Option ℕ)
    → (exits || (sets && is_refused base)) ≡ true
    → (if exits
        then halts
        else if sets
        then elim base [ none ↦ panics | some b ↦ returns ]
        else returns)
      ≢ returns
not_back true sets base h e = absurd cc
not_back false true none h e = absurd cc
not_back false true (some b) h e = absurd cc
not_back false false base h e = absurd cc

-- `exit` and `exit_group`, and `arch_prctl` where it is to set the FS or the GS base to an address
-- that `VirtAddr::new` refuses, do not come back to the program.
pub handle_syscall-stops :
    (va : ℕ → Option ℕ) (k : Kernel) (nr a1 a2 a3 a4 a5 a6 : ℕ)
    → is_last va nr a1 a2 ≡ true
    → ending (handle_syscall va k nr a1 a2 a3 a4 a5 a6) ≢ returns
handle_syscall-stops va k nr a1 a2 a3 a4 a5 a6 last back =
    not_back (nr == 60 || nr == 231) (nr == 158 && (a1 == 0x1002 || a1 == 0x1001)) (va a2) last
      (sym (ending-handle_syscall va k nr a1 a2 a3 a4 a5 a6) ∙ back)

-- The numbers of the arms of the `match`.
abbrev pub handled : List ℕ
handled =
    0 ∷ 1 ∷ 5 ∷ 7 ∷ 9 ∷ 10 ∷ 11 ∷ 12 ∷ 13 ∷ 14 ∷ 16 ∷ 20 ∷ 28 ∷ 60 ∷ 131 ∷ 158 ∷ 218 ∷ 231 ∷ 318
    ∷ []

abbrev pub contains : List ℕ → ℕ → Bool
contains [] n = false
contains (m ∷ ms) n = n == m || contains ms n

number_of-other : (nr : ℕ) → contains handled nr ≡ false → number_of nr ≡ Number.other
unfolding number_of
number_of-other nr h = ground arith

-- A number that no arm handles fails with `ENOSYS`, is reported, and changes nothing but the
-- output: among these are `close`, `pread64`, `pwrite64`, `futex` and `clock_gettime`, which have a
-- constant.
pub handle_syscall-unhandled :
    (va : ℕ → Option ℕ) (k : Kernel) (nr a1 a2 a3 a4 a5 a6 : ℕ)
    → contains handled nr ≡ false
    → handle_syscall va k nr a1 a2 a3 a4 a5 a6
      ≡ ret (errno 38) (
          emit
            (emit (emit k (entered nr a1 a2 a3 ∷ [])) (unhandled nr ∷ []))
            (returned (errno 38) ∷ []))
unfolding handle_syscall call
handle_syscall-unhandled va k nr a1 a2 a3 a4 a5 a6 h = rw (number_of-other nr h) refl
