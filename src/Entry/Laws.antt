-- ===== src/Entry/Laws.antt =====
-- kernel/src/syscalls.rs: what `syscall_entry` passes on, what it restores, and where its stack is.
use cat.Common.{ℕ, ◌+◌, ◌-◌, ◌%◌, ◌^◌, ◌≡◌, ◌≢◌, refl, arith, List, [], ◌∷◌, Run}
use cat.Common.{zero, suc, ◌*◌, panic, fault, done, none, some, u64}
use cat.Entry.{Machine, Reg, Registers, run, syscall_entry, init_syscall_stack}
use cat.Entry.{rax, rcx, rdx, rsi, rdi, r8, r9, r10, r11}

abbrev pub entered : Registers → Machine
entered user = record { regs = user; stack = []; temp_rsp = 0; called = []; returned = none }

abbrev pub call_arguments : Registers → List ℕ
call_arguments user = user rax ∷ user rdi ∷ user rsi ∷ user rdx ∷ user r10 ∷ user r8 ∷ user r9 ∷ []

-- The stack pointer after a push, and after as many as stand before the call.
abbrev pushed : ℕ → ℕ
pushed sp = u64 (sp + 2 ^ 64 - 8)

abbrev pub pushes : ℕ → ℕ → ℕ
pushes zero sp = sp
pushes (suc n) sp = pushes n (pushed sp)

-- `r` is a system call that came back from a handler: the handler's result is in RAX, every other
-- register is as it was, and the handler was called once.
pub record Returns (top : ℕ) (handler : List ℕ → Registers) (user : Registers) (r : Run Machine)
    : Type 0 where
  pub machine : Machine
  pub returns : r ≡ done machine
  pub result : machine.regs rax ≡ handler (call_arguments user) rax
  pub restores : (reg : Reg) → reg ≢ rax → machine.regs reg ≡ user reg
  pub resumes : machine.returned ≡ some (user rcx, user r11)
  pub balanced : machine.stack ≡ []
  pub called : machine.called ≡ (call_arguments user, pushes 16 top) ∷ []

abbrev value : Run Machine → Machine → Machine
value (done m) other = m
value panic other = other
value fault other = other

module _ (top : ℕ) (handler : List ℕ → Registers) (user : Registers) where
  after : Machine
  unfolding run syscall_entry
  after = value (run top handler syscall_entry (entered user)) (entered user)

  after-restores : (reg : Reg) → reg ≢ rax → after.regs reg ≡ user reg
  unfolding after
  after-restores rax h = absurd (h refl)
  after-restores _ h = refl

  -- `syscall_entry` calls the handler once, with the number and the six arguments in their order,
  -- and returns to the user's instruction and flags with every register but RAX as it was, the
  -- stack pointer included, and the handler's result in RAX.
  pub syscall_entry-Returns :
      Returns top handler user (run top handler syscall_entry (entered user))
  unfolding after
  syscall_entry-Returns = record {
    machine = after;
    returns = refl;
    result = refl;
    restores = after-restores;
    resumes = refl;
    balanced = refl;
    called = refl;
  }

pushed-mod : (sp : ℕ) → pushed sp % 16 ≡ (sp + 8) % 16
pushed-mod sp = omega arith

pushes-mod : (n sp : ℕ) → pushes n sp % 16 ≡ (sp + 8 * n) % 16
pushes-mod zero sp = omega arith
pushes-mod (suc n) sp = omega (arith, pushes-mod n (pushed sp), pushed-mod sp)

-- `r` is a run that calls the handler once, with the stack pointer 8 off a 16-byte boundary.
pub record CallsMisaligned (arguments : List ℕ) (r : Run Machine) : Type 0 where
  pub machine : Machine
  pub returns : r ≡ done machine
  pub pointer : ℕ
  pub called : machine.called ≡ (arguments, pointer) ∷ []
  pub off : pointer % 16 ≡ 8

-- With the array of the kernel's stack on a 16-byte boundary, syscall_entry, run on the top that
-- init_syscall_stack stores, calls the handler with the stack pointer 8 off such a boundary, where
-- the System V calling convention wants it on one.
pub syscall_entry-CallsMisaligned :
    (stack_ptr : ℕ) (handler : List ℕ → Registers) (user : Registers)
    → stack_ptr % 16 ≡ 0
    → CallsMisaligned
        (call_arguments user)
        (run (init_syscall_stack stack_ptr) handler syscall_entry (entered user))
syscall_entry-CallsMisaligned stack_ptr handler user h =
    let top = init_syscall_stack stack_ptr in
    let back = syscall_entry-Returns top handler user in
    record {
      machine = back.machine;
      returns = back.returns;
      pointer = pushes 16 top;
      called = back.called;
      off = omega (arith, pushes-mod 16 top);
    }
