-- ===== src/Console/Sample.antt =====
-- shared/src/serial.rs: locks that are a flag, and a port that keeps what it gets and refuses texts
-- with a zero in front.
use cat.Common.{
  ℕ, ◌+◌, ◌≡◌, refl, Bool, true, false, not, Option, none, some, List, [], ◌∷◌, ◌++◌, ◌==◌,
}
use cat.Screen.Sample.{writer}
use cat.Console.{Crates, Console, Code}
use cat.Console.Documented.{Taken, IsLock, IsCritical, restore, masked}

abbrev pub acquire : Bool → Option Bool
acquire true = none
acquire false = some true

abbrev pub accepts : List ℕ → Bool
accepts [] = true
accepts (c ∷ cs) = not (c == 0)

abbrev pub flags : Crates
flags = record {
  Mutex = Bool;
  lock = acquire;
  try_lock = acquire;
  force_unlock = λ m. false;
  release = λ m. false;
  Port = List ℕ;
  write_fmt = λ text port. (port ++ text, accepts text);
  show = λ n. (n + 48) ∷ [];
}

pub acquire-free : (m : Bool) → m ≡ false → Taken flags (λ b. b) (acquire m)
acquire-free true e = cc
acquire-free false e = record { mutex = true; result = refl; now = refl }

pub acquire-held : (m : Bool) → m ≡ true → acquire m ≡ none
acquire-held true e = refl
acquire-held false e = cc

abbrev pub flags-IsLock : IsLock flags
flags-IsLock = record {
  held = λ m. m;
  lock_free = acquire-free;
  lock_held = acquire-held;
  try_free = acquire-free;
  try_held = acquire-held;
  released = λ m. refl;
  forced = λ m. refl;
}

abbrev pub critical : Code flags → Code flags
critical f c = restore flags c.interrupts (f (masked flags c))

pub critical-IsCritical : IsCritical flags critical
critical-IsCritical f c = refl

abbrev pub console : Bool → Console flags
console held = record {
  interrupts = true;
  serial_lock = held;
  port = [];
  writer_lock = false;
  writer = some writer;
}
