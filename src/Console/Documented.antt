-- ===== src/Console/Documented.antt =====
-- shared/src/serial.rs and kernel/src/writer.rs: what the code relies on of the locks and of
-- `without_interrupts`.
use cat.Common.{ℕ, ◌≡◌, Bool, true, false, Option, none, some, List, if◌then◌else◌}
use cat.Console.{Crates, Console, Code, Attempt, ended, panics, spins, faults}

pub record Taken (crates : Crates) (held : crates.Mutex → Bool) (attempt : Option crates.Mutex)
    : Type 0 where
  pub mutex : crates.Mutex
  pub result : attempt ≡ some mutex
  pub now : held mutex ≡ true

-- A lock is held or free. The holder does not run while another waits for it, as there is one
-- processor and interrupts are off: `lock` on a held lock waits for ever.
pub record IsLock (crates : Crates) : Type 0 where
  pub held : crates.Mutex → Bool
  pub lock_free : (m : crates.Mutex) → held m ≡ false → Taken crates held (crates.lock m)
  pub lock_held : (m : crates.Mutex) → held m ≡ true → crates.lock m ≡ none
  pub try_free : (m : crates.Mutex) → held m ≡ false → Taken crates held (crates.try_lock m)
  pub try_held : (m : crates.Mutex) → held m ≡ true → crates.try_lock m ≡ none
  pub released : (m : crates.Mutex) → held (crates.release m) ≡ false
  pub forced : (m : crates.Mutex) → held (crates.force_unlock m) ≡ false

module _ (crates : Crates) where
  abbrev pub restore : Bool → Attempt (Console crates) → Attempt (Console crates)
  restore saved (ended c) = ended (record c { interrupts = if saved then true else c.interrupts })
  restore saved (panics c) = panics c
  restore saved spins = spins
  restore saved faults = faults

  abbrev pub masked : Console crates → Console crates
  masked c = record c { interrupts = false }

  -- `without_interrupts` runs the code with interrupts off, and turns them on afterwards if they
  -- were on.
  abbrev pub IsCritical : (Code crates → Code crates) → Type 0
  IsCritical without_interrupts =
      (f : Code crates) (c : Console crates)
      → without_interrupts f c ≡ restore c.interrupts (f (masked c))

  -- What the port has after some texts.
  abbrev pub sent : List ℕ → crates.Port → crates.Port
  sent text port = (crates.write_fmt text port).0
