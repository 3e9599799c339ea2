-- ===== src/Console/Serial.antt =====
-- shared/src/serial.rs: `_print` on each state of the lock.
use cat.Common.{ℕ, ◌≡◌, refl, ◌∙◌, ap, true, false, some, List}
use cat.Console.{
  Crates, Console, Code, Attempt, ended, panics, spins, serial_locked, serial_write, serial_print,
}
use cat.Console.Documented.{IsLock, IsCritical, restore, masked, sent}
use cat.Console.Panic.{restored}

module _ (crates : Crates) where
  pub serial_write-sent :
      (args : List ℕ) (c : Console crates) (m : crates.Mutex)
      → crates.lock c.serial_lock ≡ some m
      → (crates.write_fmt args c.port).1 ≡ true
      → serial_write crates args c
        ≡ ended (record c { serial_lock = crates.release m; port = sent crates args c.port })
  unfolding serial_write
  serial_write-sent args c m lock accepted = rw (lock, accepted) refl

  pub serial_write-refused :
      (args : List ℕ) (c : Console crates) (m : crates.Mutex)
      → crates.lock c.serial_lock ≡ some m
      → (crates.write_fmt args c.port).1 ≡ false
      → serial_write crates args c
        ≡ panics (record c { serial_lock = m; port = sent crates args c.port })
  unfolding serial_write
  serial_write-refused args c m lock refused = rw (lock, refused) refl

module _ (crates : Crates) (mutex : IsLock crates) (without_interrupts : Code crates → Code crates)
    (critical : IsCritical crates without_interrupts) where
  pub serial_print-blocked :
      (text : List ℕ) (c : Console crates)
      → mutex.held c.serial_lock ≡ true
      → serial_print crates without_interrupts text c ≡ spins
  unfolding serial_print serial_write
  serial_print-blocked text c held =
      critical (serial_write crates text) c
      ∙ ap (λ l. restore crates c.interrupts (serial_locked crates text (masked crates c) l))
          (mutex.lock_held c.serial_lock held)

  -- The text is on the port, and the lock is free.
  pub record Sent (args : List ℕ) (c : Console crates) (attempt : Attempt (Console crates))
      : Type 0 where
    pub after : Console crates
    pub ends : attempt ≡ ended after
    pub port : after.port ≡ sent crates args c.port
    pub free : mutex.held after.serial_lock ≡ false
    pub interrupts : after.interrupts ≡ c.interrupts
    pub screen : after.writer ≡ c.writer

  pub serial_print-Sent :
      (args : List ℕ) (c : Console crates)
      → mutex.held c.serial_lock ≡ false
      → (crates.write_fmt args c.port).1 ≡ true
      → Sent args c (serial_print crates without_interrupts args c)
  unfolding serial_print
  serial_print-Sent args c free accepted =
      let serial = mutex.lock_free c.serial_lock free in
      rw
        (
          critical (serial_write crates args) c,
          serial_write-sent crates args (masked crates c) serial.mutex serial.result accepted,
        )
        (record {
          after = _;
          ends = refl;
          port = refl;
          free = mutex.released serial.mutex;
          interrupts = restored crates mutex c.interrupts;
          screen = refl;
        })
