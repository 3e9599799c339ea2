-- ===== src/Console/Panic.antt =====
-- shared/src/serial.rs and shared/src/panic.rs: the panic handler always gets its message out.
use cat.Common.{ℕ, ◌≡◌, refl, ◌∙◌, ap, Bool, true, false, Option, List, [], ◌∷◌, ◌++◌}
use cat.Common.{Bool-cases, inl, inr, if◌then◌else◌}
use cat.Console.{
  Crates, Console, Code, Attempt, Location, ended, take_port, panic_write, print_panic,
  panic_handler_impl, force_print, location_text, message_prefix,
}
use cat.Console.Documented.{IsLock, IsCritical, masked, sent}

module _ (crates : Crates) (mutex : IsLock crates) where
  pub record Prints (sent_to : crates.Port) (c : Console crates)
      (attempt : Attempt (Console crates)) : Type 0 where
    pub after : Console crates
    pub ends : attempt ≡ ended after
    pub port : after.port ≡ sent_to
    pub free : mutex.held after.serial_lock ≡ false
    pub interrupts : after.interrupts ≡ c.interrupts
    pub screen : after.writer ≡ c.writer
    pub screen_lock : after.writer_lock ≡ c.writer_lock

  record TakesPort (c : Console crates) : Type 0 where
    lock : crates.Mutex
    ends : take_port crates c ≡ ended (record c { serial_lock = lock })

  takes_port : (c : Console crates) → TakesPort c
  unfolding take_port
  takes_port c = elim (Bool-cases (mutex.held c.serial_lock)) [
    | inl held ↦
        let taken =
          mutex.lock_free (crates.force_unlock c.serial_lock) (mutex.forced c.serial_lock) in
        record {
          lock = taken.mutex;
          ends = rw (mutex.try_held c.serial_lock held, taken.result) refl;
        }
    | inr free ↦
        let taken = mutex.try_free c.serial_lock free in
        record { lock = taken.mutex; ends = rw taken.result refl }
  ]

  pub restored : (b : Bool) → (if b then true else false) ≡ b
  restored true = refl
  restored false = refl

  module _ (without_interrupts : Code crates → Code crates)
      (critical : IsCritical crates without_interrupts) where
    print_panic-Prints :
        (args : List ℕ) (c : Console crates)
        → Prints
            (sent crates args (sent crates force_print c.port))
            c
            (print_panic crates without_interrupts args c)
    unfolding print_panic panic_write
    print_panic-Prints args c =
        let taken = takes_port (masked crates c) in
        rw (critical (panic_write crates args) c, taken.ends)
          (record {
            after = _;
            ends = refl;
            port = refl;
            free = mutex.released taken.lock;
            interrupts = restored c.interrupts;
            screen = refl;
            screen_lock = refl;
          })

    -- Whoever holds the lock of the serial port, panic_handler_impl comes to its halt: the port has
    -- got the prefix and the location, then the prefix and the message, in this order, its lock is
    -- free, and the interrupts and the screen are as they were.
    pub panic_handler_impl-Prints :
        (location : Option Location) (message : List ℕ) (c : Console crates)
        → Prints
            (sent crates (message_prefix ++ message ++ (10 ∷ [])) (
              sent crates force_print
                (sent crates (location_text crates location) (sent crates force_print c.port))))
            c
            (panic_handler_impl crates without_interrupts location message c)
    unfolding panic_handler_impl
    panic_handler_impl-Prints location message c =
        let first = print_panic-Prints (location_text crates location) c in
        let text = message_prefix ++ message ++ (10 ∷ []) in
        let second = print_panic-Prints text first.after in
        record {
          after = second.after;
          ends = rw first.ends second.ends;
          port = second.port ∙ ap (λ p. sent crates text (sent crates force_print p)) first.port;
          free = second.free;
          interrupts = second.interrupts ∙ first.interrupts;
          screen = second.screen ∙ first.screen;
          screen_lock = second.screen_lock ∙ first.screen_lock;
        }
