-- ===== src/Console/Style/Locked.antt =====
-- kernel/src/screen.rs: a call under the lock of the writer, on a free lock.
use cat.Common.{◌≡◌, refl, ◌∙◌, false, some, Run, done}
use cat.Screen
use cat.Screen.{FrameBufferInfo, FrameBufferWriter, Pixels}
use cat.Console.{Crates, Console, Attempt, ended, chain, with_writer}
use cat.Console.Documented.{IsLock}
use cat.Console.Style.{init}

module _ (crates : Crates) (mutex : IsLock crates) where
  -- The writer has become `v`, and the rest of the console is as it was.
  pub record Becomes (c : Console crates) (v : FrameBufferWriter)
      (attempt : Attempt (Console crates)) : Type 0 where
    pub after : Console crates
    pub ends : attempt ≡ ended after
    pub writer : after.writer ≡ some v
    pub free : mutex.held after.writer_lock ≡ false
    pub port : after.port ≡ c.port
    pub serial_lock : after.serial_lock ≡ c.serial_lock
    pub interrupts : after.interrupts ≡ c.interrupts

  pub with_writer-Becomes :
      (use_writer : FrameBufferWriter → Run FrameBufferWriter) (c : Console crates)
      (w v : FrameBufferWriter)
      → mutex.held c.writer_lock ≡ false
      → c.writer ≡ some w
      → use_writer w ≡ done v
      → Becomes c v (with_writer crates use_writer c)
  unfolding with_writer
  with_writer-Becomes use_writer c w v free here result =
      let lock = mutex.lock_free c.writer_lock free in
      rw (lock.result, here, result)
        (record {
          after = _;
          ends = refl;
          writer = refl;
          free = mutex.released lock.mutex;
          port = refl;
          serial_lock = refl;
          interrupts = refl;
        })

  pub init-Becomes :
      (info : FrameBufferInfo) (px : Pixels) (c : Console crates)
      → mutex.held c.writer_lock ≡ false
      → Becomes c (Screen.init info px) (init crates info px c)
  unfolding init
  init-Becomes info px c free =
      let lock = mutex.lock_free c.writer_lock free in
      rw lock.result (record {
        after = _;
        ends = refl;
        writer = refl;
        free = mutex.released lock.mutex;
        port = refl;
        serial_lock = refl;
        interrupts = refl;
      })

  -- One call after another.
  pub Becomes-then :
      (use_writer : FrameBufferWriter → Run FrameBufferWriter) (c : Console crates)
      (w v : FrameBufferWriter) (attempt : Attempt (Console crates))
      → Becomes c w attempt
      → use_writer w ≡ done v
      → Becomes c v (chain attempt (with_writer crates use_writer))
  Becomes-then use_writer c w v attempt b result =
      let next = with_writer-Becomes use_writer b.after w v b.free b.writer result in
      rw b.ends (record {
        after = next.after;
        ends = next.ends;
        writer = next.writer;
        free = next.free;
        port = next.port ∙ b.port;
        serial_lock = next.serial_lock ∙ b.serial_lock;
        interrupts = next.interrupts ∙ b.interrupts;
      })
