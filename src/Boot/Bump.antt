-- ===== src/Boot/Bump.antt =====
-- uefi_boot/src/main.rs: the frames that `BumpAllocator` hands out.
use cat.Common.{ℕ, zero, suc, ◌+◌, ◌*◌, ◌/◌, ◌%◌, ◌^◌, ◌<◌, ◌≡◌, refl, arith}
use cat.Common.{Bool, true, false, Option, none, some, inl, inr, Bool-cases, List, [], ◌∷◌, u64}
use cat.Common.{min, bind-done, Run, done, ◌>>=◌, if◌then◌else◌, ltb, leb}
use cat.Boot.{BumpAllocator, new_bump, allocate_frame}

-- The results of `n` calls in a row.
unfoldable pub take_frames : (ℕ → Bool) → ℕ → BumpAllocator → Run (List (Option ℕ))
take_frames phys_addr zero a = done []
take_frames phys_addr (suc n) a = allocate_frame phys_addr a >>= λ (frame, a').
    (take_frames phys_addr n a' >>= λ frames. done (frame ∷ frames))

-- The pages of a pool from the `i`-th on, then nothing.
abbrev pub pool_frames : ℕ → ℕ → ℕ → ℕ → List (Option ℕ)
pool_frames start pages zero i = []
pool_frames start pages (suc n) i =
    (if ltb i pages then some (start + i * 4096) else none) ∷ pool_frames start pages n (i + 1)

module _ (phys_addr : ℕ → Bool) (start pages : ℕ) (aligned : start % 4096 ≡ 0)
    (fits : start + pages * 4096 < 2 ^ 64)
    (accepts : (x : ℕ) → x < start + pages * 4096 → phys_addr x ≡ true) where
  -- Past the pool the allocator stays at its end.
  from_frame :
      (n i : ℕ) (a : BumpAllocator)
      → a.end ≡ start + pages * 4096
      → a.next ≡ start + min i pages * 4096
      → take_frames phys_addr n a ≡ done (pool_frames start pages n i)
  unfolding take_frames allocate_frame
  from_frame zero i a e h = refl
  from_frame (suc n) i a e h = elim (Bool-cases (ltb i pages)) [
    | inl inside ↦
        let here : min i pages ≡ i = ground arith in
        let more : i < pages = ground arith in
        let at : a.next ≡ start + i * 4096 = rw (← here) h in
        let room : leb a.end a.next ≡ false = ground arith in
        let taken : phys_addr a.next ≡ true = accepts a.next (omega arith) in
        let frame : a.next / 4096 * 4096 ≡ start + i * 4096 = omega arith in
        let a' = record a { next = u64 (a.next + 4096) } in
        let next : min (i + 1) pages ≡ i + 1 = ground arith in
        let later = from_frame n (i + 1) a' e (rw next (omega arith)) in
        let step : allocate_frame phys_addr a ≡ done (some (start + i * 4096), a') =
          rw (room, taken, frame) refl in
        bind-done (allocate_frame phys_addr a) _ step (bind-done _ _ later (rw inside refl))
    | inr past ↦
        let here : min i pages ≡ pages = ground arith in
        let at : a.next ≡ start + pages * 4096 = rw (← here) h in
        let room : leb a.end a.next ≡ true = ground arith in
        let next : min (i + 1) pages ≡ pages = ground arith in
        let later = from_frame n (i + 1) a e (rw next at) in
        let step : allocate_frame phys_addr a ≡ done (none, a) = rw room refl in
        bind-done (allocate_frame phys_addr a) _ step (bind-done _ _ later (rw past refl))
  ]

  -- From a pool of whole pages in the address space, all of whose addresses PhysAddr::new takes, the
  -- allocator hands out every page of the pool once, in order, and None from then on.
  pub take_frames-new_bump :
      (n : ℕ) → take_frames phys_addr n (new_bump start pages) ≡ done (pool_frames start pages n 0)
  unfolding new_bump
  take_frames-new_bump n =
      from_frame n 0 (new_bump start pages) (omega arith)
        (let none : min 0 pages ≡ 0 = ground arith in rw none (omega arith))
