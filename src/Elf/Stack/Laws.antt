-- ===== src/Elf/Stack/Laws.antt =====
-- kernel/src/elf_loader.rs: what a program's start code reads from the stack of `setup_user_stack`.
use cat.Common.{ℕ, zero, suc, ◌+◌, ◌*◌, ◌/◌, ◌%◌, ◌^◌, ◌≤◌, ◌<◌, ◌≡◌, refl, ◌∙◌, ap, sym, arith}
use cat.Common.{
  false, Option, none, some, inl, inr, ◌⊎◌, Bool-cases, ◌==◌, ==→eq, List, [], ◌∷◌, length,
}
use cat.Common.{Ends, Ends-bind, u64, within, if◌then◌else◌}
use cat.Common.{store, load_bytes, load_bytes-store, load_bytes-store_apart, get_or, Memory}
use mathlib.Core.Path.{subst}
use cat.Elf.{Paging, Space}
use cat.Elf.Supply.{IsSupplied}
use cat.Elf.Stack.{
  ElfHeader, base_of, stack_pointer, put_word, write_to_stack, write_aux, build_stack,
}

-- A program's start, as the System V convention lays it out: argc, the arguments and the
-- environment, each ended by a null, and pairs of a type and a value, ended by type 0.
pub record Start : Type 0 where
  pub argc : ℕ
  pub argv : List ℕ
  pub envp : List ℕ
  pub aux : List (ℕ × ℕ)

abbrev pub to_null : List ℕ → List ℕ
to_null [] = []
to_null (w ∷ ws) = if w == 0 then [] else w ∷ to_null ws

abbrev pub past_null : List ℕ → List ℕ
past_null [] = []
past_null (w ∷ ws) = if w == 0 then ws else past_null ws

abbrev pub pairs : List ℕ → List (ℕ × ℕ)
pairs [] = []
pairs (k ∷ []) = []
pairs (k ∷ v ∷ ws) = if k == 0 then [] else (k, v) ∷ pairs ws

abbrev pub parse_start : List ℕ → Option Start
parse_start [] = none
parse_start (n ∷ ws) = some (record {
  argc = n;
  argv = to_null ws;
  envp = to_null (past_null ws);
  aux = pairs (past_null (past_null ws));
})

-- The words that the stack is to hold.
abbrev pub stack_words : ElfHeader → List ℕ
stack_words elf =
    0
    ∷ 0
    ∷ 0
    ∷ 3
    ∷ u64 (base_of elf + elf.ph_offset)
    ∷ 4
    ∷ u64 elf.ph_entry_size
    ∷ 5
    ∷ u64 elf.ph_count
    ∷ 6
    ∷ 4096
    ∷ 7
    ∷ 0
    ∷ 9
    ∷ u64 (base_of elf + elf.entry_point)
    ∷ 25
    ∷ 0x7FFFFFFEFFF0
    ∷ 0
    ∷ 0
    ∷ []

module _ (paging : Paging) (hhdm : ℕ) where
  abbrev pub word_at : Memory → ℕ → Option ℕ → Option ℕ
  word_at memory page_offset none = none
  word_at memory page_offset (some frame) = some (load_bytes memory 8 (frame + hhdm + page_offset))

  -- A word that does not cross a page, and a byte, as the program reads them.
  abbrev pub user_word : Space paging hhdm → ℕ → Option ℕ
  user_word t addr = word_at t.memory (addr % 4096) (paging.translate_page t.table (addr / 4096))

  abbrev pub cons_word : Option ℕ → Option (List ℕ) → Option (List ℕ)
  cons_word (some w) (some ws) = some (w ∷ ws)
  cons_word none ws = none
  cons_word (some w) none = none

  abbrev pub read_words : Space paging hhdm → ℕ → ℕ → Option (List ℕ)
  read_words t zero addr = some []
  read_words t (suc n) addr = cons_word (user_word t addr) (read_words t n (addr + 8))

  pub read_words_lem :
      (t : Space paging hhdm) (ws : List ℕ) (addr : ℕ)
      → ((i : ℕ) → i < length ws → user_word t (addr + 8 * i) ≡ some (get_or ws i 0))
      → read_words t (length ws) addr ≡ some ws
  read_words_lem t [] addr h = refl
  read_words_lem t (w ∷ ws) addr h =
      let here : addr + 8 * 0 ≡ addr = omega arith in
      let first = ap (user_word t) (sym here) ∙ h 0 (omega arith) in
      let rest = read_words_lem t ws (addr + 8) (λ i below.
        let next : addr + 8 + 8 * i ≡ addr + 8 * suc i = omega arith in
        ap (user_word t) next ∙ h (suc i) (omega arith)) in
      rw (first, rest) refl

  module _ (supplied : IsSupplied paging hhdm) (s : Space paging hhdm) (frame : ℕ) (ws : List ℕ)
      (found : paging.translate_page s.table (stack_pointer / 4096) ≡ some frame)
      (direct : frame + hhdm + 4096 ≤ 2 ^ 64) where
    -- The first `n` words are in place, and nothing else has changed.
    pub record Written (n : ℕ) (t : Space paging hhdm) : Type 0 where
      pub table : t.table ≡ s.table
      pub words :
          (i : ℕ) → i < n → load_bytes t.memory 8 (frame + hhdm + 3840 + 8 * i) ≡ get_or ws i 0
      pub kept :
          (a : ℕ)
          → a < frame + hhdm + 3840 ⊎ frame + hhdm + 3840 + 8 * n ≤ a
          → t.memory a ≡ s.memory a

    kept_store :
        (n value a : ℕ) (now before : Memory)
        → (a < frame + hhdm + 3840 ⊎ frame + hhdm + 3840 + 8 * n ≤ a → now a ≡ before a)
        → a < frame + hhdm + 3840 ⊎ frame + hhdm + 3840 + 8 * (n + 1) ≤ a
        → store (frame + hhdm + 3840 + 8 * n) 8 value now a ≡ before a
    kept_store n value a now before h (inl low) =
        let out : within (frame + hhdm + 3840 + 8 * n) 8 a ≡ false = ground arith in
        rw out (h (inl low))
    kept_store n value a now before h (inr high) =
        let out : within (frame + hhdm + 3840 + 8 * n) 8 a ≡ false = ground arith in
        rw out (h (inr (omega arith)))

    write_to_stack-Written :
        (n addr value : ℕ) (t : Space paging hhdm)
        → addr ≡ stack_pointer + 8 * n
        → n < 20
        → value % 2 ^ 64 ≡ get_or ws n 0
        → Written n t
        → Ends (write_to_stack paging hhdm addr value t) (Written (n + 1))
    unfolding write_to_stack put_word
    write_to_stack-Written n addr value t e few exact h =
        let accepted = supplied.accepts addr (omega arith) in
        let page : addr / 4096 ≡ stack_pointer / 4096 = omega arith in
        let offset : addr % 4096 ≡ 3840 + 8 * n = omega arith in
        let mapped : paging.translate_page t.table (addr / 4096) ≡ some frame =
          ap (paging.translate_page t.table) page
          ∙ ap (λ (tb : paging.Table). paging.translate_page tb (stack_pointer / 4096)) h.table
          ∙ found in
        let dest : u64 (u64 (frame + hhdm) + addr % 4096) ≡ frame + hhdm + 3840 + 8 * n =
          omega arith in
        rw (accepted, mapped)
          (record {
            value = _;
            ends = refl;
            holds = rw dest (record {
              table = h.table;
              words = λ i below. elim (Bool-cases (i == n)) [
                | inl same ↦
                    rw (==→eq i n same)
                      (load_bytes-store t.memory (frame + hhdm + 3840 + 8 * n) 8 value ∙ exact)
                | inr other ↦
                    load_bytes-store_apart t.memory (frame + hhdm + 3840 + 8 * n) 8 value 8
                      (frame + hhdm + 3840 + 8 * i) (inl (ground arith))
                    ∙ h.words i (ground arith)
              ];
              kept = λ a out. kept_store n value a t.memory s.memory (h.kept a) out;
            });
          })

    write_aux-Written :
        (n next last addr kind value : ℕ) (t : Space paging hhdm)
        → addr ≡ stack_pointer + 8 * n
        → next ≡ n + 1
        → last ≡ n + 2
        → n < 19
        → kind % 2 ^ 64 ≡ get_or ws n 0
        → value % 2 ^ 64 ≡ get_or ws next 0
        → Written n t
        → Ends (write_aux paging hhdm addr kind value t) (Written last)
    unfolding write_aux
    write_aux-Written n next last addr kind value t e nx lst few exact exact' h =
        Ends-bind _ _ (write_to_stack-Written n addr kind t e (omega arith) exact h) (λ u k.
          let last_eq : n + 1 + 1 ≡ last = omega arith in
          let second =
            write_to_stack-Written (n + 1) (addr + 8) value u (omega arith) (omega arith)
              (exact' ∙ ap (λ (i : ℕ). get_or ws i 0) nx) k in
          record {
            value = second.value;
            ends = second.ends;
            holds = subst (λ (j : ℕ). Written j second.value) last_eq second.holds;
          })

  module _ (supplied : IsSupplied paging hhdm) (s : Space paging hhdm) (frame : ℕ) (elf : ElfHeader)
      (found : paging.translate_page s.table (stack_pointer / 4096) ≡ some frame)
      (direct : frame + hhdm + 4096 ≤ 2 ^ 64) where
    abbrev pub Wrote : ℕ → Space paging hhdm → Type 0
    Wrote = Written supplied s frame (stack_words elf) found direct

    word :
        (n addr value : ℕ) (t : Space paging hhdm)
        → addr ≡ stack_pointer + 8 * n
        → n < 20
        → value % 2 ^ 64 ≡ get_or (stack_words elf) n 0
        → Wrote n t
        → Ends (write_to_stack paging hhdm addr value t) (Wrote (n + 1))
    word = write_to_stack-Written supplied s frame (stack_words elf) found direct

    aux_pair :
        (n next last addr kind value : ℕ) (t : Space paging hhdm)
        → addr ≡ stack_pointer + 8 * n
        → next ≡ n + 1
        → last ≡ n + 2
        → n < 19
        → kind % 2 ^ 64 ≡ get_or (stack_words elf) n 0
        → value % 2 ^ 64 ≡ get_or (stack_words elf) next 0
        → Wrote n t
        → Ends (write_aux paging hhdm addr kind value t) (Wrote last)
    aux_pair = write_aux-Written supplied s frame (stack_words elf) found direct

    pub build_stack-Written : Ends (build_stack paging hhdm elf s) (Wrote 19)
    unfolding build_stack
    build_stack-Written =
        let none_yet : Wrote 0 s = record {
          table = refl;
          words = λ i h. absurd (omega arith);
          kept = λ a h. refl;
        } in
        Ends-bind _ _
          (Ends-bind _ _
            (Ends-bind _ _
              (Ends-bind _ _
                (Ends-bind _ _
                  (Ends-bind _ _
                    (Ends-bind _ _
                      (Ends-bind _ _
                        (Ends-bind _ _
                          (Ends-bind _ _ (word 0 _ 0 s (omega arith) (omega arith) refl none_yet)
                            (λ t h. word 1 _ 0 t (omega arith) (omega arith) refl h))
                          (λ t h. word 2 _ 0 t (omega arith) (omega arith) refl h))
                        (λ t h.
                          aux_pair 3 4 5 _ 3 _ t (omega arith) refl refl (omega arith) refl
                            (omega arith) h))
                      (λ t h.
                        aux_pair 5 6 7 _ 4 _ t (omega arith) refl refl (omega arith) refl
                          (omega arith) h))
                    (λ t h.
                      aux_pair 7 8 9 _ 5 _ t (omega arith) refl refl (omega arith) refl
                        (omega arith) h))
                  (λ t h.
                    aux_pair 9 10 11 _ 6 4096 t (omega arith) refl refl (omega arith) refl refl h))
                (λ t h.
                  aux_pair 11 12 13 _ 7 0 t (omega arith) refl refl (omega arith) refl refl h))
              (λ t h.
                aux_pair 13 14 15 _ 9 _ t (omega arith) refl refl (omega arith) refl (omega arith)
                  h))
            (λ t h. aux_pair 15 16 17 _ 25 _ t (omega arith) refl refl (omega arith) refl refl h))
          (λ t h. aux_pair 17 18 19 _ 0 0 t (omega arith) refl refl (omega arith) refl refl h)
