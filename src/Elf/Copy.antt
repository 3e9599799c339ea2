-- ===== src/Elf/Copy.antt =====
-- kernel/src/elf_loader.rs: where the copy loop of `load_segment` puts the bytes of the file.
use cat.Common.{
  ℕ, zero, suc, ◌+◌, ◌-◌, ◌/◌, ◌%◌, ◌^◌, ◌≤◌, ◌<◌, ◌≡◌, refl, ◌∙◌, ap, sym, arith, min,
}
use cat.Common.{true, Option, some, inl, inr, Bool-cases, List}
use cat.Common.{Ends, Ends-bind, u64, within, ltb}
use mathlib.Core.Path.{subst}
use cat.Elf.{Paging, Space, get_byte, copy_page, copy_loop}
use cat.Elf.Supply.{IsSupplied, IsApart, Lies, Lies-injective}
use cat.Elf.Pages.{some-eq}

module _ (paging : Paging) (hhdm : ℕ) (supplied : IsSupplied paging hhdm) (file_data : List ℕ) where
  -- The `count` user addresses from `vaddr` hold the bytes of the file from `start`. No other
  -- memory has changed, and no page either.
  pub record Copied (vaddr count start : ℕ) (s t : Space paging hhdm) : Type 0 where
    pub table : t.table ≡ s.table
    pub frames : t.frames ≡ s.frames
    pub bytes :
        (i a : ℕ)
        → i < count
        → Lies paging hhdm s.table (vaddr + i) a
        → t.memory a ≡ get_byte file_data (start + i)
    pub kept :
        (a : ℕ)
        → ((i : ℕ) → i < count → Lies paging hhdm s.table (vaddr + i) a → ⊥)
        → t.memory a ≡ s.memory a

  pub IsApart-Copied :
      (vaddr count start : ℕ) (s t : Space paging hhdm)
      → Copied vaddr count start s t
      → IsApart paging hhdm supplied s
      → IsApart paging hhdm supplied t
  IsApart-Copied vaddr count start s t c apart = record {
    injective = λ p q f h k.
        apart.injective p q f (ap (at p) (sym c.table) ∙ h) (ap (at q) (sym c.table) ∙ k);
    owned = λ p f h.
        ap (λ (fr : paging.Frames). supplied.free fr f) c.frames
        ∙ apart.owned p f (ap (at p) (sym c.table) ∙ h);
    aligned = λ p f h. apart.aligned p f (ap (at p) (sym c.table) ∙ h);
    direct = λ p f h. apart.direct p f (ap (at p) (sym c.table) ∙ h);
  }
    where
      at : ℕ → paging.Table → Option ℕ
      at p t = paging.translate_page t p

  Copied-trans :
      (vaddr n m start total next : ℕ) (s t u : Space paging hhdm)
      → IsApart paging hhdm supplied s
      → total ≡ n + m
      → next ≡ vaddr + n
      → Copied vaddr n start s t
      → Copied next m (start + n) t u
      → Copied vaddr total start s u
  Copied-trans vaddr n m start total next s t u apart sum nx c d = record {
    table = d.table ∙ c.table;
    frames = d.frames ∙ c.frames;
    bytes = λ i a h l. elim (Bool-cases (ltb i n)) [
      | inl early ↦
          d.kept a (λ j k l'.
            let same =
              Lies-injective paging hhdm supplied s apart (vaddr + i) (next + j) a l
                (back (next + j) a l') in
            omega (arith, early_lt i early))
          ∙ c.bytes i a (ground arith) l
      | inr late ↦
          let at_i : vaddr + i ≡ next + (i - n) = ground arith in
          let index : start + n + (i - n) ≡ start + i = ground arith in
          d.bytes (i - n) a (ground arith)
            (forth (next + (i - n)) a (subst (λ (v : ℕ). Lies paging hhdm s.table v a) at_i l))
          ∙ ap (get_byte file_data) index
    ];
    kept = λ a h.
        d.kept a (λ j k l.
          let at_j : next + j ≡ vaddr + (n + j) = omega arith in
          h (n + j) (omega arith)
            (subst (λ (v : ℕ). Lies paging hhdm s.table v a) at_j (back (next + j) a l)))
        ∙ c.kept a (λ i k l. h i (omega arith) l);
  }
    where
      early_lt : (i : ℕ) → ltb i n ≡ true → i < n
      early_lt i e = ground arith

      back : (v a : ℕ) → Lies paging hhdm t.table v a → Lies paging hhdm s.table v a
      back v a l = subst (λ (tb : paging.Table). Lies paging hhdm tb v a) c.table l

      forth : (v a : ℕ) → Lies paging hhdm s.table v a → Lies paging hhdm t.table v a
      forth v a l = subst (λ (tb : paging.Table). Lies paging hhdm tb v a) (sym c.table) l

  copy_page-Copied :
      (vaddr count start frame : ℕ) (s : Space paging hhdm)
      → IsApart paging hhdm supplied s
      → paging.translate_page s.table (vaddr / 4096) ≡ some frame
      → vaddr % 4096 + count ≤ 4096
      → Ends
          (copy_page paging hhdm file_data start (vaddr % 4096) count s (some frame))
          (Copied vaddr count start s)
  unfolding copy_page
  copy_page-Copied vaddr count start frame s apart found fits =
      let top = apart.direct (vaddr / 4096) frame found in
      let dest : u64 (u64 (frame + hhdm) + vaddr % 4096) ≡ frame + hhdm + vaddr % 4096 =
        omega arith in
      record {
        value = _;
        ends = refl;
        holds = record {
          table = refl;
          frames = refl;
          bytes = λ i a h l.
              let page : (vaddr + i) / 4096 ≡ vaddr / 4096 = omega arith in
              let same : l.frame ≡ frame =
                some-eq (sym l.translated ∙ ap (paging.translate_page s.table) page ∙ found) in
              let place : a ≡ frame + hhdm + vaddr % 4096 + i = omega (arith, l.place) in
              let inside : within (frame + hhdm + vaddr % 4096) count a ≡ true = ground arith in
              let index : start + (a - (frame + hhdm + vaddr % 4096)) ≡ start + i = omega arith in
              rw (dest, inside, index) refl;
          kept = λ a h. elim (Bool-cases (within (frame + hhdm + vaddr % 4096) count a)) [
            | inl inside ↦
                let i = a - (frame + hhdm + vaddr % 4096) in
                let low : i < count = ground arith in
                let page : (vaddr + i) / 4096 ≡ vaddr / 4096 = omega arith in
                absurd (
                  h i low (record {
                    frame = frame;
                    translated = ap (paging.translate_page s.table) page ∙ found;
                    place = ground arith;
                  }))
            | inr out ↦ rw (dest, out) refl
          ];
        };
      }

  -- The bytes that a round copies: to the end of the page, or of the segment.
  count_bounds :
      (vaddr left : ℕ)
      → 1 ≤ left
      → (1 ≤ min (4096 - vaddr % 4096) left)
        × (min (4096 - vaddr % 4096) left ≤ left)
        × (vaddr % 4096 + min (4096 - vaddr % 4096) left ≤ 4096)
  count_bounds vaddr left h = ground arith

  pub copy_loop-Copied :
      (filesz fuel start vaddr : ℕ) (s : Space paging hhdm)
      → IsApart paging hhdm supplied s
      → ((i : ℕ)
          → i < filesz - start
          → (frame : ℕ) × (paging.translate_page s.table ((vaddr + i) / 4096) ≡ some frame))
      → vaddr + (filesz - start) < 2 ^ 47
      → filesz - start ≤ fuel
      → Ends
          (copy_loop paging hhdm file_data filesz fuel start vaddr s)
          (Copied vaddr (filesz - start) start s)
  unfolding copy_loop
  copy_loop-Copied filesz zero start vaddr s apart found top enough = record {
    value = s;
    ends = refl;
    holds = record {
      table = refl;
      frames = refl;
      bytes = λ i a h l. absurd (omega arith);
      kept = λ a h. refl;
    };
  }
  copy_loop-Copied filesz (suc fuel) start vaddr s apart found top enough =
      elim (Bool-cases (ltb start filesz)) [
        | inl more ↦
            let left = filesz - start in
            let count = min (4096 - vaddr % 4096) left in
            let some_left : 1 ≤ left = ground arith in
            let (low, high, fits) = count_bounds vaddr left some_left in
            let (frame, at_start) = found 0 (omega arith) in
            let here : vaddr + 0 ≡ vaddr = omega arith in
            let first =
              ap (λ (v : ℕ). paging.translate_page s.table (v / 4096)) (sym here) ∙ at_start in
            let accepted = supplied.accepts vaddr (omega arith) in
            rw (more, accepted, first)
              (Ends-bind _ _ (copy_page-Copied vaddr count start frame s apart first fits) (λ t c.
                let next : u64 (vaddr + count) ≡ vaddr + count = omega arith in
                let later =
                  copy_loop-Copied filesz fuel (start + count) (u64 (vaddr + count)) t
                    (IsApart-Copied vaddr count start s t c apart)
                    (λ i h.
                      let moved : vaddr + (count + i) ≡ u64 (vaddr + count) + i = omega arith in
                      let (f, e) = found (count + i) (omega arith) in
                      (
                        f,
                        ap
                              (λ (tb : paging.Table).
                                paging.translate_page tb ((u64 (vaddr + count) + i) / 4096))
                              c.table
                            ∙ ap (λ (v : ℕ). paging.translate_page s.table (v / 4096)) (sym moved)
                            ∙ e,
                      ))
                    (omega arith) (omega arith) in
                record {
                  value = later.value;
                  ends = later.ends;
                  holds =
                      Copied-trans vaddr count (filesz - (start + count)) start left
                        (u64 (vaddr + count)) s t later.value apart (omega arith) next c
                        later.holds;
                }))
        | inr done_all ↦ rw done_all (record {
          value = s;
          ends = refl;
          holds = record {
            table = refl;
            frames = refl;
            bytes = λ i a h l. absurd (ground arith);
            kept = λ a h. refl;
          };
        })
      ]
