-- ===== src/Elf/Relocate/Laws.antt =====
-- kernel/src/elf_loader.rs: what `process_relocations` writes, and what it counts.
use cat.Common.{ℕ, ◌+◌, ◌/◌, ◌%◌, ◌≤◌, ◌≡◌, refl, ◌∙◌, ap, sym, arith}
use cat.Common.{Bool, true, some, inl, inr, ◌⊎◌, Bool-cases, ==→eq, ◌==◌, List, [], ◌∷◌, length}
use cat.Common.{Ends, u64, if◌then◌else◌, store, load_bytes}
use cat.Common.{load_bytes-store, load_bytes-store_apart}
use cat.Elf.{Paging, Space}
use cat.Elf.Supply.{IsSupplied, IsApart, Lies}
use cat.Elf.Pages.{some-eq}
use cat.Elf.Relocate.{Rela, Relocation, apply_at, apply_relocation, apply_section}

-- The entries of type R_X86_64_RELATIVE, the addresses that they name, and the values.
abbrev pub is_relative : Rela → Bool
is_relative r = r.r_type == 8

abbrev pub target : ℕ → Rela → ℕ
target base r = u64 (base + r.r_offset)

abbrev pub count_relative : List Rela → ℕ
count_relative [] = 0
count_relative (r ∷ rs) = (if is_relative r then 1 else 0) + count_relative rs

abbrev pub Disjoint : ℕ → ℕ → Type 0
Disjoint x y = x + 8 ≤ y ⊎ y + 8 ≤ x

-- No relative entry of the list names a byte of the word at `x`.
abbrev pub Clear : ℕ → ℕ → List Rela → Type 0
Clear base x [] = Unit {0}
Clear base x (r ∷ rs) = (is_relative r ≡ true → Disjoint x (target base r)) × Clear base x rs

abbrev pub AllDisjoint : ℕ → List Rela → Type 0
AllDisjoint base [] = Unit {0}
AllDisjoint base (r ∷ rs) =
    (is_relative r ≡ true → Clear base (target base r) rs) × AllDisjoint base rs

module _ (paging : Paging) (hhdm : ℕ) (supplied : IsSupplied paging hhdm) (base : ℕ)
    (s : Space paging hhdm) (apart : IsApart paging hhdm supplied s) where
  -- A relative entry names a word of a mapped page that does not cross its end.
  pub record Fits (r : Rela) : Type 0 where
    pub accepted : paging.virt_addr (target base r) ≡ true
    pub in_page : target base r % 4096 ≤ 4088
    pub frame : ℕ
    pub found : paging.translate_page s.table (target base r / 4096) ≡ some frame

  abbrev pub AllFit : List Rela → Type 0
  AllFit [] = Unit {0}
  AllFit (r ∷ rs) = (is_relative r ≡ true → Fits r) × AllFit rs

  -- Each relative entry's word reads as the base with the addend.
  abbrev pub AllRead : (ℕ → ℕ) → List Rela → Type 0
  AllRead memory [] = Unit {0}
  AllRead memory (r ∷ rs) =
      (is_relative r ≡ true
        → (a : ℕ) → Lies paging hhdm s.table (target base r) a
        → load_bytes memory 8 a ≡ u64 (base + r.r_addend))
      × AllRead memory rs

  pub record Relocated (rs : List Rela) (p q : Relocation paging hhdm) : Type 0 where
    pub table : q.space.table ≡ s.table
    pub total : q.total_relocs ≡ p.total_relocs + length rs
    pub applied : q.applied_relocs ≡ p.applied_relocs + count_relative rs
    pub skipped : q.skipped_relocs ≡ p.skipped_relocs
    pub reads : AllRead q.space.memory rs
    pub kept :
        (x a : ℕ)
        → x % 4096 ≤ 4088
        → Clear base x rs
        → Lies paging hhdm s.table x a
        → load_bytes q.space.memory 8 a ≡ load_bytes p.space.memory 8 a

  -- Words that are disjoint for the program are so in memory.
  places_apart :
      (x y a b : ℕ)
      → x % 4096 ≤ 4088
      → y % 4096 ≤ 4088
      → Disjoint x y
      → Lies paging hhdm s.table x a
      → Lies paging hhdm s.table y b
      → (a + 8 ≤ b) ⊎ (b + 8 ≤ a)
  places_apart x y a b hx hy d l m =
      let lf = apart.aligned (x / 4096) l.frame l.translated in
      let mf = apart.aligned (y / 4096) m.frame m.translated in
      let lp = l.place in
      let mp = m.place in
      elim (Bool-cases (l.frame == m.frame)) [
        | inl same ↦
            let frames : l.frame ≡ m.frame = ==→eq l.frame m.frame same in
            let page : x / 4096 ≡ y / 4096 =
              apart.injective (x / 4096) (y / 4096) m.frame (l.translated ∙ ap some frames)
                m.translated in
            in_one_page page frames d lp mp
        | inr other ↦ ground arith
      ]
    where
      in_one_page :
          {f g : ℕ}
          → x / 4096 ≡ y / 4096
          → f ≡ g
          → Disjoint x y
          → a ≡ f + hhdm + x % 4096
          → b ≡ g + hhdm + y % 4096
          → (a + 8 ≤ b) ⊎ (b + 8 ≤ a)
      in_one_page e f (inl h) p q = inl (omega arith)
      in_one_page e f (inr h) p q = inr (omega arith)

  -- The loop over one section applies its entries, whatever came before.
  pub apply_section-Relocated :
      (rs : List Rela) (p : Relocation paging hhdm)
      → p.space.table ≡ s.table
      → AllFit rs
      → AllDisjoint base rs
      → Ends (apply_section paging hhdm base rs p) (Relocated rs p)
  unfolding apply_section apply_relocation apply_at
  apply_section-Relocated [] p tb fit dis = record {
    value = p;
    ends = refl;
    holds = record {
      table = tb;
      total = omega arith;
      applied = omega arith;
      skipped = refl;
      reads = tt;
      kept = λ x a h c l. refl;
    };
  }
  apply_section-Relocated (r ∷ rs) p tb fit dis = elim (Bool-cases (is_relative r)) [
    | inl relative ↦
        let f = fit.0 relative in
        let t = target base r in
        let page : paging.translate_page p.space.table (t / 4096) ≡ some f.frame =
          ap (λ (x : paging.Table). paging.translate_page x (t / 4096)) tb ∙ f.found in
        let top = apart.direct (t / 4096) f.frame f.found in
        let inside = f.in_page in
        let place : u64 (u64 (f.frame + hhdm) + t % 4096) ≡ f.frame + hhdm + t % 4096 =
          omega arith in
        let here : Lies paging hhdm s.table t (f.frame + hhdm + t % 4096) = record {
          frame = f.frame;
          translated = f.found;
          place = refl;
        } in
        let value = u64 (base + r.r_addend) in
        let next = record p {
          space = record p.space {
            memory = store (f.frame + hhdm + t % 4096) 8 value p.space.memory;
          };
          total_relocs = p.total_relocs + 1;
          applied_relocs = p.applied_relocs + 1;
        } in
        let later = apply_section-Relocated rs next tb fit.1 dis.1 in
        rw (relative, f.accepted, page, place)
          (record {
            value = later.value;
            ends = later.ends;
            holds = record {
              table = later.holds.table;
              total = omega (arith, later.holds.total);
              applied = ground (arith, later.holds.applied);
              skipped = later.holds.skipped;
              reads = (
                λ _ a l.
                    let same : l.frame ≡ f.frame = some-eq (sym l.translated ∙ f.found) in
                    let at : a ≡ f.frame + hhdm + t % 4096 = omega (arith, l.place) in
                    later.holds.kept t a inside (dis.0 relative) l
                    ∙ ap (load_bytes next.space.memory 8) at
                    ∙ load_bytes-store p.space.memory (f.frame + hhdm + t % 4096) 8 value
                    ∙ omega arith,
                later.holds.reads,
              );
              kept = λ x a h c l.
                  later.holds.kept x a h c.1 l
                  ∙ load_bytes-store_apart p.space.memory (f.frame + hhdm + t % 4096) 8 value 8 a (
                      places_apart x t a (f.frame + hhdm + t % 4096) h inside (c.0 relative) l
                        here);
            };
          })
    | inr other ↦
        let next = record p { total_relocs = p.total_relocs + 1 } in
        let later = apply_section-Relocated rs next tb fit.1 dis.1 in
        rw other (record {
          value = later.value;
          ends = later.ends;
          holds = record {
            table = later.holds.table;
            total = omega (arith, later.holds.total);
            applied = ground (arith, later.holds.applied);
            skipped = later.holds.skipped;
            reads = ((λ relative. cc), later.holds.reads);
            kept = λ x a h c l. later.holds.kept x a h c.1 l;
          };
        })
  ]
