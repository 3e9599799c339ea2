-- ===== src/Elf/Pages.antt =====
-- kernel/src/elf_loader.rs: what the loop over a range of pages leaves mapped, and where.
use cat.Common.{
  ℕ, zero, suc, ◌+◌, ◌-◌, ◌*◌, ◌/◌, ◌%◌, ◌^◌, ◌≤◌, ◌<◌, ◌≡◌, ◌≢◌, refl, ◌∙◌, ap, sym, arith,
}
use cat.Common.{Bool, true, false, Option, none, some, inl, inr, ◌⊎◌, Bool-cases, ==→eq, ◌==◌}
use cat.Common.{Ends, Ends-bind, u64, within, ltb}
use cat.Elf.{Paging, PageTableFlags, Space, zeroed, use_mapping, use_frame, map_unless, map_pages}
use cat.Elf.Supply.{Given, Mapped, IsSupplied, IsApart, Lies}

beyond :
    (q page rounds : ℕ) → q < page ⊎ page + suc rounds ≤ q → q < page + 1 ⊎ page + 1 + rounds ≤ q
beyond q page rounds (inl h) = inl (omega arith)
beyond q page rounds (inr h) = inr (omega arith)

beside : (q page rounds : ℕ) → q < page ⊎ page + suc rounds ≤ q → q < page ⊎ page + 1 ≤ q
beside q page rounds (inl h) = inl h
beside q page rounds (inr h) = inr (omega arith)

away : (q page : ℕ) → q < page ⊎ page + 1 ≤ q → q ≢ page
away q page (inl h) e = omega arith
away q page (inr h) e = omega arith

pub some-eq : {a b : ℕ} → some a ≡ some b → a ≡ b
some-eq e = cc

not_free : (b c : Bool) → (b ≡ true → c ≡ true) → c ≡ false → b ≡ false
not_free true c h e = absurd (cc (h refl))
not_free false c h e = refl

module _ (paging : Paging) (hhdm : ℕ) (supplied : IsSupplied paging hhdm) where
  abbrev translate : Space paging hhdm → ℕ → Option ℕ
  translate s q = paging.translate_page s.table q

  -- The pages from `first` to below `last` have frames, and no other page's translation, nor that
  -- of a page that had a frame before, has changed. New pages hold zeros, and no memory has changed
  -- but that of frames that were free.
  pub record Maps (first last : ℕ) (s t : Space paging hhdm) : Type 0 where
    pub has_frame :
        (q : ℕ)
        → first ≤ q
        → q < last
        → (frame : ℕ) × (paging.translate_page t.table q ≡ some frame)
    pub same :
        (q frame : ℕ)
        → paging.translate_page s.table q ≡ some frame
        → paging.translate_page t.table q ≡ some frame
    pub outside :
        (q : ℕ)
        → q < first ⊎ last ≤ q
        → paging.translate_page t.table q ≡ paging.translate_page s.table q
    pub zeros :
        (q frame : ℕ)
        → first ≤ q
        → q < last
        → paging.translate_page s.table q ≡ none
        → paging.translate_page t.table q ≡ some frame
        → (a : ℕ) → within (frame + hhdm) 4096 a ≡ true
        → t.memory a ≡ 0
    pub kept :
        (a : ℕ)
        → ((x : ℕ) → supplied.free s.frames x ≡ true → within (x + hhdm) 4096 a ≡ false)
        → t.memory a ≡ s.memory a
    pub apart : IsApart paging hhdm supplied t
    pub less : (x : ℕ) → supplied.free t.frames x ≡ true → supplied.free s.frames x ≡ true
    pub counted : supplied.supply s.frames ≤ 4 * (last - first) + supplied.supply t.frames

  pub Maps-none :
      (page : ℕ) (s : Space paging hhdm) → IsApart paging hhdm supplied s → Maps page page s s
  Maps-none page s apart = record {
    has_frame = λ q h k. absurd (omega arith);
    same = λ q f h. h;
    outside = λ q h. refl;
    zeros = λ q f h k. absurd (omega arith);
    kept = λ a h. refl;
    apart = apart;
    less = λ x h. h;
    counted = omega arith;
  }

  -- One page gets a frame.
  module _ (flags : PageTableFlags) (page : ℕ) (s : Space paging hhdm)
      (apart : IsApart paging hhdm supplied s)
      (unmapped : paging.translate_page s.table page ≡ none)
      (given : Given paging hhdm supplied.free supplied.supply s.frames)
      (mapped : Mapped paging hhdm supplied.free supplied.supply s.table given.rest page given.frame
        flags) where
    abbrev pub after : Space paging hhdm
    after = record {
      table = mapped.table;
      frames = mapped.rest;
      memory = zeroed paging hhdm given.frame s.memory;
    }

    old_or_new :
        (q frame : ℕ)
        → paging.translate_page mapped.table q ≡ some frame
        → ((q ≡ page) × (frame ≡ given.frame)) ⊎ (paging.translate_page s.table q ≡ some frame)
    old_or_new q frame h = elim (Bool-cases (q == page)) [
      | inl e ↦
          let here : q ≡ page = ==→eq q page e in
          inl (here, some-eq (sym h ∙ ap (paging.translate_page mapped.table) here ∙ mapped.hit))
      | inr e ↦ inr (sym (mapped.miss q (λ (here : q ≡ page). ground arith)) ∙ h)
    ]

    not_given : (p frame : ℕ) → paging.translate_page s.table p ≡ some frame → frame ≢ given.frame
    not_given p frame h e =
        cc (apart.owned p frame h, given.was_free, ap (supplied.free s.frames) e)

    one_page :
        (p q frame : ℕ)
        → ((p ≡ page) × (frame ≡ given.frame)) ⊎ (paging.translate_page s.table p ≡ some frame)
        → ((q ≡ page) × (frame ≡ given.frame)) ⊎ (paging.translate_page s.table q ≡ some frame)
        → p ≡ q
    one_page p q frame (inl (a, b)) (inl (c, d)) = a ∙ sym c
    one_page p q frame (inl (a, b)) (inr h) = absurd (not_given q frame h b)
    one_page p q frame (inr h) (inl (c, d)) = absurd (not_given p frame h d)
    one_page p q frame (inr h) (inr k) = apart.injective p q frame h k

    not_left :
        (p frame : ℕ)
        → ((p ≡ page) × (frame ≡ given.frame)) ⊎ (paging.translate_page s.table p ≡ some frame)
        → supplied.free mapped.rest frame ≡ false
    not_left p frame (inl (a, b)) =
        not_free _ _ (mapped.less frame) (ap (supplied.free given.rest) b ∙ given.taken)
    not_left p frame (inr h) =
        not_free _ _ (λ e. given.less frame (mapped.less frame e)) (apart.owned p frame h)

    well_placed :
        (p frame : ℕ)
        → ((p ≡ page) × (frame ≡ given.frame)) ⊎ (paging.translate_page s.table p ≡ some frame)
        → (frame % 4096 ≡ 0) × (frame + hhdm + 4096 ≤ 2 ^ 64)
    well_placed p frame (inl (a, b)) = rw b (
      supplied.aligned s.frames given.frame given.was_free,
      supplied.direct s.frames given.frame given.was_free,
    )
    well_placed p frame (inr h) = (apart.aligned p frame h, apart.direct p frame h)

    pub after-Maps : Maps page (page + 1) s after
    after-Maps =
        let top = supplied.direct s.frames given.frame given.was_free in
        let start : u64 (given.frame + hhdm) ≡ given.frame + hhdm = omega arith in
        record {
          has_frame = λ q h k.
              let here : q ≡ page = omega arith in
              (given.frame, ap (paging.translate_page mapped.table) here ∙ mapped.hit);
          same = λ q f h.
              mapped.miss q
                (λ (here : q ≡ page). cc (h, ap (paging.translate_page s.table) here, unmapped))
              ∙ h;
          outside = λ q h. mapped.miss q (away q page h);
          zeros = λ q f h k _ found a inside.
              let here : q ≡ page = omega arith in
              let frame : f ≡ given.frame =
                some-eq (sym found ∙ ap (paging.translate_page mapped.table) here ∙ mapped.hit) in
              ground (arith, start, frame);
          kept = λ a h. let out = h given.frame given.was_free in rw (start, out) refl;
          apart = record {
            injective = λ p q f h k. one_page p q f (old_or_new p f h) (old_or_new q f k);
            owned = λ p f h. not_left p f (old_or_new p f h);
            aligned = λ p f h. (well_placed p f (old_or_new p f h)).0;
            direct = λ p f h. (well_placed p f (old_or_new p f h)).1;
          };
          less = λ x h. given.less x (mapped.less x h);
          counted = omega (arith, given.counted, mapped.counted);
        }

  pub not_in_free :
      (t : Space paging hhdm)
      → IsApart paging hhdm supplied t
      → (q frame a x : ℕ) → paging.translate_page t.table q ≡ some frame
      → within (frame + hhdm) 4096 a ≡ true
      → supplied.free t.frames x ≡ true
      → within (x + hhdm) 4096 a ≡ false
  not_in_free t apart q frame a x found inside is_free =
      let other : x ≢ frame =
        λ (e : x ≡ frame). cc (is_free, apart.owned q frame found, ap (supplied.free t.frames) e) in
      let xs = supplied.aligned t.frames x is_free in
      let fs = apart.aligned q frame found in ground arith

  pub Maps-trans :
      (first mid last : ℕ) (s t u : Space paging hhdm)
      → first ≤ mid
      → mid ≤ last
      → IsApart paging hhdm supplied s
      → Maps first mid s t
      → Maps mid last t u
      → Maps first last s u
  Maps-trans first mid last s t u le le' apart m n = record {
    has_frame = λ q h k. elim (Bool-cases (ltb q mid)) [
      | inl early ↦ let (f, found) = m.has_frame q h (ground arith) in (f, n.same q f found)
      | inr late ↦ n.has_frame q (ground arith) k
    ];
    same = λ q f h. n.same q f (m.same q f h);
    outside = λ q h. n.outside q (outer q h) ∙ m.outside q (inner q h);
    zeros = λ q frame h k unmapped found a inside. elim (Bool-cases (ltb q mid)) [
      | inl early ↦
          let (f, here) = m.has_frame q h (ground arith) in
          let frame_eq : f ≡ frame = some-eq (sym (n.same q f here) ∙ found) in
          let mapped = here ∙ ap some frame_eq in
          n.kept a (λ x is_free. not_in_free t m.apart q frame a x mapped inside is_free)
          ∙ m.zeros q frame h (ground arith) unmapped mapped a inside
      | inr late ↦
          n.zeros q frame (ground arith) k (m.outside q (inr (ground arith)) ∙ unmapped) found a
            inside
    ];
    kept = λ a h. n.kept a (λ x is_free. h x (m.less x is_free)) ∙ m.kept a h;
    apart = n.apart;
    less = λ x h. m.less x (n.less x h);
    counted = omega (arith, m.counted, n.counted);
  }
    where
      outer : (q : ℕ) → q < first ⊎ last ≤ q → q < mid ⊎ last ≤ q
      outer q (inl h) = inl (omega arith)
      outer q (inr h) = inr h

      inner : (q : ℕ) → q < first ⊎ last ≤ q → q < first ⊎ mid ≤ q
      inner q (inl h) = inl h
      inner q (inr h) = inr (omega arith)

  -- A byte of a page that had a frame stays where it is, and is not changed.
  pub Lies-Maps :
      (first last : ℕ) (s t : Space paging hhdm)
      → IsApart paging hhdm supplied s
      → Maps first last s t
      → (addr a : ℕ) → Lies paging hhdm s.table addr a
      → Lies paging hhdm t.table addr a × (t.memory a ≡ s.memory a)
  Lies-Maps first last s t apart m addr a l =
      let frame = l.frame in
      let place = l.place in
      let inside : within (frame + hhdm) 4096 a ≡ true = ground arith in
      (
        record {
          frame = frame;
          translated = m.same (addr / 4096) frame l.translated;
          place = place;
        },
        m.kept a
            (λ x is_free. not_in_free s apart (addr / 4096) frame a x l.translated inside is_free),
      )

  pub use_frame-Maps :
      (flags : PageTableFlags) (page : ℕ) (s : Space paging hhdm)
      → IsApart paging hhdm supplied s
      → 4 ≤ supplied.supply s.frames
      → paging.translate_page s.table page ≡ none
      → Ends
          (use_frame paging hhdm flags page s (paging.allocate_frame s.frames))
          (Maps page (page + 1) s)
  unfolding use_frame use_mapping
  use_frame-Maps flags page s apart enough e =
      let given = supplied.allocates s.frames (omega arith) in
      let left = given.counted in
      let mapped = supplied.maps s.table given.rest page given.frame flags e (omega arith) in
      rw (given.result, mapped.result)
        (record {
          value = after flags page s apart e given mapped;
          ends = refl;
          holds = after-Maps flags page s apart e given mapped;
        })

  map_unless-Maps :
      (flags : PageTableFlags) (page : ℕ) (s : Space paging hhdm) (now : Option ℕ)
      → IsApart paging hhdm supplied s
      → 4 ≤ supplied.supply s.frames
      → paging.translate_page s.table page ≡ now
      → Ends (map_unless paging hhdm flags page s now) (Maps page (page + 1) s)
  unfolding map_unless
  map_unless-Maps flags page s (some frame) apart enough e = record {
    value = s;
    ends = refl;
    holds = record {
      has_frame = λ q h k.
          let here : q ≡ page = omega arith in (frame, ap (paging.translate_page s.table) here ∙ e);
      same = λ q f h. h;
      outside = λ q h. refl;
      zeros = λ q f h k unmapped found. cc;
      kept = λ a h. refl;
      apart = apart;
      less = λ x h. h;
      counted = omega arith;
    };
  }
  map_unless-Maps flags page s none apart enough e = use_frame-Maps flags page s apart enough e

  pub map_to_last :
      (flags : PageTableFlags) (rounds page last : ℕ) (s : Space paging hhdm)
      → page + rounds ≡ last
      → IsApart paging hhdm supplied s
      → 4 * rounds ≤ supplied.supply s.frames
      → Ends (map_pages paging hhdm flags rounds page s) (Maps page last s)
  unfolding map_pages
  map_to_last flags zero page last s e apart enough =
      let stop : last ≡ page = omega arith in
      rw stop (record { value = s; ends = refl; holds = Maps-none page s apart })
  map_to_last flags (suc rounds) page last s e apart enough =
      Ends-bind _ _
        (map_unless-Maps flags page s (paging.translate_page s.table page) apart (omega arith) refl)
        (λ t first.
          let left = first.counted in
          let later =
            map_to_last flags rounds (page + 1) last t (omega arith) first.apart (omega arith) in
          record {
            value = later.value;
            ends = later.ends;
            holds =
                Maps-trans page (page + 1) last s t later.value (omega arith) (omega arith) apart
                  first later.holds;
          })

  -- From a space in which pages have frames of their own, and with four free frames for each page of
  -- a range, the loop over the range ends, gives every page of it a frame, keeps the frame of each
  -- page that had one, maps no other page and fills the new pages with zeros. It changes no other
  -- memory than that of frames which were free, and again pages have frames of their own.
  pub map_pages-Maps :
      (flags : PageTableFlags) (rounds page : ℕ) (s : Space paging hhdm)
      → IsApart paging hhdm supplied s
      → 4 * rounds ≤ supplied.supply s.frames
      → Ends (map_pages paging hhdm flags rounds page s) (Maps page (page + rounds) s)
  map_pages-Maps flags rounds page s = map_to_last flags rounds page (page + rounds) s refl
