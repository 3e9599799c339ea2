-- ===== src/Helpers/Tests.antt =====
-- shared/src/helpers.rs: the helpers at concrete addresses.
use cat.Common.{◌≡◌, ◌^◌, ◌-◌, refl, arith, ltb, leb, ◌||◌}
use cat.Helpers.{is_canonical, align_up}
use cat.Helpers.Laws.{IsNextMultiple, align_up-IsNextMultiple, is_canonical_lem}

bss_end_aligned : align_up 4653 4096 ≡ 8192
unfolding align_up
bss_end_aligned = refl

last_page_aligned : align_up (2 ^ 64 - 4095) 4096 ≡ 0
unfolding align_up
last_page_aligned = refl

align_up-IsNextMultiple_example : IsNextMultiple (2 ^ 12) 4653 (align_up 4653 (2 ^ 12))
align_up-IsNextMultiple_example = align_up-IsNextMultiple 12 4653 (omega arith) (omega arith)

first_non_canonical :
    is_canonical (2 ^ 47) ≡ (ltb (2 ^ 47) (2 ^ 47) || leb (2 ^ 64 - 2 ^ 47) (2 ^ 47))
first_non_canonical = is_canonical_lem (2 ^ 47) (omega arith)
