-- ===== src/DlMap/Range.antt =====
-- The range check of patcher/dl_map.c against what a jump can reach (patcher/x86_64.c).
use nsb.Base.{ℕ, ◌+◌, ◌^◌, ◌≤◌, ◌<◌, ◌≡◌, arith, ltb, if◌then◌else◌}
use nsb.Base.Int.{pos, erange}
use nsb.Base.Word.{add64}
use nsb.DlMap.{DlMap, dl_map_start, dl_map_end, dl_map_check_jump_range}
use nsb.X86.{x86_jump_min_address, x86_jump_max_address}
use nsb.X86.Jump.{Reaches}

range_bounds :
    (start end base : ℕ)
    → (if ltb base (x86_jump_min_address end)
        then erange
        else if ltb (x86_jump_max_address start) base
        then erange
        else pos 0)
      ≡ pos 0
    → (end ≤ base + 2 ^ 31) × (base ≤ add64 start (2 ^ 31))
unfolding x86_jump_min_address x86_jump_max_address
range_bounds start end base h = ground arith

pub check_jump_range_bounds :
    (dlm : DlMap) (base : ℕ)
    → dl_map_check_jump_range dlm base ≡ pos 0
    → (dl_map_end dlm ≤ base + 2 ^ 31) × (base ≤ add64 (dl_map_start dlm) (2 ^ 31))
unfolding dl_map_check_jump_range
check_jump_range_bounds dlm base h = range_bounds (dl_map_start dlm) (dl_map_end dlm) base h

distance_in_reach :
    (start end func patch : ℕ)
    → end < 2 ^ 63
    → start ≤ func
    → func + 5 < end
    → end ≤ patch + 2 ^ 31
    → patch ≤ add64 start (2 ^ 31)
    → Reaches func patch
distance_in_reach start end func patch top in_start in_end lo hi = ground arith

-- If both ends of a hole pass `dl_map_check_jump_range` for a target, a jump at any function of the
-- target reaches any address of the hole. The target ends below 2^63, as user space does, and the
-- jump's five bytes end inside the target.
pub check_jump_range-Reaches :
    (dlm : DlMap) (base size func patch : ℕ)
    → dl_map_check_jump_range dlm base ≡ pos 0
    → dl_map_check_jump_range dlm (base + size) ≡ pos 0
    → dl_map_end dlm < 2 ^ 63
    → dl_map_start dlm ≤ func
    → func + 5 < dl_map_end dlm
    → base ≤ patch
    → patch ≤ base + size
    → Reaches func patch
unfolding dl_map_check_jump_range
check_jump_range-Reaches dlm base size func patch lo hi top in_start in_end ge le =
    distance_in_reach (dl_map_start dlm) (dl_map_end dlm) func patch top in_start in_end
      (omega (arith, (check_jump_range_bounds dlm base lo).0))
      (omega (arith, (check_jump_range_bounds dlm (base + size) hi).1))
