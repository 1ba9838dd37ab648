-- ===== src/Relocations/Order.antt =====
-- In which object the search of patcher/relocations.c finds a symbol.
use nsb.Base.{ℕ, ◌≡◌, ◌⊎◌, Bool, true, false, Option, none, some, ◌==◌, not, ◌&&◌, if◌then◌else◌}
use nsb.Base.Int.{ℤ, is_neg, is_zero, enoent}
use nsb.Base.Text.{Text}
use nsb.Base.Word.{signed64}
use nsb.DlMap.{DlMap}
use nsb.Relocations.{is_stop, value_in}

-- The patch stands in for the object: it is the one that the patch replaces, and the patch has the symbol.
abbrev pub stands_in : Option DlMap → (patch_value : ℕ) → DlMap → Bool
stands_in stop_dlm patch_value d = not (patch_value == 0) && is_stop stop_dlm d

-- The object, or the patch in its place, ends the search: it has the symbol, or cannot be read.
abbrev pub Provides : Option DlMap → Option Text → (patch_value : ℕ) → DlMap → Type 0
Provides stop_dlm name patch_value d =
    (stands_in stop_dlm patch_value d ≡ true) ⊎ (is_zero (value_in name d) ≡ false)

-- What the search gives for the object that ends it.
abbrev pub provided : Option DlMap → Option Text → (patch_value : ℕ) → Option DlMap → ℤ × Option ℕ
provided stop_dlm name patch_value none = (enoent, none)
provided stop_dlm name patch_value (some d) =
    if stands_in stop_dlm patch_value d
    then (signed64 patch_value, none)
    else (value_in name d, if is_neg (value_in name d) then none else some d.id)
