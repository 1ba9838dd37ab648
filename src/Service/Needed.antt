-- ===== src/Service/Needed.antt =====
-- The service's list of libraries (plugins/service.c) and the one the patcher reads from the target's
-- memory (patcher/rtld.c) are the same.
use nsb.Base.{ℕ, ◌^◌, ◌<◌, ◌≡◌, List, [], ◌∷◌}
use nsb.Base.Int.{pos}
use nsb.Rtld.{dt_symtab}
use nsb.Rtld.Listed.{Libraries}
use nsb.Service.Libraries.{LinkMap, nsb_service_dynamic_tag_val}

-- The dynamic section of each library has the symbol table, at an address of user space, and the
-- library is at its load address.
abbrev pub Describe : List LinkMap → List (ℕ × ℕ) → Type 0
Describe [] [] = Unit
Describe [] ((v, l) ∷ libs) = ⊥
Describe (lm ∷ lms) [] = ⊥
Describe (lm ∷ lms) ((v, l) ∷ libs) =
    (nsb_service_dynamic_tag_val lm.l_ld dt_symtab ≡ pos v)
    × (v < 2 ^ 63)
    × (lm.l_addr ≡ l)
    × Describe lms libs
