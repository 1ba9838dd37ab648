-- ===== src/Service/Libraries.antt =====
-- The service's list of libraries (plugins/service.c). Its own memory is that of the target, so what
-- the dynamic linker lists is data here.
use nsb.Base.{ℕ, List, [], ◌∷◌, length, Option, none, some, ◌⊎◌, inl, inr, ◌==◌, if◌then◌else◌}
use nsb.Base.Int.{ℤ, eq_ℤ, e2big, enoent}
use nsb.Base.Word.{signed64}
use nsb.Rtld.{dt_symtab, with_symtab}

-- `struct link_map`: its load address, and its dynamic section up to the entry that ends it.
pub record LinkMap : Type 0 where
  pub l_addr : ℕ
  pub l_ld : List (ℕ × ℕ)

unfoldable pub nsb_service_dynamic_tag_val : List (ℕ × ℕ) → (d_tag : ℕ) → ℤ
nsb_service_dynamic_tag_val [] d_tag = enoent
nsb_service_dynamic_tag_val ((tag, val) ∷ ds) d_tag =
    let rest = nsb_service_dynamic_tag_val ds d_tag in if tag == d_tag then signed64 val else rest

-- `NSB_SERVICE_NEEDED_LIST_SIZE_MAX / sizeof(nl->address)`
abbrev pub max_base_addrs : ℕ
max_base_addrs = 1022

-- What one round of the loop adds to the addresses, or its error.
unfoldable pub with_library : LinkMap → List ℕ → ℤ ⊎ List ℕ
with_library lm addresses =
    let dt_symtab_addr = nsb_service_dynamic_tag_val lm.l_ld dt_symtab in
    if length addresses == max_base_addrs
    then inl e2big
    else if eq_ℤ dt_symtab_addr enoent
    then inl enoent
    else inr (with_symtab dt_symtab_addr (signed64 lm.l_addr) addresses)

abbrev pub or_rest : ℤ ⊎ List ℕ → (List ℕ → Option (ℤ ⊎ List ℕ)) → Option (ℤ ⊎ List ℕ)
or_rest (inl err) rest = some (inl err)
or_rest (inr addresses) rest = rest addresses

-- The loop from a library on. The last one is the service itself, which is left out. A list of one
-- library alone is none here: the source reads through the NULL pointer behind it.
unfoldable pub needed_libraries : List LinkMap → List ℕ → Option (ℤ ⊎ List ℕ)
needed_libraries [] addresses = none
needed_libraries (lm ∷ []) addresses = or_rest (with_library lm addresses) (λ _. none)
needed_libraries (lm ∷ last ∷ []) addresses =
    or_rest (with_library lm addresses) (λ all_. some (inr all_))
needed_libraries (lm ∷ next ∷ after ∷ lms) addresses =
    or_rest (with_library lm addresses) (needed_libraries (next ∷ after ∷ lms))

unfoldable pub nsb_service_cmd_needed_list : (r_map : List LinkMap) → Option (ℤ ⊎ List ℕ)
nsb_service_cmd_needed_list r_map = needed_libraries r_map []
