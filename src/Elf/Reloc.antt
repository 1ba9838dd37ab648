-- ===== src/Elf/Reloc.antt =====
-- The relocations of a patch (patcher/elf.c): collecting those that name a symbol, and giving them their
-- value. Printing their types and bindings is left out.
use nsb.Base.{
  ℕ, suc, ◌/◌, ◌%◌, ◌^◌, Bool, List, [], ◌∷◌, ◌++◌, Option, none, some, get_elem?, ◌==◌, not, ◌||◌,
  if◌then◌else◌,
}
use nsb.Base.Int.{ℤ, pos, is_zero, enoent, einval, enomem, enotsup}
use nsb.Base.Text.{Text}
use nsb.Base.Word.{add64}
use nsb.Elf.{Sym, Rela, ElfInfo, dynsym_name}

-- `struct extern_symbol`; `address` is the bit pattern of the `int64_t`, and `found_in` the object that
-- `dlm` points to, by its id.
pub record ExternSymbol : Type 0 where
  pub name : Option Text
  pub rela : Rela
  pub sym : Sym
  pub address : ℕ
  pub found_in : Option ℕ

abbrev pub es_r_type : ExternSymbol → ℕ
es_r_type es = es.rela.r_info % 2 ^ 32

abbrev pub gelf_r_sym : Rela → ℕ
gelf_r_sym rela = rela.r_info / 2 ^ 32

abbrev pub es_r_sym : ExternSymbol → ℕ
es_r_sym es = gelf_r_sym es.rela

abbrev pub es_s_bind : ExternSymbol → ℕ
es_s_bind es = es.sym.st_info / 16

-- `STB_WEAK`
unfoldable pub elf_weak_sym : ExternSymbol → Bool
elf_weak_sym es = es_s_bind es == 2

-- Where the relocations are collected: the list, and the allocations made.
pub record Relocs : Type 0 where
  pub syms : List ExternSymbol
  pub allocs : ℕ

module _ (alloc_succeeds : ℕ → Bool) where
  -- Two structures are allocated.
  unfoldable pub create_ext_sym : Option Text → Rela → Sym → ℕ → Option ExternSymbol × ℕ
  create_ext_sym name rela sym n =
      let es : ExternSymbol = record {
        name = name;
        rela = rela;
        sym = sym;
        address = 0;
        found_in = none;
      } in
      if not (alloc_succeeds n)
      then (none, suc n)
      else if not (alloc_succeeds (suc n))
      then (none, suc (suc n))
      else (some es, suc (suc n))

  abbrev added : Relocs → Option ExternSymbol × ℕ → ℤ × Relocs
  added s (none, n) = (enomem, record s { allocs = n })
  added s (some es, n) = (pos 0, record { syms = s.syms ++ es ∷ []; allocs = n })

  abbrev named : ElfInfo → Rela → Relocs → Option (Option Sym) → ℤ × Relocs
  named ei rela s none = (enoent, s)
  named ei rela s (some none) = (enoent, s)
  named ei rela s (some (some sym)) =
      let (err, name) = dynsym_name ei sym in
      if sym.st_name == 0
      then (pos 0, s)
      else if not (is_zero err)
      then (err, s)
      else added s (create_ext_sym name rela sym s.allocs)

  unfoldable pub collect_es : ElfInfo → Rela → Relocs → ℤ × Relocs
  collect_es ei rela s = elim ei.dynsym [
    | none ↦ (einval, s)
    | some syms ↦ named ei rela s (get_elem? syms (gelf_r_sym rela))
  ]

  unfoldable pub iter_rela : ElfInfo → List (Option Rela) → Relocs → ℤ × Relocs
  iter_rela ei [] s = (pos 0, s)
  iter_rela ei (none ∷ relas) s = (einval, s)
  iter_rela ei (some rela ∷ relas) s =
      let (err, s') = collect_es ei rela s in
      let rest = iter_rela ei relas s' in if is_zero err then rest else (err, s')

  -- On an error the list is emptied.
  unfoldable pub elf_collect_rela : ElfInfo → List (Option Rela) → Relocs → ℤ × Relocs
  elf_collect_rela ei relas s =
      let (err, s') = iter_rela ei relas s in
      if is_zero err then (pos 0, s') else (err, record s' { syms = [] })

  abbrev collected : ElfInfo → Option (List (Option Rela)) → Relocs → ℤ × Relocs
  collected ei none s = (enoent, s)
  collected ei (some relas) s = elf_collect_rela ei relas s

  unfoldable pub elf_rela_plt : ElfInfo → Relocs → ℤ × Relocs
  elf_rela_plt ei s = collected ei ei.rela_plt s

  unfoldable pub elf_rela_dyn : ElfInfo → Relocs → ℤ × Relocs
  elf_rela_dyn ei s = collected ei ei.rela_dyn s

-- `R_X86_64_GLOB_DAT` and `R_X86_64_JUMP_SLOT`
abbrev pub is_slot : ℕ → Bool
is_slot type = (type == 6) || (type == 7)

-- Every type but three is refused; `R_X86_64_64` adds the addend.
unfoldable pub elf_reloc_sym : ExternSymbol → (address : ℕ) → ℤ × ExternSymbol
elf_reloc_sym es address =
    if is_slot (es_r_type es)
    then (pos 0, record es { address = address })
    else if es_r_type es == 1
    then (pos 0, record es { address = add64 address es.rela.r_addend })
    else (enotsup, es)
