-- ===== src/Elf.antt =====
-- ELF files as libelf decodes them, and the lookups of patcher/elf.c in their dynamic symbols.
pub mod Dynamic
pub mod Load
pub mod Reloc
pub mod Sections
use nsb.Base.{
  ℕ, Bool, true, false, List, [], ◌∷◌, Option, none, some, ◌==◌, not, ◌&&◌, if◌then◌else◌,
}
use nsb.Base.Int.{ℤ, pos, is_neg, is_zero, eq_ℤ, of_bool, enoent, einval}
use nsb.Base.Text.{Text, str_eq}
use nsb.Base.Word.{signed64}

-- `GElf_Sym`; `name` is what `elf_strptr` finds at `st_name` in the string table (none: it fails).
pub record Sym : Type 0 where
  pub st_name : ℕ
  pub st_info : ℕ
  pub st_value : ℕ
  pub st_size : ℕ
  pub name : Option Text

-- `GElf_Phdr`
pub record Phdr : Type 0 where
  pub p_type : ℕ
  pub p_flags : ℕ
  pub p_offset : ℕ
  pub p_vaddr : ℕ
  pub p_filesz : ℕ

-- `GElf_Rela`
pub record Rela : Type 0 where
  pub r_offset : ℕ
  pub r_info : ℕ
  pub r_addend : ℕ

-- `struct elf_info_s`: of a table, none means that its section cannot be had, and a none in it that
-- libelf fails at this entry.
pub record ElfInfo : Type 0 where
  pub path : Text
  pub e_type : ℕ
  pub bid : Option Text
  pub has_dynstr : Bool
  pub dynsym : Option (List (Option Sym))
  pub rela_plt : Option (List (Option Rela))
  pub rela_dyn : Option (List (Option Rela))
  pub phdrs : Option (List (Option Phdr))

-- `ET_DYN`
unfoldable pub elf_type_dyn : ElfInfo → Bool
elf_type_dyn ei = ei.e_type == 3

-- The name of a symbol, or an error; `st_name` is 0 for a symbol with no name.
unfoldable pub dynsym_name : ElfInfo → Sym → ℤ × Option Text
dynsym_name ei sym =
    if not ei.has_dynstr
    then (einval, none)
    else if sym.st_name == 0
    then (pos 0, none)
    else elim sym.name [ none ↦ (einval, none) | some name ↦ (pos 0, some name) ]

abbrev name_is : Text → Option Text → Bool
name_is symname none = false
name_is symname (some name) = str_eq name symname

unfoldable pub compare_sym_name : ElfInfo → Text → Sym → ℤ
unfolding dynsym_name
compare_sym_name ei symname sym =
    let (err, name) = dynsym_name ei sym in
    if sym.st_name == 0
    then pos 0
    else if sym.st_size == 0
    then pos 0
    else if not (is_zero err)
    then err
    else of_bool (name_is symname name)

-- The first result other than 0 of `compare`, and its symbol.
unfoldable pub find_sym : (Sym → ℤ) → List (Option Sym) → ℤ × Option Sym
find_sym compare [] = (enoent, none)
find_sym compare (none ∷ syms) = (enoent, none)
find_sym compare (some sym ∷ syms) =
    let rest = find_sym compare syms in
    if is_zero (compare sym) then rest else (compare sym, some sym)

unfoldable pub find_dyn_sym : ElfInfo → (Sym → ℤ) → ℤ × Option Sym
unfolding find_sym
find_dyn_sym ei compare = elim ei.dynsym [
  | none ↦ (enoent, none)
  | some syms ↦ find_sym compare syms
]

unfoldable pub elf_find_dsym_by_name : ElfInfo → Text → ℤ × Option Sym
unfolding find_dyn_sym compare_sym_name
elf_find_dsym_by_name ei symname = find_dyn_sym ei (compare_sym_name ei symname)

abbrev value_of : Option Sym → ℤ
value_of none = pos 0
value_of (some sym) = signed64 sym.st_value

unfoldable pub elf_dsym_offset : ElfInfo → Text → ℤ
unfolding elf_find_dsym_by_name
elf_dsym_offset ei name =
    let (err, sym) = elf_find_dsym_by_name ei name in if is_neg err then err else value_of sym

-- 0 where the file does not define the symbol.
unfoldable pub elf_dyn_sym_value : ElfInfo → Text → ℤ
unfolding elf_find_dsym_by_name
elf_dyn_sym_value ei name =
    let (err, sym) = elf_find_dsym_by_name ei name in
    if is_neg err then (if not (eq_ℤ err enoent) then err else pos 0) else value_of sym

-- As the source has it: `find_sym` returns 1 for a symbol that is there, which no case lists.
unfoldable pub elf_contains_sym : ElfInfo → Text → ℤ
unfolding elf_find_dsym_by_name
elf_contains_sym ei symname =
    let (err, sym) = elf_find_dsym_by_name ei symname in
    if is_zero err then pos 1 else if eq_ℤ err enoent then pos 0 else err
