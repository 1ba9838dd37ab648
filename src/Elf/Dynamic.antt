-- ===== src/Elf/Dynamic.antt =====
-- The dynamic section of an ELF file: its soname, the names of the libraries it needs, and what is kept of
-- a file that is opened (patcher/elf.c).
pub mod Needed
use nsb.Base.{
  ℕ, zero, suc, ◌+◌, ◌/◌, ◌%◌, Bool, true, false, ◌&&◌, ◌||◌, List, [], ◌∷◌, ◌++◌, length, take,
  drop, Option, none, some, ◌⊎◌, inl, inr, ◌==◌, not, if◌then◌else◌,
}
use nsb.Base.Int.{ℤ, pos, negsuc, is_neg, is_zero, eq_ℤ, of_bool, einval, enoent, enomem}
use nsb.Base.Text.{Text, codes, str_eq}
use nsb.Base.Word.{signed64, sub64}
use nsb.Util.{hex_digit}
use nsb.Elf.Sections.{Section, ElfFile, elf_get_section_by_addr, elf_get_bid}

-- `DT_NEEDED`, `DT_STRTAB` and `DT_SONAME`
abbrev pub dt_needed : ℕ
dt_needed = 1

abbrev pub dt_strtab : ℕ
dt_strtab = 5

abbrev pub dt_soname : ℕ
dt_soname = 14

-- An error, or the value of the first entry with the tag.
unfoldable pub find_tag : (d_tag : ℕ) → List (Option (ℕ × ℕ)) → ℤ ⊎ ℕ
find_tag d_tag [] = inl enoent
find_tag d_tag (none ∷ dyns) = inl einval
find_tag d_tag (some (tag, val) ∷ dyns) =
    let rest = find_tag d_tag dyns in if tag == d_tag then inr val else rest

unfoldable pub find_dyn : ElfFile → (d_tag : ℕ) → ℤ ⊎ ℕ
find_dyn f d_tag = elim f.dynamic [ none ↦ inl enoent | some dyns ↦ find_tag d_tag dyns ]

unfoldable pub elf_get_strtab_scn : ElfFile → Option Section
elf_get_strtab_scn f = elim (find_dyn f dt_strtab) [
  | inl err ↦ none
  | inr d_ptr ↦ elf_get_section_by_addr f d_ptr
]

-- The string at the value of an entry.
abbrev pub dyn_string : ElfFile → ℕ → ℤ ⊎ Text
dyn_string f d_val = elim (elf_get_strtab_scn f) [
  | none ↦ inl einval
  | some strtab_scn ↦ (elim (f.strptr strtab_scn d_val) [
    | none ↦ inl einval
    | some name ↦ inr name
  ])
]

-- The allocations that are made for a file: for its structure and its path, for the soname, for an
-- entry of the list of needed libraries and for its name, by the entries before it, and for the build ID.
pub data Allocation : Type 0 where
  for_info : Allocation
  for_path : Allocation
  for_soname : Allocation
  for_entry : (before : ℕ) → Allocation
  for_name : (before : ℕ) → Allocation
  for_bid : Allocation

abbrev pub soname_at : ElfFile → (alloc_succeeds : Bool) → ℤ ⊎ ℕ → ℤ ⊎ Option Text
soname_at f alloc_succeeds (inl err) = if eq_ℤ err enoent then inr none else inl err
soname_at f alloc_succeeds (inr d_val) = elim (dyn_string f d_val) [
  | inl err ↦ inl err
  | inr name ↦ (if alloc_succeeds then inr (some name) else inl enomem)
]

-- An error, or the soname, which need not be there.
unfoldable pub elf_get_soname : (alloc_succeeds : Bool) → ElfFile → ℤ ⊎ Option Text
elf_get_soname alloc_succeeds f =
    let found = soname_at f alloc_succeeds (find_dyn f dt_soname) in
    if not (f.e_type == 3)
    then inr none
    else elim (elf_get_strtab_scn f) [ none ↦ inl einval | some scn ↦ found ]

-- One entry: its name joins the list, which takes two allocations.
unfoldable pub collect_needed :
    ElfFile → (alloc_succeeds : Allocation → Bool) → ℕ × ℕ → List Text → ℤ × List Text
collect_needed f alloc_succeeds (tag, val) needed =
    if not (tag == dt_needed) then (pos 0, needed) else elim (dyn_string f val) [
      | inl err ↦ (err, needed)
      | inr name ↦
          (if alloc_succeeds (Allocation.for_entry (length needed))
              && alloc_succeeds (Allocation.for_name (length needed))
            then (pos 0, needed ++ name ∷ [])
            else (enomem, needed))
    ]

unfoldable pub iter_dyn_sym :
    ElfFile
    → (alloc_succeeds : Allocation → Bool) → List (Option (ℕ × ℕ))
    → List Text
    → ℤ × List Text
iter_dyn_sym f alloc_succeeds [] needed = (pos 0, needed)
iter_dyn_sym f alloc_succeeds (none ∷ dyns) needed = (einval, needed)
iter_dyn_sym f alloc_succeeds (some dyn ∷ dyns) needed =
    let (ret, needed') = collect_needed f alloc_succeeds dyn needed in
    let rest = iter_dyn_sym f alloc_succeeds dyns needed' in
    if is_zero ret then rest else (ret, needed')

-- What is kept of a file that was opened.
pub record FileInfo : Type 0 where
  pub soname : Option Text
  pub needed : List Text
  pub bid : Option Text

abbrev pub with_needed :
    ElfFile → (alloc_succeeds : Allocation → Bool) → Option Text → ℤ × List Text → ℤ ⊎ FileInfo
with_needed f alloc_succeeds so (err, names) =
    if not (is_zero err)
    then inl err
    else inr (record {
      soname = so;
      needed = names;
      bid = elf_get_bid (alloc_succeeds Allocation.for_bid) f;
    })

-- `elf_collect_needed`, of a file that has no list yet.
unfoldable pub elf_collect_needed : ElfFile → (alloc_succeeds : Allocation → Bool) → ℤ × List Text
elf_collect_needed f alloc_succeeds = elim f.dynamic [
  | none ↦ (enoent, [])
  | some dyns ↦ iter_dyn_sym f alloc_succeeds dyns []
]

-- `opened` is what `elf_open` results in: an error, or the file.
unfoldable pub elf_create_info :
    (alloc_succeeds : Allocation → Bool) → (opened : ℤ ⊎ ElfFile) → ℤ ⊎ FileInfo
elf_create_info alloc_succeeds (inl err) = inl err
elf_create_info alloc_succeeds (inr f) =
    let rest : ℤ ⊎ FileInfo = elim (elf_get_soname (alloc_succeeds Allocation.for_soname) f) [
      | inl err ↦ inl err
      | inr so ↦ with_needed f alloc_succeeds so (elf_collect_needed f alloc_succeeds)
    ] in
    if not (alloc_succeeds Allocation.for_info && alloc_succeeds Allocation.for_path)
    then inl enomem
    else if not f.has_shstrndx || not f.has_ehdr
    then inl einval
    else rest

unfoldable pub elf_soname_needed : (needed : List Text) (soname : Text) → Bool
elf_soname_needed [] soname = false
elf_soname_needed (n ∷ ns) soname =
    let rest = elf_soname_needed ns soname in if str_eq n soname then true else rest
