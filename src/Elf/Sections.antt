-- ===== src/Elf/Sections.antt =====
-- The sections of an ELF file and its build ID (patcher/elf.c), over what libelf decodes.
pub mod BuildId
use nsb.Base.{
  ℕ, zero, suc, ◌+◌, ◌/◌, ◌%◌, Bool, true, false, ◌&&◌, ◌||◌, List, [], ◌∷◌, ◌++◌, length, take,
  drop, Option, none, some, ◌⊎◌, inl, inr, ◌==◌, not, if◌then◌else◌,
}
use nsb.Base.Int.{ℤ, pos, negsuc, is_neg, is_zero, eq_ℤ, of_bool, einval, enoent, enomem}
use nsb.Base.Text.{Text, codes, str_eq}
use nsb.Base.Word.{signed64, sub64}
use nsb.Util.{hex_digit}

-- `GElf_Shdr`
pub record Shdr : Type 0 where
  pub sh_addr : ℕ
  pub sh_offset : ℕ

-- A section: its header, the string that its name is at, its data, and where its note has how many
-- bytes; none of any where libelf fails.
pub record Section : Type 0 where
  pub header : Option Shdr
  pub name : Option Text
  pub data_ : Option (List ℕ)
  pub note : Option (ℕ × ℕ)

-- A file that is open: the section with index 0, which no walk comes to, and those behind it; the
-- entries of `.dynamic` by tag and value, where the section can be had, with none for one that libelf
-- fails at; the strings of a section.
pub record ElfFile : Type 0 where
  pub e_type : ℕ
  pub has_shstrndx : Bool
  pub has_ehdr : Bool
  pub zeroth : Section
  pub sections : List Section
  pub dynamic : Option (List (Option (ℕ × ℕ)))
  pub strptr : Section → ℕ → Option Text

unfoldable pub get_section_name : Section → Option Text
get_section_name scn = elim scn.header [ none ↦ none | some shdr ↦ scn.name ]

unfoldable pub find_section : (compare : Section → ℤ) → List Section → Option Section
find_section compare [] = none
find_section compare (scn ∷ scns) =
    let ret = compare scn in
    let rest = find_section compare scns in
    if is_neg ret then none else if not (is_zero ret) then some scn else rest

unfoldable pub scn_compare_name : (name : Text) → Section → ℤ
scn_compare_name name scn = elim (get_section_name scn) [
  | none ↦ einval
  | some sname ↦ of_bool (str_eq sname name)
]

unfoldable pub elf_get_section_by_name : ElfFile → Text → Option Section
elf_get_section_by_name f name = find_section (scn_compare_name name) f.sections

unfoldable pub elf_has_section : ElfFile → Text → Bool
elf_has_section f name = elim (elf_get_section_by_name f name) [ none ↦ false | some scn ↦ true ]

unfoldable pub get_section_addr : Section → ℤ
get_section_addr scn = elim scn.header [ none ↦ einval | some shdr ↦ signed64 shdr.sh_addr ]

unfoldable pub scn_compare_addr : (addr : ℤ) → Section → ℤ
scn_compare_addr addr scn =
    let saddr = get_section_addr scn in if is_neg saddr then saddr else of_bool (eq_ℤ saddr addr)

unfoldable pub elf_get_section_by_addr : ElfFile → (addr : ℕ) → Option Section
elf_get_section_by_addr f addr = find_section (scn_compare_addr (signed64 addr)) f.sections

abbrev pub nth_section : List Section → ℕ → Option Section
nth_section [] n = none
nth_section (scn ∷ scns) zero = some scn
nth_section (scn ∷ scns) (suc n) = nth_section scns n

unfoldable pub elf_get_section_by_ndx : ElfFile → (ndx : ℕ) → Option Section
elf_get_section_by_ndx f ndx = nth_section (f.zeroth ∷ f.sections) ndx

abbrev pub virt_base_of : Option Section → ℤ
virt_base_of none = einval
virt_base_of (some scn) = elim scn.header [
  | none ↦ einval
  | some shdr ↦ signed64 (sub64 shdr.sh_addr shdr.sh_offset)
]

unfoldable pub elf_section_virt_base : ElfFile → (ndx : ℕ) → ℤ
elf_section_virt_base f ndx = virt_base_of (elf_get_section_by_ndx f ndx)

-- `sprintf(b, "%02x", *d++ & 0xff)` for each of the bytes.
unfoldable pub print_bytes : List ℕ → Text
print_bytes [] = []
print_bytes (d ∷ ds) = hex_digit (d / 16 % 16) ∷ hex_digit (d % 16) ∷ print_bytes ds

unfoldable pub get_build_id : (alloc_succeeds : Bool) → Section → Option Text
get_build_id alloc_succeeds bid_scn = elim bid_scn.data_ [
  | none ↦ none
  | some bytes ↦ (elim bid_scn.note [
    | none ↦ none
    | some (n_descsz, doff) ↦
        if alloc_succeeds then some (print_bytes (take n_descsz (drop doff bytes))) else none
  ])
]

unfoldable pub elf_get_bid : (alloc_succeeds : Bool) → ElfFile → Option Text
elf_get_bid alloc_succeeds f = elim (elf_get_section_by_name f (codes ".note.gnu.build-id")) [
  | none ↦ none
  | some scn ↦ get_build_id alloc_succeeds scn
]
