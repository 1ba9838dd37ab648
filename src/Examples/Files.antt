-- ===== src/Examples/Files.antt =====
-- A file with a build ID, and one that needs two libraries.
use nsb.Base.{ℕ, ◌≡◌, Bool, true, List, [], ◌∷◌, length, Option, none, some, arith}
use nsb.Base.Text.{Text, codes}
use nsb.Elf.Sections.{Section, ElfFile, get_build_id}
use nsb.Elf.Dynamic.{Allocation}
use nsb.Elf.Sections.BuildId.{read_bytes, get_build_id-reads}

get_build_id-reads_example :
    (text : Text) × (get_build_id true (record {
      header = none;
      name = some (codes ".note.gnu.build-id");
      data_ = some (4 ∷ 0 ∷ 0x1f ∷ 0xa0 ∷ []);
      note = some (2, 2);
    })
      ≡ some text)
    × (read_bytes text ≡ 0x1f ∷ 0xa0 ∷ [])
    × (length text ≡ 4)
get_build_id-reads_example =
    get_build_id-reads none (some (codes ".note.gnu.build-id")) (4 ∷ 0 ∷ 0x1f ∷ 0xa0 ∷ []) 2 2
      (omega arith, (omega arith, (omega arith, (omega arith, tt))))

abbrev strings : Section
strings = record {
  header = some (record { sh_addr = 0x400; sh_offset = 0x400 });
  name = some (codes ".dynstr");
  data_ = none;
  note = none;
}

abbrev entries : List (Option (ℕ × ℕ))
entries = some (1, 1) ∷ some (5, 0x400) ∷ some (1, 9) ∷ []

abbrev file : ElfFile
file = record {
  e_type = 3;
  has_shstrndx = true;
  has_ehdr = true;
  zeroth = record { header = none; name = none; data_ = none; note = none };
  sections = strings ∷ [];
  dynamic = some entries;
  strptr = λ scn offset. some (offset ∷ []);
}

abbrev memory : Allocation → Bool
memory a = true
