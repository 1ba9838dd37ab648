-- ===== src/Examples.antt =====
-- Tests and examples: the theorems applied to concrete mappings, objects, patches and processes.
mod Commands
mod Files
mod Jumps
mod Linker
mod Mappings
mod Objects
mod Placing
mod Relocs
mod Remote
mod Runs
mod Service
mod Stacks
mod Threads
use nsb.Base.{
  ℕ, ◌%◌, ◌≡◌, refl, Bool, true, false, List, [], ◌∷◌, Option, none, some, replicate, zero, suc,
}
use nsb.Base.Text.{Text, codes}
use nsb.DlMap.{DlMap}
use nsb.Elf.{ElfInfo, Sym, Phdr, Rela}
use nsb.Patch.{FuncJump, StaticSym, PatchInfo, Patch}
use nsb.Process.Memory.{Memory}
use nsb.Vma.{VmaArea, Prot}

abbrev pub text_vma : (id addr len : ℕ) → VmaArea
text_vma id addr len = record {
  id = id;
  addr = addr;
  len = len;
  flags = 2;
  offset = 0;
  path = some (codes "/lib/t.so");
  map_file = some (codes "f");
  dlm = some 100;
  prot = record { read = true; write = false; exec = true };
}

abbrev pub data_vma : (id addr len : ℕ) → VmaArea
data_vma id addr len = record {
  id = id;
  addr = addr;
  len = len;
  flags = 2;
  offset = 0;
  path = some (codes "/lib/t.so");
  map_file = some (codes "f");
  dlm = some 100;
  prot = record { read = true; write = true; exec = false };
}

-- A symbol `f` with the value 0x500.
abbrev pub f_sym : Sym
f_sym = record {
  st_name = 1;
  st_info = 18;
  st_value = 0x500;
  st_size = 16;
  name = some (codes "f");
}

abbrev pub library_elf : ElfInfo
library_elf = record {
  path = codes "/lib/t.so";
  e_type = 3;
  bid = some (codes "t1");
  has_dynstr = true;
  dynsym = some (some f_sym ∷ []);
  rela_plt = some [];
  rela_dyn = some [];
  phdrs = some [];
}

abbrev pub patch_elf : ElfInfo
patch_elf = record {
  path = codes "/p.so";
  e_type = 3;
  bid = some (codes "p1");
  has_dynstr = true;
  dynsym = some (some f_sym ∷ []);
  rela_plt = some [];
  rela_dyn = some [];
  phdrs = some [];
}

abbrev pub target : DlMap
target = record {
  id = 100;
  path = some (codes "/lib/t.so");
  ei = library_elf;
  exec_vma = some 1;
  vmas = text_vma 1 0x10000000 0x2000 ∷ data_vma 2 0x10002000 0x1000 ∷ [];
}

abbrev pub patch_dlm : DlMap
patch_dlm = record {
  id = 200;
  path = some (codes "/p.so");
  ei = patch_elf;
  exec_vma = some 3;
  vmas = text_vma 3 0x10010000 0x1000 ∷ [];
}

abbrev pub nops : List ℕ
nops = replicate 8 0x90

abbrev pub jump_at : (func_value patch_value : ℕ) → FuncJump
jump_at func_value patch_value = record {
  name = codes "f";
  func_value = func_value;
  func_size = 0x20;
  patch_value = patch_value;
  shndx = 1;
  func_addr = 0;
  code = nops;
  func_jump = nops;
}

-- A memory whose byte at each address is the address's lowest.
abbrev pub counting : Memory
counting a = a % 256
