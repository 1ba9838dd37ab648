-- ===== src/Examples/Relocs.antt =====
-- Examples for the relocations of a patch and its references to static data.
use nsb.Base.{ℕ, ◌≡◌, refl, [], ◌∷◌, Option, none, some}
use nsb.Base.Int.{pos}
use nsb.Base.Text.{codes}
use nsb.DlMap.{DlMap}
use nsb.Elf.Reloc.{ExternSymbol}
use nsb.Examples.{target, patch_dlm, f_sym}
use nsb.Patch.{StaticSym}
use nsb.Relocations.{Linking, Tables, search_deps}

abbrev linking : Linking
linking = record {
  needed_list = target ∷ patch_dlm ∷ [];
  target_dlm = target;
  patch_dlm = patch_dlm;
  pi = record {
    target_bid = [];
    patch_bid = [];
    func_jumps = [];
    manual_syms = [];
    global_syms = [];
    static_syms = [];
  };
}

abbrev resolved : (r_offset address : ℕ) (found_in : Option ℕ) → ExternSymbol
resolved r_offset address found_in = record {
  name = some (codes "f");
  rela = record { r_offset = r_offset; r_info = 0x100000007; r_addend = 0 };
  sym = f_sym;
  address = address;
  found_in = found_in;
}

abbrev tables : Tables
tables = record {
  rela_plt = resolved 0x800 0x500 (some 100) ∷ [];
  rela_dyn = resolved 0x808 0x600 none ∷ [];
}

-- The target has the symbol, but the patch stands in its place.
in_patch : search_deps (target ∷ []) (some target) (some (codes "f")) 0x500 ≡ (pos 0x500, none)
unfolding search_deps
in_patch = refl

abbrev ref : StaticSym
ref = record { patch_size = 4; patch_address = 0x100; target_value = 0x1f00 }
