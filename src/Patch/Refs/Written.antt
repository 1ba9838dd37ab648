-- ===== src/Patch/Refs/Written.antt =====
-- What applying a reference to static data (patcher/patch.c) leaves in the patch's code.
use nsb.Base.{ℕ, ◌%◌, ◌^◌, ◌<◌, ◌≡◌, sym, ap, ◌∙◌, ◌↔◌, false, List, arith}
use nsb.Base.Word.{u64_mod, add64, le_bytes, from_le, sign_extend32, from_le-le_bytes4}
use nsb.DlMap.{DlMap, dlm_load_base}
use nsb.Patch.{StaticSym}
use nsb.Patch.Refs.{reloc_overflows}
use nsb.Process.Memory.{Tracee, Memory, ReadsAndWrites, bytes_at}

fits_back :
    (reloc : ℕ)
    → reloc < u64_mod
    → sign_extend32 (reloc % 2 ^ 32) ≡ reloc
    → reloc_overflows 4 reloc ≡ false
unfolding reloc_overflows
fits_back reloc h e = ground arith

-- An offset of four bytes passes the check exactly if the processor, which widens the four bytes with
-- their sign, gets the offset back.
pub reloc_overflows-fits :
    (reloc : ℕ)
    → reloc < u64_mod
    → (reloc_overflows 4 reloc ≡ false) ↔ (sign_extend32 (from_le (le_bytes 4 reloc)) ≡ reloc)
unfolding reloc_overflows
reloc_overflows-fits reloc h = (
  λ e. rw (from_le-le_bytes4 reloc) (ground arith),
  λ e. fits_back reloc h (sym (ap sign_extend32 (from_le-le_bytes4 reloc)) ∙ e),
)

module _ (t : Tracee) (laws : ReadsAndWrites t) (stack : List ℕ) where
  open laws use {mem, peeks, poke_done, poke_mem}

  -- Where the reference is, and the offset that is to stand there.
  abbrev pub ref_addr : DlMap → StaticSym → ℕ
  ref_addr patch_dlm ss = add64 (dlm_load_base patch_dlm) ss.patch_address

  -- What the processor reads at an address as an offset of four bytes.
  abbrev pub offset_at : t.State → ℕ → ℕ
  offset_at s addr = sign_extend32 (from_le (bytes_at (mem s) addr 4))
