-- ===== src/Patch/Refs.antt =====
-- References of a patch to the static data of its target (write_static_ref, apply_static_ref and
-- apply_static_refs of patcher/patch.c).
pub mod Written
use nsb.Base.{
  ℕ, ◌+◌, ◌*◌, ◌/◌, ◌%◌, ◌^◌, Bool, true, false, List, [], ◌∷◌, write_at, ltb, ◌==◌, not, ◌&&◌,
  if◌then◌else◌,
}
use nsb.Base.Int.{ℤ, pos, is_zero, einval}
use nsb.Base.Word.{add64, sub64, not64, le_bytes}
use nsb.DlMap.{DlMap, dlm_load_base}
use nsb.Patch.{StaticSym}
use nsb.Process.Memory.{Tracee, process_read_data, process_write_data}

-- Whether an offset does not fit in so many bytes: the bits above them are no copies of the sign. A
-- shift by -1, of a size of 0, is what the processor makes of it.
unfoldable pub reloc_overflows : (patch_size reloc : ℕ) → Bool
reloc_overflows patch_size reloc =
    let reloc_bit_size = 8 * patch_size in
    let reloc_sign = (reloc / 2 ^ ((reloc_bit_size + 63) % 64)) % 2 in
    let reloc_high_bits = (if reloc_sign == 0 then reloc else not64 reloc) / 2 ^ reloc_bit_size in
    not (reloc_high_bits == 0)

abbrev pub static_reloc : (target_dlm patch_dlm : DlMap) → StaticSym → ℕ
static_reloc target_dlm patch_dlm ss =
    sub64 (add64 ss.target_value (dlm_load_base target_dlm)) (dlm_load_base patch_dlm)

module _ (t : Tracee) where
  -- `stack` is what stands in the eight bytes of the local buffer, which only the read of an offset of
  -- four bytes fills.
  unfoldable pub write_static_ref :
      (stack : List ℕ) (addr offset offset_size : ℕ) → t.State → ℤ × t.State
  write_static_ref stack addr offset offset_size s =
      let (err, read) = process_read_data t s addr 8 in
      if offset_size == 4
      then if not (is_zero err)
        then (err, s)
        else process_write_data t s addr (write_at read 0 (le_bytes 4 offset))
      else process_write_data t s addr (write_at stack 0 (le_bytes offset_size offset))

  -- The offset is checked, and written.
  abbrev pub apply_reloc : (stack : List ℕ) (addr reloc patch_size : ℕ) → t.State → ℤ × t.State
  apply_reloc stack addr reloc patch_size s =
      if ltb patch_size 8 && reloc_overflows patch_size reloc
      then (einval, s)
      else write_static_ref stack addr reloc patch_size s

  unfoldable pub apply_static_ref :
      (stack : List ℕ) (target_dlm patch_dlm : DlMap) → StaticSym → t.State → ℤ × t.State
  apply_static_ref stack target_dlm patch_dlm ss s =
      let patch_ref_addr = add64 (dlm_load_base patch_dlm) ss.patch_address in
      apply_reloc stack patch_ref_addr (static_reloc target_dlm patch_dlm ss) ss.patch_size s

  unfoldable pub apply_static_refs :
      (stack : List ℕ) (target_dlm patch_dlm : DlMap) → List StaticSym → t.State → ℤ × t.State
  apply_static_refs stack target_dlm patch_dlm [] s = (pos 0, s)
  apply_static_refs stack target_dlm patch_dlm (ss ∷ sss) s =
      let (err, s') = apply_static_ref stack target_dlm patch_dlm ss s in
      let rest = apply_static_refs stack target_dlm patch_dlm sss s' in
      if is_zero err then rest else (err, s')
