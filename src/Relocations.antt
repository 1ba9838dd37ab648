-- ===== src/Relocations.antt =====
-- Resolving and applying the relocations of a patch (patcher/relocations.c).
pub mod Order
pub mod Slots
use nsb.Base.{
  ℕ, ◌+◌, Bool, true, false, List, [], ◌∷◌, ◌++◌, Option, none, some, first?, ◌==◌, not, ◌&&◌,
  if◌then◌else◌,
}
use nsb.Base.Int.{ℤ, pos, is_neg, is_zero, eq_ℤ, enoent}
use nsb.Base.Loop.{Actor, for_each_entry, reading}
use nsb.Base.Text.{Text}
use nsb.Base.Word.{add64, bits64, signed64, le_bytes}
use nsb.DlMap.{DlMap, dlm_load_base}
use nsb.Elf.{ElfInfo, elf_dyn_sym_value}
use nsb.Elf.Reloc.{
  ExternSymbol, Relocs, es_r_sym, elf_weak_sym, elf_reloc_sym, elf_rela_plt, elf_rela_dyn,
}
use nsb.Patch.{MarkedSym, PatchInfo}
use nsb.Process.Place.{find_object}
use nsb.Process.Memory.{Tracee, process_write_data}

-- What of `struct process_ctx_s` the relocations are resolved with.
pub record Linking : Type 0 where
  pub needed_list : List DlMap
  pub target_dlm : DlMap
  pub patch_dlm : DlMap
  pub pi : PatchInfo

-- The relocations of a patch: `rela_plt` and `rela_dyn`.
pub record Tables : Type 0 where
  pub rela_plt : List ExternSymbol
  pub rela_dyn : List ExternSymbol

-- The errors of the two are ignored: a table that cannot be read is taken as empty.
unfoldable pub collect_relocations :
    (alloc_succeeds : ℕ → Bool) → (patch_ei : ElfInfo) → (allocs : ℕ) → Tables
collect_relocations alloc_succeeds patch_ei allocs =
    let (err, plt) = elf_rela_plt alloc_succeeds patch_ei (record { syms = []; allocs = allocs }) in
    let (err', dyn) =
      elf_rela_dyn alloc_succeeds patch_ei (record { syms = []; allocs = plt.allocs }) in
    record { rela_plt = plt.syms; rela_dyn = dyn.syms }

abbrev pub is_stop : (stop_dlm : Option DlMap) → DlMap → Bool
is_stop none dlm = false
is_stop (some stop) dlm = dlm.id == stop.id

-- `elf_dyn_sym_value` of the name.
abbrev pub value_in : Option Text → DlMap → ℤ
value_in none dlm = pos 0
value_in (some name) dlm = elf_dyn_sym_value dlm.ei name

-- `__find_dym_sym`: the value, or an error, and the object it was found in.
unfoldable pub search_deps :
    List DlMap → (stop_dlm : Option DlMap) → Option Text → (patch_value : ℕ) → ℤ × Option ℕ
search_deps [] stop_dlm name patch_value = (enoent, none)
search_deps (dlm ∷ deps) stop_dlm name patch_value =
    let rest = search_deps deps stop_dlm name patch_value in
    let value = value_in name dlm in
    if not (patch_value == 0) && is_stop stop_dlm dlm
    then (signed64 patch_value, none)
    else if is_neg value
    then (value, none)
    else if not (is_zero value)
    then (value, some dlm.id)
    else rest

-- The address of the first entry for the symbol's index, and 0 where there is none.
unfoldable pub check_marked_symbols : List MarkedSym → ExternSymbol → ℤ
check_marked_symbols [] es = pos 0
check_marked_symbols (ms ∷ mss) es =
    let rest = check_marked_symbols mss es in
    if ms.idx == es_r_sym es then signed64 ms.addr else rest

abbrev is_object : DlMap → Option DlMap → Bool
is_object target none = false
is_object target (some dlm) = target.id == dlm.id

unfoldable pub target_is_executable : Linking → Bool
target_is_executable ctx = is_object ctx.target_dlm (first? ctx.needed_list)

-- The value, or an error, and the object that the symbol is in; none is the patch.
unfoldable pub find_dyn_sym : Linking → ExternSymbol → ℤ × Option ℕ
find_dyn_sym ctx es =
    let manual = check_marked_symbols ctx.pi.manual_syms es in
    let global_ = check_marked_symbols ctx.pi.global_syms es in
    let target = some ctx.target_dlm.id in
    let found = search_deps ctx.needed_list (some ctx.target_dlm) es.name es.sym.st_value in
    let anywhere = search_deps ctx.needed_list none es.name es.sym.st_value in
    if not (is_zero manual)
    then (manual, target)
    else if target_is_executable ctx && not (is_zero global_)
    then (global_, target)
    else if not (eq_ℤ found.0 enoent)
    then found
    else anywhere

unfoldable pub resolve_symbol : Linking → ExternSymbol → ℤ × ExternSymbol
resolve_symbol ctx es =
    let (value, found_in) = find_dyn_sym ctx es in
    let (err, es') = elf_reloc_sym (record es { found_in = found_in }) (bits64 value) in
    if is_neg value
    then (value, record es { found_in = found_in })
    else if is_neg err
    then (err, es')
    else (pos 0, es')

-- A weak symbol that the patch does not define is taken off the list.
unfoldable pub resolve_es : Linking → Actor ExternSymbol (Unit {0})
resolve_es ctx es s =
    let (err, es') = resolve_symbol ctx es in
    if elf_weak_sym es && (es.sym.st_value == 0)
    then (pos 0, [], s)
    else if is_zero err
    then (pos 0, es' ∷ [], s)
    else (enoent, es' ∷ [], s)

unfoldable pub resolve_relocations : Linking → Tables → ℤ × Tables
resolve_relocations ctx tables =
    let (err, plt, s) = for_each_entry (resolve_es ctx) tables.rela_plt tt in
    let (err', dyn, s') = for_each_entry (resolve_es ctx) tables.rela_dyn tt in
    if is_zero err
    then (err', record { rela_plt = plt; rela_dyn = dyn })
    else (err, record tables { rela_plt = plt })

-- The object that a symbol was found in.
abbrev pub object_of : Linking → Option ℕ → DlMap
object_of ctx none = ctx.patch_dlm
object_of ctx (some i) = elim (find_object (ctx.target_dlm ∷ ctx.needed_list) i) [
  | none ↦ ctx.patch_dlm
  | some dlm ↦ dlm
]

abbrev pub plt_addr : Linking → ExternSymbol → ℕ
plt_addr ctx es = add64 (dlm_load_base ctx.patch_dlm) es.rela.r_offset

abbrev pub func_addr : Linking → ExternSymbol → ℕ
func_addr ctx es = add64 (dlm_load_base (object_of ctx es.found_in)) es.address

module _ (t : Tracee) where
  unfoldable pub apply_es : Linking → ExternSymbol → t.State → ℤ × t.State
  apply_es ctx es s = process_write_data t s (plt_addr ctx es) (le_bytes 8 (func_addr ctx es))

  unfoldable pub apply_relocations : Linking → Tables → t.State → ℤ × t.State
  apply_relocations ctx tables s =
      let (err, plt, s1) = for_each_entry (reading (apply_es ctx)) tables.rela_plt s in
      let (err', dyn, s2) = for_each_entry (reading (apply_es ctx)) tables.rela_dyn s1 in
      if is_zero err then (err', s2) else (err, s1)
