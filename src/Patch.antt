-- ===== src/Patch.antt =====
-- Patches (patcher/patch.c, patcher/include/context.h): their data, the jumps to their functions,
-- their references to the target's static data, and how they are applied and reverted.
pub mod Jumps
pub mod Refs
pub mod Revert
use nsb.Base.{ℕ, Bool, List, Option}
use nsb.Base.Text.{Text}
use nsb.DlMap.{DlMap}

-- `struct static_sym_s`
pub record StaticSym : Type 0 where
  pub patch_size : ℕ
  pub patch_address : ℕ
  pub target_value : ℕ

-- `struct marked_sym_s`
pub record MarkedSym : Type 0 where
  pub idx : ℕ
  pub addr : ℕ

-- `struct func_jump_s`; `code` and `func_jump` are eight bytes each.
pub record FuncJump : Type 0 where
  pub name : Text
  pub func_value : ℕ
  pub func_size : ℕ
  pub patch_value : ℕ
  pub shndx : ℕ
  pub func_addr : ℕ
  pub code : List ℕ
  pub func_jump : List ℕ

-- `struct patch_info_s`
pub record PatchInfo : Type 0 where
  pub target_bid : Text
  pub patch_bid : Text
  pub func_jumps : List FuncJump
  pub manual_syms : List MarkedSym
  pub global_syms : List MarkedSym
  pub static_syms : List StaticSym

-- `struct patch_s` without its relocations, which are kept beside it; `id` stands for its address.
pub record Patch : Type 0 where
  pub id : ℕ
  pub pi : PatchInfo
  pub target_dlm : Option DlMap
  pub patch_dlm : DlMap
