-- ===== src/Elf/Dynamic/Needed.antt =====
-- The names of the libraries that a file needs (elf_collect_needed of patcher/elf.c).
use nsb.Base.{
  ℕ, ◌≡◌, ◌≢◌, inl, inr, ◌⊎◌, Bool, not, List, [], ◌∷◌, ◌++◌, Option, some, if◌then◌else◌,
}
use nsb.Base.Int.{ℤ, pos, enomem}
use nsb.Base.Text.{Text}
use nsb.Elf.Sections.{ElfFile}
use nsb.Elf.Dynamic.{dt_needed, dyn_string}

-- The names that stand in the entries with the tag `DT_NEEDED`, in their order.
pub data Names (f : ElfFile) : List (Option (ℕ × ℕ)) → List Text → Type 0 where
  no_entry : Names f [] []
  other :
      {tag val : ℕ} {dyns : List (Option (ℕ × ℕ))} {names : List Text}
      → tag ≢ dt_needed
      → Names f dyns names
      → Names f (some (tag, val) ∷ dyns) names
  named :
      {val : ℕ} {name : Text} {dyns : List (Option (ℕ × ℕ))} {names : List Text}
      → dyn_string f val ≡ inr name
      → Names f dyns names
      → Names f (some (dt_needed, val) ∷ dyns) (name ∷ names)

-- What an entry does to the list.
abbrev entry : (needs has_memory : Bool) → ℤ ⊎ Text → List Text → ℤ × List Text
entry needs has_memory found needed = if not needs then (pos 0, needed) else elim found [
  | inl err ↦ (err, needed)
  | inr name ↦ (if has_memory then (pos 0, needed ++ name ∷ []) else (enomem, needed))
]
