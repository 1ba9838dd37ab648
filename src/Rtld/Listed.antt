-- ===== src/Rtld/Listed.antt =====
-- What `rtld_needed_array` of patcher/rtld.c reads from a list of libraries that is whole.
use mathlib.Core.List.{append_assoc}
use nsb.Base.{
  ℕ, suc, ◌^◌, ◌<◌, ◌≡◌, ◌≢◌, refl, ap, ◌∙◌, inl, inr, List, [], ◌∷◌, ◌++◌, Bool-cases, arith,
  if◌then◌else◌,
}
use nsb.Base.Int.{pos}
use nsb.Base.Word.{add64, signed64, bits64}
use nsb.Process.Memory.{Memory, bytes_at}
use nsb.Rtld.{word, dt_symtab, at_least, with_symtab}

-- From `d` on there are at most `n` entries of a dynamic section up to the one with the symbol table's
-- address `v`, which is one of user space.
pub data Dynamic (m : Memory) : (n d v : ℕ) → Type 0 where
  found :
      {n d : ℕ}
      → word (bytes_at m d 16) 0 ≡ dt_symtab
      → word (bytes_at m d 16) 8 < 2 ^ 63
      → Dynamic m (suc n) d (word (bytes_at m d 16) 8)
  passed :
      {n d v : ℕ}
      → word (bytes_at m d 16) 0 ≢ 0
      → word (bytes_at m d 16) 0 ≢ dt_symtab
      → Dynamic m n (add64 d 16) v
      → Dynamic m (suc n) d v

-- The libraries of the list that begins at an address, each by its symbol table and its load address.
pub data Libraries (m : Memory) (n : ℕ) : ℕ → List (ℕ × ℕ) → Type 0 where
  last :
      {a v : ℕ}
      → Dynamic m n (word (bytes_at m a 40) 16) v
      → word (bytes_at m a 40) 24 ≡ 0
      → Libraries m n a ((v, word (bytes_at m a 40) 0) ∷ [])
  before :
      {a v : ℕ} {libs : List (ℕ × ℕ)}
      → Dynamic m n (word (bytes_at m a 40) 16) v
      → word (bytes_at m a 40) 24 ≢ 0
      → Libraries m n (word (bytes_at m a 40) 24) libs
      → Libraries m n a ((v, word (bytes_at m a 40) 0) ∷ libs)

-- The symbol tables that are not below their library's load address.
abbrev pub above_load : List (ℕ × ℕ) → List ℕ
above_load [] = []
above_load ((v, l) ∷ libs) =
    (if at_least (pos v) (signed64 l) then v ∷ [] else []) ++ above_load libs

bits_small : (v : ℕ) → v < 2 ^ 63 → bits64 (pos v) ≡ v
bits_small v h = omega arith

pub with_symtab-above :
    (v l : ℕ) (arr : List ℕ) (libs : List (ℕ × ℕ))
    → v < 2 ^ 63
    → with_symtab (pos v) (signed64 l) arr ++ above_load libs ≡ arr ++ above_load ((v, l) ∷ libs)
with_symtab-above v l arr libs h = elim (Bool-cases (at_least (pos v) (signed64 l))) [
  | inl e ↦ rw e (
      append_assoc arr (bits64 (pos v) ∷ []) (above_load libs)
      ∙ ap (λ (x : ℕ). arr ++ x ∷ above_load libs) (bits_small v h))
  | inr e ↦ rw e refl
]
