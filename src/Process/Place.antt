-- ===== src/Process/Place.antt =====
-- The search for room for a patch (find_hole and process_find_place_for_elf of patcher/process.c).
pub mod Fits
use nsb.Base.{
  ℕ, Bool, true, false, List, [], ◌∷◌, Option, none, some, ltb, leb, ◌==◌, not, ◌⊎◌, inl, inr,
  if◌then◌else◌,
}
use nsb.Base.Int.{ℤ, pos, is_neg, is_zero, of_bool, enoent}
use nsb.Base.Word.{sub64}
use nsb.DlMap.{DlMap, last_dl_vma}
use nsb.Vma.{VmaArea, vma_start, vma_end}

-- The object that a mapping points to.
abbrev pub find_object : List DlMap → ℕ → Option DlMap
find_object [] i = none
find_object (d ∷ ds) i = if d.id == i then some d else find_object ds i

abbrev pub same_vma : VmaArea → Option VmaArea → Bool
same_vma vma none = false
same_vma vma (some w) = vma.id == w.id

abbrev pub last_of_object : VmaArea → Option DlMap → Bool
last_of_object vma none = false
last_of_object vma (some d) = same_vma vma (last_dl_vma d)

-- `vma->dlm && vma != last_dl_vma(vma->dlm)`: behind it comes another mapping of its object.
abbrev pub inside_object : List DlMap → VmaArea → Option ℕ → Bool
inside_object objects vma none = false
inside_object objects vma (some i) = not (last_of_object vma (find_object objects i))

-- `struct address_hole`; `address` is where the hole that was looked at last begins.
pub record AddressHole : Type 0 where
  pub hint : ℕ
  pub size : ℕ
  pub address : ℕ

abbrev pub max64 : ℕ → ℕ → ℕ
max64 a b = if ltb a b then b else a

-- `next_start` is the start of the mapping behind this one.
unfoldable pub find_hole : List DlMap → (next_start : ℕ) → VmaArea → AddressHole → ℤ × AddressHole
find_hole objects next_start vma hole =
    if ltb next_start hole.hint
    then (pos 0, hole)
    else if inside_object objects vma vma.dlm
    then (pos 0, hole)
    else let address = max64 hole.hint (vma_end vma) in
      (of_bool (leb hole.size (sub64 next_start address)), record hole { address = address })

-- `vma_start(next_vma(vma))`. Behind the last mapping `next_vma` takes the list's head for a mapping,
-- and `past_head` is what it reads there (a pointer in `struct process_ctx_s`).
abbrev pub next_start : (past_head : ℕ) → List VmaArea → ℕ
next_start past_head [] = past_head
next_start past_head (w ∷ vs) = vma_start w

-- `iterate_vmas` with `find_hole`, which looks at the entry behind the current one too.
unfoldable pub iterate_find_hole :
    List DlMap → (past_head : ℕ) → List VmaArea → AddressHole → ℤ × AddressHole
iterate_find_hole objects past_head [] hole = (pos 0, hole)
iterate_find_hole objects past_head (v ∷ vs) hole =
    let (err, hole') = find_hole objects (next_start past_head vs) v hole in
    let rest = iterate_find_hole objects past_head vs hole' in
    if is_zero err then rest else (err, hole')

-- An error, or the address. An address from 2^63 on, which no process in user space leaves free behind
-- its mappings and an `int64_t` cannot hold, stays an address here.
unfoldable pub process_find_place_for_elf :
    List DlMap → (past_head : ℕ) → List VmaArea → (hint size : ℕ) → ℤ ⊎ ℕ
process_find_place_for_elf objects past_head vmas hint size =
    let (ret, hole) =
      iterate_find_hole objects past_head vmas (record { hint = hint; size = size; address = 0 }) in
    if is_neg ret then inl ret else if is_zero ret then inl enoent else inr hole.address
