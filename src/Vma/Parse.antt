-- ===== src/Vma/Parse.antt =====
-- `parse_vma` of patcher/vma.c, which reads a line of /proc/PID/maps.
use nsb.Base.{ℕ, false, List, [], ◌∷◌, Option, none, some, length, drop, ◌==◌, not, if◌then◌else◌}
use nsb.Base.Int.{ℤ, pos, einval}
use nsb.Base.Scanf.{Directive, hex, dec, char, space, literal, sscanf}
use nsb.Base.Text.{Text}
use nsb.Base.Word.{sub64}
use nsb.Vma.{VmaArea, map_shared, map_private}

-- "%lx-%lx %c%c%c%c %lx %x:%x %lu %n"
abbrev pub maps_format : List Directive
maps_format =
    hex
    ∷ literal b'-'
    ∷ hex
    ∷ space
    ∷ char
    ∷ char
    ∷ char
    ∷ char
    ∷ space
    ∷ hex
    ∷ space
    ∷ hex
    ∷ literal b':'
    ∷ hex
    ∷ space
    ∷ dec
    ∷ space
    ∷ []

-- The structure after `memset`; the parser leaves the `id` of the caller's structure alone.
abbrev pub zeroed_vma : ℕ → VmaArea
zeroed_vma id = record {
  id = id;
  addr = 0;
  len = 0;
  flags = 0;
  prot = record { read = false; write = false; exec = false };
  offset = 0;
  path = none;
  map_file = none;
  dlm = none;
}

-- `none` for a character that is neither `s` nor `p`.
abbrev pub map_type : ℕ → Option ℕ
map_type s = if s == b's' then some map_shared else if s == b'p' then some map_private else none

-- `path_off` is what `%n` stored.
abbrev pub path_at : Text → ℕ → Option Text
path_at line path_off = if not (path_off == length line) then some (drop path_off line) else none

abbrev pub scanned_vma : Text → VmaArea → List ℕ × Option ℕ → ℤ × VmaArea
scanned_vma line vma
      (addr ∷ end ∷ r ∷ w ∷ x ∷ s ∷ offset ∷ dev_maj ∷ dev_min ∷ ino ∷ [], some path_off) =
    let mapped = record vma {
      addr = addr;
      len = sub64 end addr;
      prot = record { read = r == b'r'; write = w == b'w'; exec = x == b'x' };
      offset = offset;
    } in
    elim (map_type s) [
      | none ↦ (einval, mapped)
      | some flags ↦ (pos 0, record mapped { flags = flags; path = path_at line path_off })
    ]
scanned_vma line vma other = (einval, vma)

unfoldable pub parse_vma : (line : Text) (vma : VmaArea) → ℤ × VmaArea
unfolding sscanf
parse_vma line vma = scanned_vma line (zeroed_vma vma.id) (sscanf maps_format line 0)
