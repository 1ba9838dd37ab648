-- ===== src/Util.antt =====
-- Walks over the names of a directory (__iter_dentry, iterate_dir_name and find_dentry of
-- patcher/util.c), and the names of the links under /proc/PID/map_files that patcher/service.c looks for.
use nsb.Base.{
  ℕ, zero, suc, ◌+◌, ◌/◌, ◌%◌, ◌-◌, Bool, true, false, List, [], ◌∷◌, ◌⊎◌, inl, inr, ltb, ◌==◌,
  ◌||◌, ◌&&◌, if◌then◌else◌,
}
use nsb.Base.Int.{ℤ, pos, negsuc, is_neg, is_zero}
use nsb.Base.Text.{Text, codes, str_eq}

abbrev pub is_dot : Text → Bool
is_dot dentry = str_eq dentry (codes ".") || str_eq dentry (codes "..")

-- The walk over the names, in the order in which they are read; `dirent` is the name that was read last.
unfoldable pub iter_names {ℓ} :
    {S : Type ℓ} (actor : Text → S → ℤ × S) (dirent : Text) → List Text → S → ℤ × Text × S
iter_names actor dirent [] s = (pos 0, dirent, s)
iter_names actor dirent (dentry ∷ names) s =
    let skipped = iter_names actor dentry names s in
    let (err, s') = actor dentry s in
    let rest = iter_names actor dentry names s' in
    if is_dot dentry then skipped else if is_zero err then rest else (err, dentry, s')

-- `names` is what the directory holds, or n where it cannot be opened, with errno n + 1.
unfoldable pub iter_dentry {ℓ} :
    {S : Type ℓ} (names : ℕ ⊎ List Text) (actor : Text → S → ℤ × S) (dirent : Text)
    → S
    → ℤ × Text × S
iter_dentry (inl n) actor dirent s = (negsuc n, dirent, s)
iter_dentry (inr names) actor dirent s = iter_names actor dirent names s

-- An error, or the name in the local structure: the one that the actor ended the walk at or, where it
-- ended none, the last one that was read. `dirent` is what the structure holds before.
unfoldable pub find_dentry : (names : ℕ ⊎ List Text) (actor : Text → ℤ) (dirent : Text) → ℤ ⊎ Text
unfolding iter_dentry
find_dentry names actor dirent =
    let (ret, found, s) =
      iter_dentry {0} {S = Unit {0}} names (λ dentry s. (actor dentry, s)) dirent tt in
    if is_neg ret then inl ret else inr found

abbrev pub hex_digit : ℕ → ℕ
hex_digit d = if ltb d 10 then b'0' + d else b'a' + (d - 10)

-- `%lx`, with fuel for 16 digits.
unfoldable pub print_hex : (fuel w : ℕ) → Text → Text
print_hex zero w acc = acc
print_hex (suc fuel) w acc =
    let acc' = hex_digit (w % 16) ∷ acc in
    let rest = print_hex fuel (w / 16) acc' in if w / 16 == 0 then acc' else rest

-- `!strncmp(dentry, base, strlen(base))`
unfoldable pub starts_with : Text → (base : Text) → Bool
starts_with dentry [] = true
starts_with [] (b ∷ base) = false
starts_with (c ∷ dentry) (b ∷ base) = c == b && starts_with dentry base
