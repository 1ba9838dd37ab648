-- ===== src/Rtld.antt =====
-- The search list of the dynamic linker, read from the target's memory (patcher/rtld.c). What the C
-- structures hold is read from their bytes; both loops are on fuel, since the target's memory need
-- not end its lists.
pub mod Listed
use nsb.Base.{
  ℕ, zero, suc, ◌+◌, Bool, true, false, List, [], ◌∷◌, ◌++◌, Option, none, some, ◌⊎◌, inl, inr,
  take, drop, ltb, ◌==◌, not, if◌then◌else◌,
}
use nsb.Base.Int.{ℤ, pos, negsuc, is_zero, eq_ℤ, enoent}
use nsb.Base.Word.{add64, signed64, from_le, bits64}
use nsb.Process.Memory.{Tracee, process_read_data}

-- The eight bytes of a field.
abbrev pub word : List ℕ → (offset : ℕ) → ℕ
word bytes offset = from_le (take 8 (drop offset bytes))

-- `DT_SYMTAB`
abbrev pub dt_symtab : ℕ
dt_symtab = 6

-- `a >= b` on 64 bits with a sign.
abbrev pub at_least : ℤ → ℤ → Bool
at_least (pos a) (pos b) = not (ltb a b)
at_least (pos a) (negsuc b) = true
at_least (negsuc a) (pos b) = false
at_least (negsuc a) (negsuc b) = not (ltb b a)

-- What an entry of the dynamic section says: the end of the search, by its result, or none.
abbrev pub dyn_entry : (d_tag : ℕ) → ℤ × List ℕ → Option ℤ
dyn_entry d_tag (err, dyn) =
    if not (is_zero err)
    then some err
    else if word dyn 0 == 0
    then some enoent
    else if word dyn 0 == d_tag
    then some (signed64 (word dyn 8))
    else none

abbrev pub or_next : Option ℤ → Option ℤ → Option ℤ
or_next none next = next
or_next (some value) next = some value

-- The address of the symbol table goes in the array where it is not below the load address.
abbrev pub with_symtab : (value l_addr : ℤ) → List ℕ → List ℕ
with_symtab value l_addr arr = if at_least value l_addr then arr ++ bits64 value ∷ [] else arr

module _ (t : Tracee) where
  unfoldable pub rtld_dynamic_tag_val : (fuel : ℕ) → t.State → (l_ld d_tag : ℕ) → Option ℤ
  rtld_dynamic_tag_val zero s d d_tag = none
  rtld_dynamic_tag_val (suc fuel) s d d_tag =
      let next = rtld_dynamic_tag_val fuel s (add64 d 16) d_tag in
      or_next (dyn_entry d_tag (process_read_data t s d 16)) next

  -- What a `struct link_map` brings: an error, or the array with its library.
  abbrev pub linked : ℤ × List ℕ → (symtab : Option ℤ) → List ℕ → Option (ℤ ⊎ List ℕ)
  linked (err, lm) none arr = if not (is_zero err) then some (inl err) else none
  linked (err, lm) (some value) arr =
      if not (is_zero err)
      then some (inl err)
      else if eq_ℤ value enoent
      then some (inl enoent)
      else some (inr (with_symtab value (signed64 (word lm 0)) arr))

  -- After a library: the end, or the next.
  abbrev pub or_rest_of_list :
      Option (ℤ ⊎ List ℕ) → (l_next : ℕ) → (List ℕ → Option (ℤ ⊎ List ℕ)) → Option (ℤ ⊎ List ℕ)
  or_rest_of_list none l_next rest = none
  or_rest_of_list (some (inl err)) l_next rest = some (inl err)
  or_rest_of_list (some (inr arr)) l_next rest = if l_next == 0 then some (inr arr) else rest arr

  -- The loop over the list of libraries; `dyn_fuel` is for each dynamic section.
  unfoldable pub needed_from :
      (dyn_fuel fuel : ℕ) → t.State → (lm_addr : ℕ) → List ℕ → Option (ℤ ⊎ List ℕ)
  needed_from dyn_fuel zero s lm_addr arr = none
  needed_from dyn_fuel (suc fuel) s lm_addr arr =
      let read = process_read_data t s lm_addr 40 in
      let symtab = rtld_dynamic_tag_val dyn_fuel s (word read.1 16) dt_symtab in
      let rest = needed_from dyn_fuel fuel s (word read.1 24) in
      or_rest_of_list (linked read symtab arr) (word read.1 24) rest

  -- An error, or the array. The source writes from the eleventh address on behind the memory it has
  -- allocated; here the array grows.
  unfoldable pub rtld_needed_array :
      (dyn_fuel fuel : ℕ) → t.State → (r_debug_addr : ℕ) → Option (ℤ ⊎ List ℕ)
  rtld_needed_array dyn_fuel fuel s r_debug_addr =
      let (err, bytes) = process_read_data t s (add64 r_debug_addr 8) 8 in
      let all_ = needed_from dyn_fuel fuel s (word bytes 0) [] in
      if not (is_zero err) then some (inl err) else all_
