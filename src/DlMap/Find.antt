-- ===== src/DlMap/Find.antt =====
-- The searches in the list of ELF objects (find_dl_map_by_bid, find_dl_map_by_addr,
-- dl_map_symbol_value and dl_get_symbol_value of patcher/dl_map.c).
use nsb.Base.{
  ℕ, ◌≤◌, ◌≡◌, ◌⊎◌, inl, inr, Bool, true, false, List, [], ◌∷◌, Option, none, some, ltb, Bool-cases,
  arith, if◌then◌else◌,
}
use nsb.Base.Int.{ℤ, pos, negsuc, is_neg, is_zero, of_bool, enoent}
use nsb.Base.Text.{Text, str_eq}
use nsb.Base.Word.{add64}
use nsb.DlMap.{DlMap, dl_map_start, dl_map_end}
use nsb.Elf.{elf_dyn_sym_value}

unfoldable pub find_dl_map : List DlMap → (DlMap → ℤ) → Option DlMap
find_dl_map [] actor = none
find_dl_map (dlm ∷ dlms) actor =
    let rest = find_dl_map dlms actor in
    if is_neg (actor dlm) then none else if is_zero (actor dlm) then rest else some dlm

abbrev pub bid_is : Text → Option Text → Bool
bid_is bid none = false
bid_is bid (some b) = str_eq b bid

abbrev pub compare_bid : Text → DlMap → ℤ
compare_bid bid dlm = of_bool (bid_is bid dlm.ei.bid)

unfoldable pub find_dl_map_by_bid : List DlMap → Text → Option DlMap
unfolding find_dl_map
find_dl_map_by_bid dlms bid = find_dl_map dlms (compare_bid bid)

unfoldable pub compare_addr : ℕ → DlMap → ℤ
compare_addr addr dlm =
    if ltb addr (dl_map_start dlm)
    then pos 0
    else if ltb (dl_map_end dlm) addr
    then pos 0
    else pos 1

unfoldable pub find_dl_map_by_addr : List DlMap → ℕ → Option DlMap
unfolding find_dl_map compare_addr
find_dl_map_by_addr dlms addr = find_dl_map dlms (compare_addr addr)

-- A value that is not positive is the result; a positive one is found, and added to the start.
abbrev pub found_sym : DlMap → ℤ → ℤ × ℕ
found_sym dlm (negsuc n) = (negsuc n, 0)
found_sym dlm (pos ℕ.zero) = (pos 0, 0)
found_sym dlm (pos (ℕ.suc n)) = (pos 1, add64 (dl_map_start dlm) (ℕ.suc n))

-- The result, and `si->value` where it is 1.
unfoldable pub dlm_find_sym : Text → DlMap → ℤ × ℕ
dlm_find_sym name dlm = found_sym dlm (elf_dyn_sym_value dlm.ei name)

unfoldable pub dl_map_symbol_value : DlMap → Text → ℤ ⊎ ℕ
unfolding dlm_find_sym
dl_map_symbol_value dlm name =
    let (ret, value) = dlm_find_sym name dlm in
    if is_neg ret then inl ret else if is_zero ret then inl enoent else inr value

-- `iterate_dl_maps` with `dlm_find_sym`: the first result other than 0, and the value.
unfoldable pub iterate_find_sym : Text → List DlMap → ℤ × ℕ
unfolding dlm_find_sym
iterate_find_sym name [] = (pos 0, 0)
iterate_find_sym name (dlm ∷ dlms) =
    let rest = iterate_find_sym name dlms in
    let (ret, value) = dlm_find_sym name dlm in if is_zero ret then rest else (ret, value)

-- An error, or the address of the symbol, whose bits the source returns as an `int64_t`.
unfoldable pub dl_get_symbol_value : List DlMap → Text → ℤ ⊎ ℕ
unfolding iterate_find_sym
dl_get_symbol_value dlms name =
    let (ret, value) = iterate_find_sym name dlms in
    if is_neg ret then inl ret else if is_zero ret then inl enoent else inr value

-- `found` is the first entry of the list with `P`: none before it has it.
pub data First (P : DlMap → Type 0) : List DlMap → Option DlMap → Type 0 where
  nowhere : First P [] none
  here : {d : DlMap} {ds : List DlMap} → P d → First P (d ∷ ds) (some d)
  later :
      {d : DlMap} {ds : List DlMap} {found : Option DlMap}
      → ¬ P d
      → First P ds found
      → First P (d ∷ ds) found

-- `find_dl_map_by_bid` finds the first object with the build ID, and none only where no object has it.
pub find_dl_map_by_bid-First :
    (dlms : List DlMap) (bid : Text)
    → First (λ d. bid_is bid d.ei.bid ≡ true) dlms (find_dl_map_by_bid dlms bid)
unfolding find_dl_map_by_bid
find_dl_map_by_bid-First [] bid = nowhere
find_dl_map_by_bid-First (d ∷ ds) bid = elim (Bool-cases (bid_is bid d.ei.bid)) [
  | inl e ↦ rw (e, find_dl_map) (here e)
  | inr e ↦
      rw (e, find_dl_map) (later (λ x. ground (arith, x, e)) (find_dl_map_by_bid-First ds bid))
]

-- `find_dl_map_by_addr` finds the first object with the address between its start and its end, both
-- included, and none only where no object has.
pub find_dl_map_by_addr-First :
    (dlms : List DlMap) (addr : ℕ)
    → First
        (λ d. (dl_map_start d ≤ addr) × (addr ≤ dl_map_end d))
        dlms
        (find_dl_map_by_addr dlms addr)
unfolding find_dl_map_by_addr
find_dl_map_by_addr-First [] addr = nowhere
find_dl_map_by_addr-First (d ∷ ds) addr = elim (Bool-cases (ltb addr (dl_map_start d))) [
  | inl e ↦
      rw (e, find_dl_map) (later (λ x. ground (arith, x, e)) (find_dl_map_by_addr-First ds addr))
  | inr e ↦ elim (Bool-cases (ltb (dl_map_end d) addr)) [
    | inl f ↦
        rw (e, f, find_dl_map)
          (later (λ x. ground (arith, x, f)) (find_dl_map_by_addr-First ds addr))
    | inr f ↦ rw (e, f, find_dl_map) (here (ground arith))
  ]
]
