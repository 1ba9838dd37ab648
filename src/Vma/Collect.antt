-- ===== src/Vma/Collect.antt =====
-- Reading the mappings of a process (create_vma, collect_vma, iter_map_files, collect_vmas and
-- collect_vmas_by_path of patcher/vma.c).
use nsb.Base.{
  ℕ, suc, Bool, true, false, List, [], ◌∷◌, Option, none, some, not, Bool-cases, if◌then◌else◌, inl,
  inr,
}
use nsb.Base.Int.{ℤ, pos, neg, is_zero, enomem}
use nsb.Base.Text.{Text, str_eq}
use nsb.Vma.{VmaArea, vma_start, vma_end, add_vma_sorted}
use nsb.Vma.Parse.{parse_vma, zeroed_vma}

-- What the operating system answers. The n-th allocation succeeds or not; `map_file_of pid start end`
-- is the name of the link under /proc/PID/map_files; `access` says whether a file is there; `maps`
-- are the lines of /proc/PID/maps as `fgets` reads them, or none where it cannot be opened.
pub record Host : Type 0 where
  pub alloc_succeeds : ℕ → Bool
  pub map_file_of : ℕ → ℕ → ℕ → Text
  pub access : Text → Bool
  pub maps : ℕ → Option (List Text)

-- The mappings collected so far, and the number of allocations made. An address that `malloc`
-- returned is named by the number of its allocation.
pub record Collected : Type 0 where
  pub vmas : List VmaArea
  pub allocs : ℕ

-- `buf[strlen(buf) - 1] = 0`
abbrev pub chomp : Text → Text
chomp [] = []
chomp (c ∷ []) = []
chomp (c ∷ d ∷ s) = c ∷ chomp (d ∷ s)

module _ (host : Host) where
  open host use {alloc_succeeds, map_file_of, access, maps}

  -- A copy of a string that may be absent; `none` where the copy's allocation fails.
  abbrev copy_path : Option Text → ℕ → Option (Option Text) × ℕ
  copy_path none n = (some none, n)
  copy_path (some s) n = (if alloc_succeeds n then some (some s) else none, suc n)

  abbrev copy_map_file : Text → ℕ → Option (Option Text) × ℕ
  copy_map_file file n =
      if access file
      then (if alloc_succeeds n then some (some file) else none, suc n)
      else (some none, n)

  -- The result, the new mapping (none on an error, when all is freed again), and the allocations.
  unfoldable pub create_vma : (pid : ℕ) → VmaArea → ℕ → ℤ × Option VmaArea × ℕ
  create_vma pid template n =
      if not (alloc_succeeds n)
      then (enomem, none, suc n)
      else (let (path, m) = copy_path template.path (suc n) in
          elim path [
            | none ↦ (enomem, none, m)
            | some p ↦
                (let (map_file, k) =
                    copy_map_file (map_file_of pid (vma_start template) (vma_end template)) m in
                  elim map_file [
                    | none ↦ (enomem, none, k)
                    | some f ↦ (
                      pos 0,
                      some (record template { id = n; path = p; map_file = f; dlm = none }),
                      k,
                    )
                  ])
          ])

  unfoldable pub collect_vma : (pid : ℕ) → VmaArea → Collected → ℤ × Collected
  unfolding create_vma
  collect_vma pid template s =
      let (err, vma, n) = create_vma pid template s.allocs in
      elim vma [
        | none ↦ (err, record s { allocs = n })
        | some v ↦
            (let (ret, vmas') = add_vma_sorted s.vmas v in
              (ret, record { vmas = vmas'; allocs = n }))
      ]

  -- The loop over the lines; `ret` is the result of the rounds before, and `tmp` the structure that
  -- every line is parsed into.
  unfoldable pub iter_lines {ℓ} :
      {S : Type ℓ} (actor : VmaArea → S → ℤ × S) → ℤ → List Text → S → ℤ × S
  iter_lines actor ret [] s = (ret, s)
  iter_lines actor ret (line ∷ rest) s =
      let (err, vma) = parse_vma (chomp line) (zeroed_vma 0) in
      elim (is_zero err) [
        | false ↦ (err, s)
        | true ↦
            (let (ret', s') = actor vma s in
              elim (is_zero ret') [ false ↦ (ret', s') | true ↦ iter_lines actor ret' rest s' ])
      ]

  unfoldable pub iter_map_files {ℓ} :
      {S : Type ℓ} (pid : ℕ) (actor : VmaArea → S → ℤ × S) → S → ℤ × S
  unfolding iter_lines
  iter_map_files pid actor s = elim (maps pid) [
    | none ↦ (neg 1, s)
    | some lines ↦ iter_lines actor (neg 1) lines s
  ]

  unfoldable pub collect_vmas : (pid : ℕ) → Collected → ℤ × Collected
  unfolding iter_map_files collect_vma
  collect_vmas pid s = iter_map_files pid (collect_vma pid) s

  abbrev path_is : Text → Option Text → Bool
  path_is path none = false
  path_is path (some p) = str_eq p path

  unfoldable pub compare_vma_path : (pid : ℕ) (path : Text) → VmaArea → Collected → ℤ × Collected
  unfolding collect_vma
  compare_vma_path pid path vma s =
      if path_is path vma.path then collect_vma pid vma s else (pos 0, s)

  unfoldable pub collect_vmas_by_path : (pid : ℕ) (path : Text) → Collected → ℤ × Collected
  unfolding iter_map_files compare_vma_path
  collect_vmas_by_path pid path s = iter_map_files pid (compare_vma_path pid path) s

  -- What each call of the actor keeps, reading the lines keeps.
  pub iter_lines-keeps {ℓ κ} :
      {S : Type ℓ} (P : S → Type κ) (actor : VmaArea → S → ℤ × S)
      → ((vma : VmaArea) (s : S) → P s → P (actor vma s).1)
      → (ret : ℤ) (lines : List Text) (s : S) → P s
      → P (iter_lines actor ret lines s).1
  unfolding iter_lines
  iter_lines-keeps P actor keep ret [] s h = h
  iter_lines-keeps P actor keep ret (line ∷ rest) s h =
      let vma = (parse_vma (chomp line) (zeroed_vma 0)).1 in
      elim (Bool-cases (is_zero (parse_vma (chomp line) (zeroed_vma 0)).0)) [
        | inr bad ↦ rw (bad, iter_lines) h
        | inl good ↦ elim (Bool-cases (is_zero (actor vma s).0)) [
          | inr stop ↦ rw (good, stop, iter_lines) (keep vma s h)
          | inl go ↦
              rw (good, go, iter_lines)
                (iter_lines-keeps P actor keep (actor vma s).0 rest (actor vma s).1 (keep vma s h))
        ]
      ]
