-- ===== src/Process/Memory.antt =====
-- Reading and writing the target's memory (process_write_data and process_read_data of
-- patcher/process.c), over the calls of libcompel that do it.
use mathlib.Core.Path.{ap₂}
use nsb.Base.{
  ℕ, zero, suc, ◌+◌, ◌%◌, ◌≤◌, ◌<◌, ◌≡◌, refl, ◌⊎◌, inl, inr, List, [], ◌∷◌, length, ◌==◌, arith,
  ==_iff, Bool-cases, ap, ◌∙◌, sym, if◌then◌else◌,
}
use nsb.Base.Int.{ℤ, pos, negsuc, einval}

-- How `ptrace_peek_area` or `ptrace_poke_area` ends: by 0, by -1 (the size is no multiple of a word),
-- or by another value, with errno n + 1.
pub data Outcome : Type 0 where
  done misaligned : Outcome
  failed : ℕ → Outcome

-- The stopped target, as libcompel gives access to it.
pub record Tracee : Type 1 where
  pub State : Type 0
  pub peek : State → (addr size : ℕ) → Outcome × List ℕ
  pub poke : State → (addr : ℕ) → List ℕ → Outcome × State

abbrev pub outcome_code : Outcome → ℤ
outcome_code Outcome.done = pos 0
outcome_code Outcome.misaligned = einval
outcome_code (Outcome.failed n) = negsuc n

module _ (t : Tracee) where
  open t use {State, peek, poke}

  unfoldable pub process_write_data : State → (addr : ℕ) → List ℕ → ℤ × State
  process_write_data s addr bytes =
      let (outcome, s') = poke s addr bytes in (outcome_code outcome, s')

  unfoldable pub process_read_data : State → (addr size : ℕ) → ℤ × List ℕ
  process_read_data s addr size =
      let (outcome, bytes) = peek s addr size in (outcome_code outcome, bytes)

-- A byte at each address.
abbrev pub Memory : Type 0
Memory = ℕ → ℕ

abbrev pub bytes_at : Memory → (addr size : ℕ) → List ℕ
bytes_at m addr zero = []
bytes_at m addr (suc n) = m addr ∷ bytes_at m (addr + 1) n

-- The memory after a write.
abbrev pub overlay : Memory → (addr : ℕ) → List ℕ → Memory
overlay m addr [] x = m x
overlay m addr (b ∷ bs) x = if x == addr then b else overlay m (addr + 1) bs x

-- What the patcher relies on: the calls read and write the memory of the target, and they succeed
-- where the size is a multiple of eight.
pub record ReadsAndWrites (t : Tracee) : Type 0 where
  pub mem : t.State → Memory
  pub peeks :
      (s : t.State) (addr size : ℕ)
      → size % 8 ≡ 0
      → t.peek s addr size ≡ (Outcome.done, bytes_at (mem s) addr size)
  pub poke_done :
      (s : t.State) (addr : ℕ) (bs : List ℕ)
      → length bs % 8 ≡ 0
      → (t.poke s addr bs).0 ≡ Outcome.done
  pub poke_mem :
      (s : t.State) (addr : ℕ) (bs : List ℕ) (x : ℕ)
      → length bs % 8 ≡ 0
      → mem (t.poke s addr bs).1 x ≡ overlay (mem s) addr bs x

-- The target as plain memory: such a tracee meets what is relied on.
abbrev pub plain_peek : Memory → (addr size : ℕ) → Outcome × List ℕ
plain_peek m addr size =
    if size % 8 == 0 then (Outcome.done, bytes_at m addr size) else (Outcome.misaligned, [])

abbrev pub plain_poke : Memory → (addr : ℕ) → List ℕ → Outcome × Memory
plain_poke m addr bs =
    if length bs % 8 == 0 then (Outcome.done, overlay m addr bs) else (Outcome.misaligned, m)

abbrev pub plain : Tracee
plain = record { State = Memory; peek = plain_peek; poke = plain_poke }

pub plain-peeks :
    (m : Memory) (addr size : ℕ)
    → size % 8 ≡ 0
    → plain_peek m addr size ≡ (Outcome.done, bytes_at m addr size)
plain-peeks m addr size h = ground arith

pub plain-poke_done :
    (m : Memory) (addr : ℕ) (bs : List ℕ)
    → length bs % 8 ≡ 0
    → (plain_poke m addr bs).0 ≡ Outcome.done
plain-poke_done m addr bs h = ground arith

pub plain-poke_mem :
    (m : Memory) (addr : ℕ) (bs : List ℕ) (x : ℕ)
    → length bs % 8 ≡ 0
    → (plain_poke m addr bs).1 x ≡ overlay m addr bs x
plain-poke_mem m addr bs x h = rw ((==_iff (length bs % 8) 0).1 h)

abbrev pub plain-ReadsAndWrites : ReadsAndWrites plain
plain-ReadsAndWrites = record {
  mem = λ m. m;
  peeks = plain-peeks;
  poke_done = plain-poke_done;
  poke_mem = plain-poke_mem;
}

-- Outside the bytes written nothing changes.
pub overlay-outside :
    (m : Memory) (addr : ℕ) (bs : List ℕ) (x : ℕ)
    → (x < addr) ⊎ (addr + length bs ≤ x)
    → overlay m addr bs x ≡ m x
overlay-outside m addr [] x h = refl
overlay-outside m addr (b ∷ bs) x (inl h) =
    ground (arith, overlay-outside m (addr + 1) bs x (inl (omega arith)))
overlay-outside m addr (b ∷ bs) x (inr h) =
    ground (arith, overlay-outside m (addr + 1) bs x (inr (omega arith)))

pub bytes_at-ext :
    (m m' : Memory) (addr size : ℕ)
    → ((x : ℕ) → addr ≤ x → x < addr + size → m x ≡ m' x)
    → bytes_at m addr size ≡ bytes_at m' addr size
bytes_at-ext m m' addr zero h = refl
bytes_at-ext m m' addr (suc n) h =
    ap₂ ◌∷◌ (h addr (omega arith) (omega arith))
      (bytes_at-ext m m' (addr + 1) n (λ x le lt. h x (omega arith) (omega arith)))

-- What was written is read back.
pub bytes_at-overlay :
    (m : Memory) (addr : ℕ) (bs : List ℕ) → bytes_at (overlay m addr bs) addr (length bs) ≡ bs
bytes_at-overlay m addr [] = refl
bytes_at-overlay m addr (b ∷ bs) = ap₂ ◌∷◌ (rw ((==_iff addr addr).1 refl)) (
    bytes_at-ext (overlay m addr (b ∷ bs)) (overlay m (addr + 1) bs) (addr + 1) (length bs)
      (λ x le lt. ground arith)
    ∙ bytes_at-overlay m (addr + 1) bs)

-- Inside the bytes written stands what was written: here, the bytes of another memory.
pub overlay-bytes_at :
    (m m' : Memory) (addr size x : ℕ)
    → addr ≤ x
    → x < addr + size
    → overlay m addr (bytes_at m' addr size) x ≡ m' x
overlay-bytes_at m m' addr zero x h k = absurd (omega arith)
overlay-bytes_at m m' addr (suc n) x h k = elim (Bool-cases (x == addr)) [
  | inl e ↦ rw e (ap m' (sym ((==_iff x addr).0 e)))
  | inr e ↦ rw e (overlay-bytes_at m m' (addr + 1) n x (ground (arith, e)) (omega arith))
]
