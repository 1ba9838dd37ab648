-- ===== src/Process/Threads/Collected.antt =====
-- The threads that process_collect_threads of patcher/process.c adds to the list.
use nsb.Base.{
  ℕ, ◌≡◌, refl, sym, ap, ◌∙◌, ◌≢◌, ◌⊎◌, inl, inr, Bool, true, false, List, [], ◌∷◌, ◌++◌, All,
  All-append, ==_iff, not, Bool-cases, arith,
}
use nsb.Process.Threads.{Thread, known, collect_thread, collect_all, process_needs_seize}

abbrev pub Seized : Thread → Type 0
Seized t = t.seized ≡ true

abbrev pub Free : Thread → Type 0
Free t = t.seized ≡ false

abbrev pub Known : List Thread → ℕ → Type 0
Known threads pid = known pid threads ≡ true

Known-append : (pid : ℕ) (ts us : List Thread) → Known ts pid → Known (ts ++ us) pid
Known-append pid [] us h = ground (arith, h)
Known-append pid (t ∷ ts) us h = ground (arith, h, Known-append pid ts us)

appended :
    (pid : ℕ) (ts : List Thread) → Known (ts ++ record { pid = pid; seized = false } ∷ []) pid
appended pid [] = rw ((==_iff pid pid).1 refl) refl
appended pid (t ∷ ts) = ground (arith, appended pid ts)

collect_thread-Known : (pid : ℕ) (ts : List Thread) → Known (collect_thread pid ts) pid
unfolding collect_thread
collect_thread-Known pid ts = elim (Bool-cases (known pid ts)) [
  | inl e ↦ rw e e
  | inr e ↦ rw e (appended pid ts)
]

collect_thread-keeps : (pid q : ℕ) (ts : List Thread) → Known ts q → Known (collect_thread pid ts) q
unfolding collect_thread
collect_thread-keeps pid q ts h = elim (Bool-cases (known pid ts)) [
  | inl e ↦ rw e h
  | inr e ↦ rw e (Known-append q ts _ h)
]

collect_all-keeps :
    (pids : List ℕ) (q : ℕ) (ts : List Thread) → Known ts q → Known (collect_all pids ts) q
collect_all-keeps [] q ts h = h
collect_all-keeps (pid ∷ pids) q ts h =
    collect_all-keeps pids q (collect_thread pid ts) (collect_thread-keeps pid q ts h)

pub collect_all-Known : (pids : List ℕ) (ts : List Thread) → All (Known (collect_all pids ts)) pids
collect_all-Known [] ts = tt
collect_all-Known (pid ∷ pids) ts = (
  collect_all-keeps pids pid (collect_thread pid ts) (collect_thread-Known pid ts),
  collect_all-Known pids (collect_thread pid ts),
)

-- The threads that are stopped come first. What is collected comes behind them.
abbrev pub SeizedFirst : List Thread → Type 0
SeizedFirst [] = Unit
SeizedFirst (t ∷ ts) = (Seized t × SeizedFirst ts) ⊎ All Free (t ∷ ts)

pub Free-SeizedFirst : (ts : List Thread) → All Free ts → SeizedFirst ts
Free-SeizedFirst [] h = tt
Free-SeizedFirst (t ∷ ts) h = inr h

pub tail-SeizedFirst : (t : Thread) (ts : List Thread) → SeizedFirst (t ∷ ts) → SeizedFirst ts
tail-SeizedFirst t ts (inl (s, h)) = h
tail-SeizedFirst t ts (inr h) = Free-SeizedFirst ts h.1

pub prepend-SeizedFirst :
    (as' bs : List Thread) → All Seized as' → SeizedFirst bs → SeizedFirst (as' ++ bs)
prepend-SeizedFirst [] bs h k = k
prepend-SeizedFirst (a ∷ as') bs h k = inl (h.0, prepend-SeizedFirst as' bs h.1 k)

append-SeizedFirst :
    (ts : List Thread) (u : Thread) → Free u → SeizedFirst ts → SeizedFirst (ts ++ u ∷ [])
append-SeizedFirst [] u f h = inr (f, tt)
append-SeizedFirst (t ∷ ts) u f (inl (s, h)) = inl (s, append-SeizedFirst ts u f h)
append-SeizedFirst (t ∷ ts) u f (inr h) = inr (h.0, All-append Free ts (u ∷ []) h.1 (f, tt))

pub collect_all-SeizedFirst :
    (pids : List ℕ) (ts : List Thread) → SeizedFirst ts → SeizedFirst (collect_all pids ts)
unfolding collect_thread
collect_all-SeizedFirst [] ts h = h
collect_all-SeizedFirst (pid ∷ pids) ts h = elim (Bool-cases (known pid ts)) [
  | inl e ↦ rw e (collect_all-SeizedFirst pids ts h)
  | inr e ↦ rw e (
      collect_all-SeizedFirst pids _
        (append-SeizedFirst ts (record { pid = pid; seized = false }) refl h))
]

not_both : (b : Bool) → b ≡ true → ¬ (b ≡ false)
not_both b e f = ground (arith, e, f)

-- If the last thread is stopped, all are.
pub last-Seized-All :
    (ts : List Thread) → SeizedFirst ts → process_needs_seize ts ≡ false → All Seized ts × (ts ≢ [])
unfolding process_needs_seize
last-Seized-All [] h done = absurd (ground (arith, done))
last-Seized-All (t ∷ []) (inl (s, h)) done = ((s, tt), λ e. ground (arith, e))
last-Seized-All (t ∷ []) (inr h) done = absurd (ground (arith, sym (ap not h.0) ∙ done))
last-Seized-All (t ∷ u ∷ us) (inl (s, h)) done =
    ((s, (last-Seized-All (u ∷ us) h done).0), λ e. ground (arith, e))
last-Seized-All (t ∷ u ∷ us) (inr h) done =
    absurd (not_both u.seized (last-Seized-All (u ∷ us) (inr h.1) done).0.0 h.1.0)
