-- ===== src/Examples/Remote.antt =====
-- The mapping of an object by system calls in the target, and the requests of the patcher's side.
use mathlib.Core.Bool.{true≢false}
use nsb.Base.{
  sym, ==-no, ℕ, ◌<◌, ◌≡◌, ◌≢◌, refl, Bool, true, false, List, [], ◌∷◌, ◌==◌, if◌then◌else◌, arith,
}
use nsb.Base.Int.{pos, is_neg, einval}
use nsb.Base.Steps.{if-either}
use nsb.Client.{mmap_request}
use nsb.Client.Requests.{mmap_request-refused}
use nsb.Examples.{text_vma}
use nsb.Examples.Commands.{fill, nothing, no_wx}
use nsb.Process.Memory.{Outcome}
use nsb.Process.Remote.{Remote, Answer, Ran, answered}
use nsb.Process.Remote.Pages.{MapsInTarget, OnPages, OffPages}
use nsb.Service.{nsb_service_cmd_mmap}
use nsb.Vma.{VmaArea}

-- Calls in a target whose world says which addresses are mapped: mapping is refused, by the errno 13,
-- with the access 7.
abbrev called : (ℕ → Bool) → (nr : ℕ) → List ℕ → Answer × (ℕ → Bool)
called w nr [] = (Answer.returned (pos 3), w)
called w nr (addr ∷ []) = (Answer.returned (pos 3), w)
called w nr (addr ∷ len ∷ []) = (Answer.returned (pos 3), w)
called w nr (addr ∷ len ∷ prot ∷ args) =
    if nr == 9
    then (if prot == 7
        then (Answer.failed 0 13, w)
        else (Answer.returned (pos addr), fill true addr len w))
    else if nr == 11
    then (Answer.returned (pos 0), fill false addr len w)
    else (Answer.returned (pos 3), w)

abbrev remote : Remote
remote = record {
  tracee = record {
    State = ℕ → Bool;
    peek = λ w addr size. (Outcome.done, []);
    poke = λ w addr bytes. (Outcome.done, w);
  };
  syscall = called;
  run_at = λ w addr. (Ran.ran 0, w);
  behind = λ bytes addr. 0;
}

fill-On :
    (value : Bool) (v : VmaArea) (w : ℕ → Bool) (x : ℕ)
    → OnPages v x
    → fill value v.addr v.len w x ≡ value
fill-On value v w x on = ground arith

fill-Off :
    (value : Bool) (v : VmaArea) (w : ℕ → Bool) (x : ℕ)
    → OffPages v x
    → fill value v.addr v.len w x ≡ w x
fill-Off value v w x off = ground arith

-- What an answer of the one or the other leaves.
abbrev outcome : Bool → (addr : ℕ) → (u v : ℕ → Bool) → Answer × (ℕ → Bool)
outcome wx addr u v = if wx then (Answer.failed 0 13, u) else (Answer.returned (pos addr), v)

refused-on :
    (wx : Bool) (addr : ℕ) (u v : ℕ → Bool) (x : ℕ)
    → is_neg (answered (outcome wx addr u v).0).0 ≡ false
    → v x ≡ true
    → (outcome wx addr u v).1 x ≡ true
refused-on true addr u v x h on = absurd (true≢false h)
refused-on false addr u v x h on = on

refused-fails :
    (wx : Bool) (addr : ℕ) (u v : ℕ → Bool) (x : ℕ)
    → is_neg (answered (outcome wx addr u v).0).0 ≡ true
    → u x ≡ false
    → (outcome wx addr u v).1 x ≡ false
refused-fails true addr u v x h off = off
refused-fails false addr u v x h off = absurd (true≢false (sym h))

refused-off :
    (wx : Bool) (addr : ℕ) (u v : ℕ → Bool) (x : ℕ) → v x ≡ u x → (outcome wx addr u v).1 x ≡ u x
refused-off true addr u v x h = refl
refused-off false addr u v x h = h

abbrev LeavesErrno : Answer × (ℕ → Bool) → Type 0
LeavesErrno a = is_neg (answered a.0).0 ≡ true → (answered a.0).1 ≢ 0

called-LeavesErrno : (w : ℕ → Bool) (nr : ℕ) (args : List ℕ) → LeavesErrno (called w nr args)
called-LeavesErrno w nr [] = λ h. absurd (true≢false (sym h))
called-LeavesErrno w nr (addr ∷ []) = λ h. absurd (true≢false (sym h))
called-LeavesErrno w nr (addr ∷ len ∷ []) = λ h. absurd (true≢false (sym h))
called-LeavesErrno w nr (addr ∷ len ∷ prot ∷ args) =
    if-either LeavesErrno (nr == 9) _ _
      (if-either LeavesErrno (prot == 7) _ _ (λ h. omega arith) (λ h. absurd (true≢false (sym h))))
      (if-either LeavesErrno (nr == 11) _ _ (λ h. absurd (true≢false (sym h)))
        (λ h. absurd (true≢false (sym h))))

called-keeps :
    (w : ℕ → Bool) (nr : ℕ) (args : List ℕ) (x : ℕ) → nr < 9 → (called w nr args).1 x ≡ w x
called-keeps w nr [] x h = refl
called-keeps w nr (addr ∷ []) x h = refl
called-keeps w nr (addr ∷ len ∷ []) x h = refl
called-keeps w nr (addr ∷ len ∷ prot ∷ args) x h =
    rw (==-no nr 9 (λ e. omega arith), ==-no nr 11 (λ e. omega arith)) refl

abbrev remote-MapsInTarget : MapsInTarget remote
remote-MapsInTarget = record {
  mapped = λ w x. w x;
  poke_keeps = λ w addr bytes x. refl;
  open_keeps = λ w args x. called-keeps w 2 args x (omega arith);
  close_keeps = λ w args x. called-keeps w 3 args x (omega arith);
  sets_errno = called-LeavesErrno;
  mmap_on = λ w fd v x placed good on.
      refused-on _ v.addr w (fill true v.addr v.len w) x good (fill-On true v w x on);
  mmap_fails = λ w fd v x bad off. refused-fails _ v.addr w (fill true v.addr v.len w) x bad off;
  mmap_off = λ w fd v x placed off.
      refused-off _ v.addr w (fill true v.addr v.len w) x (fill-Off true v w x off);
  munmap_on = λ w v x placed on. fill-On false v w x on;
  munmap_off = λ w v x placed off. fill-Off false v w x off;
}

-- Two segments at fixed addresses; the second has the access that is refused.
abbrev segments : List VmaArea
segments =
    record (text_vma 1 0x10000 0x1000) { flags = 0x12 }
    ∷ record (text_vma 2 0x20000 0x1000) {
      flags = 0x12;
      prot = record { read = true; write = true; exec = true };
    }
    ∷ []

-- One segment is refused by the service.
mmap_request-refused_example :
    nsb_service_cmd_mmap no_wx (mmap_request (text_vma 1 0x10000 0x1000 ∷ []) 7).1 nothing
    ≡ (einval, nothing)
mmap_request-refused_example =
    mmap_request-refused no_wx (text_vma 1 0x10000 0x1000 ∷ []) 7 nothing (omega arith)
      (omega arith)

-- Two segments with an access that is not refused.
abbrev plain_segments : List VmaArea
plain_segments =
    record (text_vma 1 0x10000 0x1000) { flags = 0x12 }
    ∷ record (text_vma 2 0x20000 0x1000) { flags = 0x12 }
    ∷ []
