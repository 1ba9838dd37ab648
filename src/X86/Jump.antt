-- ===== src/X86/Jump.antt =====
-- `x86_jmpq_instruction` of patcher/x86_64.c against the processor's reading of a jump.
use nsb.Base.{
  ℕ, suc, ◌-◌, ◌^◌, ◌≤◌, ◌<◌, ◌≡◌, refl, ap, ◌∙◌, List, [], ◌∷◌, ◌++◌, some, false, length,
  replicate, write_at-nil, lt→ltb, length-replicate, drop, arith, ltb, ◌==◌, ==_iff,
}
use nsb.Base.Int.{pos, neg, einval, enospc}
use nsb.Base.Word.{
  u64_mod, sub64, labs64, sign_extend32, add64, from_le, le_bytes, from_le-le_bytes4,
}
use nsb.X86.{above_int_max, ip_gen_offset, x86_jmpq_instruction}
use nsb.X86.Machine.{near_target, jmp_target}

-- Whether a jump at `cur` can reach `tgt`: the distance from its end is below 2^31 either way.
abbrev pub Reaches : ℕ → ℕ → Type 0
Reaches cur tgt = labs64 (sub64 tgt (add64 cur 5)) < 2 ^ 31

above_int_max_small : (x : ℕ) → x < 2 ^ 31 → above_int_max x ≡ 0
above_int_max_small x h = omega arith

above_int_max_large : (x : ℕ) → 2 ^ 31 ≤ x → (above_int_max x == 0) ≡ false
above_int_max_large x h = ground arith

ltb-false : (n : ℕ) → 5 ≤ n → ltb n 5 ≡ false
ltb-false n h = ground arith

leb_room : (n : ℕ) → ltb (suc (suc (suc (suc (suc n))))) 5 ≡ false
leb_room n = ground arith

-- Where the offset's size is below 2^31, its low half widened with the sign is the offset.
pub sign_extend-offset :
    (d : ℕ) → d < u64_mod → labs64 d < 2 ^ 31 → sign_extend32 (from_le (le_bytes 4 d)) ≡ d
sign_extend-offset d lt h = rw (from_le-le_bytes4 d) (ground arith)

offset-target : (ip tgt : ℕ) → tgt < u64_mod → add64 (add64 ip 5) (sub64 tgt (add64 ip 5)) ≡ tgt
offset-target ip tgt h = omega arith

-- The processor's reading of an opcode with an offset that `ip_gen_offset` accepts.
pub near_target-offset :
    (ip tgt op : ℕ) (rest : List ℕ)
    → tgt < u64_mod
    → Reaches ip tgt
    → near_target op ip (op ∷ (le_bytes 4 (sub64 tgt (add64 ip 5)) ++ rest)) ≡ some tgt
near_target-offset ip tgt op rest lt reach =
    let d : ℕ = sub64 tgt (add64 ip 5) in
    rw ((==_iff op op).1 refl) (
      ap some (
        ap (add64 (add64 ip 5)) (sign_extend-offset d (omega arith) reach)
        ∙ offset-target ip tgt lt))

pub ip_gen_offset-Reaches :
    (next tgt : ℕ)
    → labs64 (sub64 tgt next) < 2 ^ 31
    → ip_gen_offset next tgt 4 ≡ (pos 0, le_bytes 4 (sub64 tgt next))
unfolding ip_gen_offset
ip_gen_offset-Reaches next tgt h = rw ((==_iff _ 0).1 (above_int_max_small _ h))

pub ip_gen_offset-beyond :
    (next tgt : ℕ) → 2 ^ 31 ≤ labs64 (sub64 tgt next) → ip_gen_offset next tgt 4 ≡ (einval, [])
unfolding ip_gen_offset
ip_gen_offset-beyond next tgt h = rw (above_int_max_large _ h)

-- With room for five bytes and a target in reach, the buffer holds a jump that the processor takes
-- from `cur` to exactly `tgt`, the rest of it is filled with NOPs, and the result is the jump's size.
pub jmpq-jmp_target :
    (buf : List ℕ) (cur tgt : ℕ)
    → 5 ≤ length buf
    → tgt < u64_mod
    → Reaches cur tgt
    → let (size, code) = x86_jmpq_instruction buf cur tgt in
      (size ≡ pos 5)
      × (jmp_target cur code ≡ some tgt)
      × (drop 5 code ≡ replicate (length buf - 5) 0x90)
      × (length code ≡ length buf)
unfolding x86_jmpq_instruction
jmpq-jmp_target [] cur tgt room lt reach = absurd (omega arith)
jmpq-jmp_target (_ ∷ []) cur tgt room lt reach = absurd (omega arith)
jmpq-jmp_target (_ ∷ _ ∷ []) cur tgt room lt reach = absurd (omega arith)
jmpq-jmp_target (_ ∷ _ ∷ _ ∷ []) cur tgt room lt reach = absurd (omega arith)
jmpq-jmp_target (_ ∷ _ ∷ _ ∷ _ ∷ []) cur tgt room lt reach = absurd (omega arith)
jmpq-jmp_target (_ ∷ _ ∷ _ ∷ _ ∷ _ ∷ rest) cur tgt room lt reach =
    rw
      (
        leb_room (length rest),
        ip_gen_offset-Reaches (add64 cur 5) tgt reach,
        write_at-nil {A = ℕ} (replicate (length rest) 0x90),
      )
      (
        refl,
        near_target-offset cur tgt 0xe9 (replicate (length rest) 0x90) lt reach,
        ap (λ (n : ℕ). replicate n 0x90) (omega arith),
        omega (arith, length-replicate {A = ℕ} (length rest) 0x90),
      )

-- A buffer below five bytes is refused with `-ENOSPC` and left as it was.
pub jmpq-enospc :
    (buf : List ℕ) (cur tgt : ℕ) → length buf < 5 → x86_jmpq_instruction buf cur tgt ≡ (enospc, buf)
unfolding x86_jmpq_instruction
jmpq-enospc buf cur tgt h = rw (lt→ltb _ _ h)

-- With room for five bytes, a target out of reach of a jump is refused with -1.
pub jmpq-beyond :
    (buf : List ℕ) (cur tgt : ℕ)
    → 5 ≤ length buf
    → ¬ Reaches cur tgt
    → (x86_jmpq_instruction buf cur tgt).0 ≡ neg 1
unfolding x86_jmpq_instruction
jmpq-beyond buf cur tgt room far =
    rw (ltb-false (length buf) room, ip_gen_offset-beyond (add64 cur 5) tgt (omega arith))
