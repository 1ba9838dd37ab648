-- ===== src/Service/Mapped.antt =====
-- What the command of plugins/service.c that maps leaves mapped.
use nsb.Base.{
  ℕ, zero, suc, ◌+◌, ◌*◌, ◌/◌, ◌%◌, ◌≤◌, ◌<◌, ◌≡◌, refl, sym, ap, ◌∙◌, inl, inr, ◌⊎◌, Bool, true,
  false, Bool-cases, ◌==◌, ==_iff, not, ltb, Option, none, some, arith, if◌then◌else◌,
}
use nsb.Base.Int.{ℤ, pos, negsuc, is_zero, e2big, einval}
use nsb.Service.{
  MapAddrInfo, MmapInfo, MmapRequest, Kernel, errno_code, nsb_service_cmd_do_munmap,
  nsb_service_cmd_do_mmap, map_from, unmap_back, nsb_service_cmd_mmap,
}

-- The end of the pages of a request.
abbrev pub pages_end : MapAddrInfo → ℕ
pages_end i = i.addr + (i.length + 4095) / 4096 * 4096

abbrev pub OnPages : MapAddrInfo → ℕ → Type 0
OnPages i x = (i.addr ≤ x) × (x < pages_end i)

abbrev pub OffPages : MapAddrInfo → ℕ → Type 0
OffPages i x = (x < i.addr) ⊎ (pages_end i ≤ x)

-- `MAP_FIXED`
abbrev pub IsFixed : MmapInfo → Type 0
IsFixed mi = mi.flags / 16 % 2 ≡ 1

-- What the manual pages of mmap, munmap and close say of the addresses that are mapped: a call at a
-- fixed address that succeeds maps its pages, and no call changes another page.
pub record MapsPages (k : Kernel) : Type 0 where
  pub mapped : k.World → ℕ → Bool
  pub mmap_here :
      (w : k.World) (fd : ℕ) (mi : MmapInfo) (x : ℕ)
      → IsFixed mi
      → (k.mmap w fd mi.info.addr mi.info.length mi.prot mi.flags mi.offset).0 ≡ none
      → OnPages mi.info x
      → mapped (k.mmap w fd mi.info.addr mi.info.length mi.prot mi.flags mi.offset).1 x ≡ true
  pub mmap_off :
      (w : k.World) (fd : ℕ) (mi : MmapInfo) (x : ℕ)
      → IsFixed mi
      → OffPages mi.info x
      → mapped (k.mmap w fd mi.info.addr mi.info.length mi.prot mi.flags mi.offset).1 x ≡ mapped w x
  pub munmap_off :
      (w : k.World) (i : MapAddrInfo) (x : ℕ)
      → OffPages i x
      → mapped (k.munmap w i.addr i.length).1 x ≡ mapped w x
  pub close_keeps : (w : k.World) (fd x : ℕ) → mapped (k.close w fd) x ≡ mapped w x

errno_code-none : (e : Option ℕ) → errno_code e ≡ pos 0 → e ≡ none
errno_code-none none h = refl
errno_code-none (some n) h = absurd (ground (arith, h))

on_or_off : (i : MapAddrInfo) (x : ℕ) → OnPages i x ⊎ OffPages i x
on_or_off i x = ground arith

module _ (k : Kernel) (laws : MapsPages k) where
  open laws use {mapped, mmap_here, mmap_off, munmap_off, close_keeps}

  -- What a request for two mappings does, by how the two calls end.
  two_lem :
      (rq : MmapRequest) (w : k.World)
      → rq.nr_mmaps ≡ 2
      → nsb_service_cmd_mmap k rq w ≡ (
          let (err, w') = nsb_service_cmd_do_mmap k rq.fd (rq.mmaps 0) w in
          let (err', w'') = nsb_service_cmd_do_mmap k rq.fd (rq.mmaps 1) w' in
          if is_zero err
          then if is_zero err'
            then (pos 0, k.close w'' rq.fd)
            else (err', (nsb_service_cmd_do_munmap k (rq.mmaps 1).info w'').1)
          else (err, w'))
  unfolding nsb_service_cmd_mmap map_from unmap_back
  two_lem rq w h =
      let (err, w') = nsb_service_cmd_do_mmap k rq.fd (rq.mmaps 0) w in
      let (err', w'') = nsb_service_cmd_do_mmap k rq.fd (rq.mmaps 1) w' in
      rw h (elim (Bool-cases (is_zero err)) [
        | inr e ↦ rw e (rw e refl)
        | inl e ↦ elim (Bool-cases (is_zero err')) [
          | inl e' ↦ rw (e, e') refl
          | inr e' ↦ rw (e, e') (rw e' refl)
        ]
      ])

  do_mmap-On :
      (fd : ℕ) (mi : MmapInfo) (w : k.World) (x : ℕ)
      → IsFixed mi
      → (nsb_service_cmd_do_mmap k fd mi w).0 ≡ pos 0
      → OnPages mi.info x
      → mapped (nsb_service_cmd_do_mmap k fd mi w).1 x ≡ true
  unfolding nsb_service_cmd_do_mmap
  do_mmap-On fd mi w x f h on = mmap_here w fd mi x f (errno_code-none _ h) on

  do_mmap-Off :
      (fd : ℕ) (mi : MmapInfo) (w : k.World) (x : ℕ)
      → IsFixed mi
      → OffPages mi.info x
      → mapped (nsb_service_cmd_do_mmap k fd mi w).1 x ≡ mapped w x
  unfolding nsb_service_cmd_do_mmap
  do_mmap-Off fd mi w x f off = mmap_off w fd mi x f off

  do_munmap-Off :
      (i : MapAddrInfo) (w : k.World) (x : ℕ)
      → OffPages i x
      → mapped (nsb_service_cmd_do_munmap k i w).1 x ≡ mapped w x
  unfolding nsb_service_cmd_do_munmap
  do_munmap-Off i w x off = munmap_off w i x off

  -- The request is for two mappings, both at fixed addresses, the first call of mmap succeeds, and the
  -- second fails. Then the command results in the second call's error, and what is on the pages of the
  -- first and not on those of the second is left mapped: the first mapping is not taken back. The
  -- system calls are to keep the pages they are not asked about.
  pub nsb_service_cmd_mmap-left :
      (rq : MmapRequest) (w : k.World) (n x : ℕ)
      → rq.nr_mmaps ≡ 2
      → IsFixed (rq.mmaps 0)
      → IsFixed (rq.mmaps 1)
      → (nsb_service_cmd_do_mmap k rq.fd (rq.mmaps 0) w).0 ≡ pos 0
      → (nsb_service_cmd_do_mmap k rq.fd
          (rq.mmaps 1)
          (nsb_service_cmd_do_mmap k rq.fd (rq.mmaps 0) w).1).0
        ≡ negsuc n
      → OnPages (rq.mmaps 0).info x
      → OffPages (rq.mmaps 1).info x
      → ((nsb_service_cmd_mmap k rq w).0 ≡ negsuc n)
        × (mapped (nsb_service_cmd_mmap k rq w).1 x ≡ true)
  nsb_service_cmd_mmap-left rq w n x h f0 f1 e0 e1 on off =
      let w' = (nsb_service_cmd_do_mmap k rq.fd (rq.mmaps 0) w).1 in
      let w'' = (nsb_service_cmd_do_mmap k rq.fd (rq.mmaps 1) w').1 in
      let eq : nsb_service_cmd_mmap k rq w
          ≡ (negsuc n, (nsb_service_cmd_do_munmap k (rq.mmaps 1).info w'').1) =
        two_lem rq w h ∙ rw (e0, e1) refl in
      (
        ap (λ (r : ℤ × k.World). r.0) eq,
        ap (λ (r : ℤ × k.World). mapped r.1 x) eq
            ∙ do_munmap-Off (rq.mmaps 1).info w'' x off
            ∙ do_mmap-Off rq.fd (rq.mmaps 1) w' x f1 off
            ∙ do_mmap-On rq.fd (rq.mmaps 0) w x f0 e0 on,
      )

  passed_guards :
      (over two : Bool) (w : k.World) (r : ℤ × k.World)
      → (if over then (e2big, w) else if not two then (einval, w) else r).0 ≡ pos 0
      → two ≡ true
  passed_guards false true w r h = refl
  passed_guards true two w r h = absurd (ground (arith, h))
  passed_guards false false w r h = absurd (ground (arith, h))

  only_two :
      (rq : MmapRequest) (w : k.World) → (nsb_service_cmd_mmap k rq w).0 ≡ pos 0 → rq.nr_mmaps ≡ 2
  unfolding nsb_service_cmd_mmap
  only_two rq w h =
      (==_iff rq.nr_mmaps 2).0 (passed_guards (ltb 255 rq.nr_mmaps) (rq.nr_mmaps == 2) w _ h)

  both_succeeded :
      (err err' : ℤ) (u v w : k.World)
      → (if◌then◌else◌ {A = ℤ × k.World}
          (is_zero err)
          (if is_zero err' then (pos 0, u) else (err', v))
          (err, w)).0
        ≡ pos 0
      → (err ≡ pos 0) × (err' ≡ pos 0)
  both_succeeded (pos zero) (pos zero) u v w h = (refl, refl)
  both_succeeded (pos zero) (pos (suc n)) u v w h = absurd (ground (arith, h))
  both_succeeded (pos zero) (negsuc n) u v w h = (refl, h)
  both_succeeded (pos (suc n)) err' u v w h = absurd (ground (arith, h))
  both_succeeded (negsuc n) err' u v w h = absurd (ground (arith, h))

  both_On :
      (rq : MmapRequest) (w : k.World) (x : ℕ)
      → IsFixed (rq.mmaps 0)
      → IsFixed (rq.mmaps 1)
      → (nsb_service_cmd_do_mmap k rq.fd (rq.mmaps 0) w).0 ≡ pos 0
      → (nsb_service_cmd_do_mmap k rq.fd
          (rq.mmaps 1)
          (nsb_service_cmd_do_mmap k rq.fd (rq.mmaps 0) w).1).0
        ≡ pos 0
      → OnPages (rq.mmaps 0).info x ⊎ OnPages (rq.mmaps 1).info x
      → mapped
          (nsb_service_cmd_do_mmap k rq.fd
            (rq.mmaps 1)
            (nsb_service_cmd_do_mmap k rq.fd (rq.mmaps 0) w).1).1
          x
        ≡ true
  both_On rq w x f0 f1 e0 e1 (inr on) = do_mmap-On rq.fd (rq.mmaps 1) _ x f1 e1 on
  both_On rq w x f0 f1 e0 e1 (inl on) = elim (on_or_off (rq.mmaps 1).info x) [
    | inl on' ↦ do_mmap-On rq.fd (rq.mmaps 1) _ x f1 e1 on'
    | inr off ↦
        do_mmap-Off rq.fd (rq.mmaps 1) _ x f1 off ∙ do_mmap-On rq.fd (rq.mmaps 0) w x f0 e0 on
  ]

  -- Where the command results in 0 and the mappings it was asked for are at fixed addresses, it was
  -- asked for two mappings, and every page of both is mapped. The system calls are to map what they
  -- are asked to where they succeed, and to keep the pages they are not asked about.
  pub nsb_service_cmd_mmap-both :
      (rq : MmapRequest) (w : k.World) (x : ℕ)
      → IsFixed (rq.mmaps 0)
      → IsFixed (rq.mmaps 1)
      → (nsb_service_cmd_mmap k rq w).0 ≡ pos 0
      → OnPages (rq.mmaps 0).info x ⊎ OnPages (rq.mmaps 1).info x
      → (rq.nr_mmaps ≡ 2) × (mapped (nsb_service_cmd_mmap k rq w).1 x ≡ true)
  nsb_service_cmd_mmap-both rq w x f0 f1 h on =
      let two = only_two rq w h in
      let eq = two_lem rq w two in
      let w' = (nsb_service_cmd_do_mmap k rq.fd (rq.mmaps 0) w).1 in
      let w'' = (nsb_service_cmd_do_mmap k rq.fd (rq.mmaps 1) w').1 in
      let (e0, e1) = both_succeeded _ _ _ _ _ (sym (ap (λ (r : ℤ × k.World). r.0) eq) ∙ h) in
      let done : nsb_service_cmd_mmap k rq w ≡ (pos 0, k.close w'' rq.fd) = eq ∙ rw (e0, e1) refl in
      (
        two,
        ap (λ (r : ℤ × k.World). mapped r.1 x) done
            ∙ close_keeps w'' rq.fd x
            ∙ both_On rq w x f0 f1 e0 e1 on,
      )
