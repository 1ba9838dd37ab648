-- ===== src/Client/Requests.antt =====
-- What the request to map (patcher/service.c) holds, and what the service (plugins/service.c) does with it.
use nsb.Base.{
  ℕ, zero, suc, ◌+◌, ◌≤◌, ◌<◌, ◌≡◌, ◌≢◌, refl, ap, ◌∙◌, inl, inr, Bool-cases, ◌==◌, ==_iff, ==-no,
  some-eq, List, [], ◌∷◌, ◌++◌, some, get_elem?, length, arith,
}
use nsb.Base.Int.{ℤ, pos, is_zero, e2big, einval}
use nsb.Base.Loop.{for_each_entry, for_each_entry-goes, for_each_entry-stops}
use nsb.Client.{max_mmaps, map_info, put, service_set_map_info, mmap_request, no_mmaps}
use nsb.Service.{MmapInfo, MmapRequest, Kernel, nsb_service_cmd_mmap}
use nsb.Vma.{VmaArea}

-- The array, from the index on filled in from the mappings.
abbrev fill : List VmaArea → ℕ → (ℕ → MmapInfo) → ℕ → MmapInfo
fill [] nr array = array
fill (v ∷ vs) nr array = fill vs (suc nr) (put array nr (map_info v))

fill-below :
    (vs : List VmaArea) (nr : ℕ) (array : ℕ → MmapInfo) (i : ℕ)
    → i < nr
    → fill vs nr array i ≡ array i
fill-below [] nr array i h = refl
fill-below (v ∷ vs) nr array i h =
    fill-below vs (suc nr) (put array nr (map_info v)) i (omega arith)
    ∙ rw (==-no i nr (λ e. omega (arith, e))) refl

put-at : (array : ℕ → MmapInfo) (nr : ℕ) (a : MmapInfo) → put array nr a nr ≡ a
put-at array nr a = rw ((==_iff nr nr).1 refl) refl

fill-at :
    (vs : List VmaArea) (nr : ℕ) (array : ℕ → MmapInfo) (j : ℕ) (v : VmaArea)
    → get_elem? vs j ≡ some v
    → fill vs nr array (nr + j) ≡ map_info v
fill-at [] nr array j v h = ground (arith, h)
fill-at (w ∷ vs) nr array zero v h =
    ap (fill vs (suc nr) (put array nr (map_info w))) (omega arith)
    ∙ fill-below vs (suc nr) (put array nr (map_info w)) nr (omega arith)
    ∙ put-at array nr (map_info w)
    ∙ ap map_info (some-eq w v h)
fill-at (w ∷ vs) nr array (suc j) v h =
    ap (fill vs (suc nr) (put array nr (map_info w))) (omega arith)
    ∙ fill-at vs (suc nr) (put array nr (map_info w)) j v h

abbrev Progress : Type 0
Progress = ℤ × List VmaArea × MmapRequest

abbrev so_far : (fd nr : ℕ) → (ℕ → MmapInfo) → MmapRequest
so_far fd nr array = record { fd = fd; nr_mmaps = nr; mmaps = array }

-- One step of the walk, with room left and without.
with_room :
    (v : VmaArea) (vs : List VmaArea) (fd nr : ℕ) (array : ℕ → MmapInfo)
    → nr ≢ max_mmaps
    → for_each_entry service_set_map_info (v ∷ vs) (so_far fd nr array) ≡ (
        let rest =
          for_each_entry service_set_map_info vs (so_far fd (suc nr) (put array nr (map_info v))) in
        (rest.0, v ∷ rest.1, rest.2))
unfolding service_set_map_info
with_room v vs fd nr array h =
    let step : service_set_map_info v (so_far fd nr array)
        ≡ (pos 0, v ∷ [], so_far fd (suc nr) (put array nr (map_info v))) =
      rw (==-no nr max_mmaps h) refl in
    for_each_entry-goes service_set_map_info v vs (so_far fd nr array)
      (ap (λ (r : Progress). is_zero r.0) step)
    ∙ ap
        (λ (r : Progress).
          let rest : Progress = for_each_entry service_set_map_info vs r.2 in
          let all_ : Progress = (rest.0, r.1 ++ rest.1, rest.2) in all_)
        step

without_room :
    (v : VmaArea) (vs : List VmaArea) (fd nr : ℕ) (array : ℕ → MmapInfo)
    → nr ≡ max_mmaps
    → (for_each_entry service_set_map_info (v ∷ vs) (so_far fd nr array)).0 ≡ e2big
unfolding service_set_map_info
without_room v vs fd nr array h =
    let step : (service_set_map_info v (so_far fd nr array)).0 ≡ e2big =
      rw ((==_iff nr max_mmaps).1 h) refl in
    ap (λ (r : Progress). r.0)
      (for_each_entry-stops service_set_map_info v vs (so_far fd nr array) (ap is_zero step))
    ∙ step

filled :
    (vs : List VmaArea) (fd nr : ℕ) (array : ℕ → MmapInfo)
    → nr + length vs ≤ max_mmaps
    → for_each_entry service_set_map_info vs (so_far fd nr array)
      ≡ (pos 0, vs, so_far fd (nr + length vs) (fill vs nr array))
unfolding for_each_entry
filled [] fd nr array h =
    ap (λ (n : ℕ). let r : Progress = (pos 0, [], so_far fd n array) in r) (omega arith)
filled (v ∷ vs) fd nr array h =
    let array' = put array nr (map_info v) in
    with_room v vs fd nr array (λ e. omega (arith, e))
    ∙ ap (λ (r : Progress). let r' : Progress = (r.0, v ∷ r.1, r.2) in r')
        (filled vs fd (suc nr) array' (omega arith))
    ∙ ap (λ (n : ℕ). let r : Progress = (pos 0, v ∷ vs, so_far fd n (fill vs (suc nr) array')) in r)
        (omega arith)

too_many :
    (vs : List VmaArea) (fd nr : ℕ) (array : ℕ → MmapInfo)
    → nr ≤ max_mmaps
    → max_mmaps < nr + length vs
    → (for_each_entry service_set_map_info vs (so_far fd nr array)).0 ≡ e2big
too_many [] fd nr array h le = absurd (omega arith)
too_many (v ∷ vs) fd nr array le h = elim (Bool-cases (nr == max_mmaps)) [
  | inl e ↦ without_room v vs fd nr array ((==_iff nr max_mmaps).0 e)
  | inr e ↦
      ap (λ (r : Progress). r.0) (with_room v vs fd nr array (λ q. ground (arith, q, e)))
      ∙ too_many vs fd (suc nr) (put array nr (map_info v)) (ground (arith, e)) (omega arith)
]

pub mmap_request-described :
    (vmas : List VmaArea) (fd : ℕ)
    → let (err, mrq) = mmap_request vmas fd in
      (length vmas ≤ 255
        → (err ≡ pos 0)
          × (mrq.fd ≡ fd)
          × (mrq.nr_mmaps ≡ length vmas)
          × ((i : ℕ) (v : VmaArea) → get_elem? vmas i ≡ some v → mrq.mmaps i ≡ map_info v))
      × (255 < length vmas → err ≡ e2big)
unfolding mmap_request
mmap_request-described vmas fd = (
  λ small.
      let eq = filled vmas 0 0 no_mmaps.mmaps (omega arith) in
      (
        ap (λ (r : ℤ × List VmaArea × MmapRequest). r.0) eq,
        refl,
        ap (λ (r : ℤ × List VmaArea × MmapRequest). r.2.nr_mmaps) eq ∙ omega arith,
        λ i v at.
            ap (λ (r : ℤ × List VmaArea × MmapRequest). r.2.mmaps i) eq
            ∙ ap (fill vmas 0 no_mmaps.mmaps) (omega arith)
            ∙ fill-at vmas 0 no_mmaps.mmaps i v at,
      ),
  λ large. too_many vmas 0 0 no_mmaps.mmaps (omega arith) (omega arith),
)

-- The request for an object of at most 255 segments, but not of two, is refused by the service: it
-- results in -EINVAL and changes nothing.
pub mmap_request-refused :
    (k : Kernel) (vmas : List VmaArea) (fd : ℕ) (w : k.World)
    → length vmas ≤ 255
    → length vmas ≢ 2
    → nsb_service_cmd_mmap k (mmap_request vmas fd).1 w ≡ (einval, w)
unfolding nsb_service_cmd_mmap
mmap_request-refused k vmas fd w small two =
    let nr = ((mmap_request-described vmas fd).0 small).2 in ground (arith, nr)
