-- ===== src/Elf/Sections/BuildId.antt =====
-- The text of a build ID, as patcher/elf.c writes it, names its bytes.
use nsb.Base.{
  ℕ, zero, suc, ◌+◌, ◌-◌, ◌*◌, ◌/◌, ◌%◌, ◌<◌, ◌≡◌, refl, ap, ◌∙◌, true, List, [], ◌∷◌, length, take,
  drop, Option, some, All, ltb, arith, if◌then◌else◌,
}
use nsb.Base.Text.{Text}
use nsb.Elf.Sections.{Shdr, print_bytes, get_build_id}
use nsb.Util.{hex_digit}

-- A digit in base 16 by its character.
abbrev pub digit_of : ℕ → ℕ
digit_of c = if ltb c b'a' then c - b'0' else c - b'a' + 10

-- The bytes that pairs of digits stand for.
abbrev pub read_bytes : Text → List ℕ
read_bytes [] = []
read_bytes (c ∷ []) = []
read_bytes (c ∷ d ∷ text) = (digit_of c * 16 + digit_of d) ∷ read_bytes text

digit-hex_digit : (d : ℕ) → d < 16 → digit_of (hex_digit d) ≡ d
digit-hex_digit d h = ground arith

digits :
    (b : ℕ) → b < 256 → digit_of (hex_digit (b / 16 % 16)) * 16 + digit_of (hex_digit (b % 16)) ≡ b
digits b h =
    rw (digit-hex_digit (b / 16 % 16) (omega arith), digit-hex_digit (b % 16) (omega arith))
      (omega arith)

read-print_bytes : (bs : List ℕ) → All (λ (b : ℕ). b < 256) bs → read_bytes (print_bytes bs) ≡ bs
unfolding print_bytes
read-print_bytes [] h = refl
read-print_bytes (b ∷ bs) (small, h) =
    ap (λ (c : ℕ). c ∷ read_bytes (print_bytes bs)) (digits b small)
    ∙ ap (λ (cs : List ℕ). b ∷ cs) (read-print_bytes bs h)

length-print_bytes : (bs : List ℕ) → length (print_bytes bs) ≡ 2 * length bs
unfolding print_bytes
length-print_bytes [] = refl
length-print_bytes (b ∷ bs) = omega (arith, length-print_bytes bs)

All-drop :
    (n : ℕ) (bs : List ℕ) → All (λ (b : ℕ). b < 256) bs → All (λ (b : ℕ). b < 256) (drop n bs)
All-drop zero bs h = h
All-drop (suc n) [] h = tt
All-drop (suc n) (b ∷ bs) h = All-drop n bs h.1

All-take :
    (n : ℕ) (bs : List ℕ) → All (λ (b : ℕ). b < 256) bs → All (λ (b : ℕ). b < 256) (take n bs)
All-take zero bs h = tt
All-take (suc n) [] h = tt
All-take (suc n) (b ∷ bs) h = (h.0, All-take n bs h.1)

-- Where the note of a section can be read and memory is to be had, the build ID is a text of two
-- digits for each byte of the note, and the bytes can be read back from it: files with the same text
-- have the same build ID.
pub get_build_id-reads :
    (header : Option Shdr) (name : Option Text) (bytes : List ℕ) (n_descsz doff : ℕ)
    → All (λ (b : ℕ). b < 256) bytes
    → (text : Text) × (get_build_id true (record {
      header = header;
      name = name;
      data_ = some bytes;
      note = some (n_descsz, doff);
    })
        ≡ some text)
      × (read_bytes text ≡ take n_descsz (drop doff bytes))
      × (length text ≡ 2 * length (take n_descsz (drop doff bytes)))
unfolding get_build_id
get_build_id-reads header name bytes n_descsz doff h =
    let bs = take n_descsz (drop doff bytes) in
    (
      print_bytes bs,
      refl,
      read-print_bytes bs (All-take n_descsz (drop doff bytes) (All-drop doff bytes h)),
      length-print_bytes bs,
    )
