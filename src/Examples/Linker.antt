-- ===== src/Examples/Linker.antt =====
-- The dynamic linker's list of one library, as patcher/rtld.c reads it.
use nsb.Base.{refl, [], ◌∷◌, ◌==◌, if◌then◌else◌, arith}
use nsb.Base.Word.{add64}
use nsb.Process.Memory.{Memory, bytes_at}
use nsb.Rtld.{word}
use nsb.Rtld.Listed.{found, passed, Libraries, last}

-- `struct r_debug` at 0x100, whose list is at 0x200; the library is loaded at 0x40, and its dynamic
-- section at 0x300 has the name of the object before the symbol table at 0x50.
abbrev pub one_library : Memory
one_library a =
    if a == 0x109
    then 0x02
    else if a == 0x200
    then 0x40
    else if a == 0x211
    then 0x03
    else if a == 0x300
    then 14
    else if a == 0x310
    then 6
    else if a == 0x318
    then 0x50
    else 0

pub one_library-Libraries :
    Libraries one_library 2 (word (bytes_at one_library (add64 0x100 8) 8) 0) ((0x50, 0x40) ∷ [])
one_library-Libraries = last (passed (omega arith) (omega arith) (found refl (omega arith))) refl
