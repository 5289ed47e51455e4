-- ===== src/Exec/Elf.antt =====
-- src/elfutil.c: what is read of an ELF file of 64 bits, little-endian.
use hxroot.Files.Stat.{c_string}
use hxroot.Sys.{Errno, M, Shape, throw, Op, abort, ◌>>=◌, Kernel, return, word, call}
use hxroot.Base.{
  ℕ, zero, suc, ◌+◌, ◌-◌, ◌*◌, ◌/◌, ◌%◌, ◌^◌, Option, none, some, List, [], ◌∷◌, ltb, leb, ◌==◌,
  if◌then◌else◌, length, get_elem?, take, drop, Text, bytes, text_eq,
}

-- The number in the `n` bytes at the front.
unfoldable pub le_number : ℕ → Text → ℕ
le_number zero s = 0
le_number (suc n) [] = 0
le_number (suc n) (c ∷ s) = c + 256 * le_number n s

abbrev pub field : ℕ → ℕ → Text → ℕ
field n offset s = le_number n (drop offset s)

-- `Elf64_Ehdr`, `Elf64_Shdr`, `Elf64_Phdr` and `Elf64_Dyn`: the fields that are read.
pub record Ehdr : Type 0 where
  pub e_phoff : ℕ
  pub e_shoff : ℕ
  pub e_phnum : ℕ
  pub e_shnum : ℕ
  pub e_shstrndx : ℕ

pub record Shdr : Type 0 where
  pub sh_name : ℕ
  pub sh_offset : ℕ
  pub sh_size : ℕ

pub record Phdr : Type 0 where
  pub p_type : ℕ
  pub p_offset : ℕ
  pub p_filesz : ℕ

pub record Dyn : Type 0 where
  pub d_tag : ℕ
  pub d_val : ℕ

unfoldable pub read_ehdr : Text → Ehdr
unfolding le_number
read_ehdr s = record {
  e_phoff = field 8 32 s;
  e_shoff = field 8 40 s;
  e_phnum = field 2 56 s;
  e_shnum = field 2 60 s;
  e_shstrndx = field 2 62 s;
}

unfoldable pub read_shdr : Text → Shdr
unfolding le_number
read_shdr s = record { sh_name = field 4 0 s; sh_offset = field 8 24 s; sh_size = field 8 32 s }

unfoldable pub read_phdr : Text → Phdr
unfolding le_number
read_phdr s = record { p_type = field 4 0 s; p_offset = field 8 8 s; p_filesz = field 8 32 s }

unfoldable pub read_dyn : Text → Dyn
unfolding le_number
read_dyn s = record { d_tag = field 8 0 s; d_val = field 8 8 s }

-- An array of `n` structures of `size` bytes.
unfoldable pub read_array : {A : Type 0} → (Text → A) → ℕ → ℕ → Text → List A
read_array read size zero s = []
read_array read size (suc n) s = read s ∷ read_array read size n (drop size s)

-- A section by its name: the first, or none, or a name that begins behind the table of names is met
-- first. A table without a null byte at its end is taken to have one behind it.
pub data Found : Type 0 where
  found : Shdr → Found
  missing : Found
  outside : Found

unfoldable pub find_section : Text → Text → List Shdr → Found
unfolding c_string
find_section shstrtab name [] = missing
find_section shstrtab name (s ∷ sections) =
    let rest = find_section shstrtab name sections in
    if ltb s.sh_name (length shstrtab)
    then (if text_eq (c_string (drop s.sh_name shstrtab)) name then found s else rest)
    else outside

unfoldable pub find_dynamic : List Phdr → Option Phdr
find_dynamic [] = none
find_dynamic (p ∷ phdrs) = if p.p_type == 2 then some p else find_dynamic phdrs

-- `struct HxElfInfo`
pub record ElfInfo : Type 0 where
  pub interp : Option Text
  pub rpath : Option Text
  pub runpath : Option Text

-- `DT_RPATH` and `DT_RUNPATH`
abbrev pub dt_rpath : ℕ
dt_rpath = 15

abbrev pub dt_runpath : ℕ
dt_runpath = 29

-- The string at `off` in the table, cut one byte before the table's end.
unfoldable pub string_at : Text → ℕ → Text
unfolding c_string
string_at strtab off = c_string (take (length strtab - off - 1) (drop off strtab))

-- The entry is taken into the result; `none` is `E2BIG`. An int that is negative is at least `strsz`
-- when it is compared, as its bit pattern is.
unfoldable pub take_dyn : Text → Dyn → ElfInfo → Option ElfInfo
unfolding string_at
take_dyn strtab d out =
    let off = d.d_val % 2 ^ 32 in
    if d.d_tag == dt_runpath
    then (if leb (length strtab) off
        then none
        else some (record out { runpath = some (string_at strtab off) }))
    else if d.d_tag == dt_rpath
    then (if leb (length strtab) off
        then none
        else some (record out { rpath = some (string_at strtab off) }))
    else some out

-- How the loop over the dynamic section ends: at its null entry, with -1, or behind its end.
pub data Scanned : Type 0 where
  scanned : ElfInfo → Scanned
  too_big : Scanned
  overrun : Scanned

abbrev pub scan_rest : Option ElfInfo → (ElfInfo → Scanned) → Scanned
scan_rest none k = too_big
scan_rest (some out) k = k out

unfoldable pub scan : Text → List Dyn → ElfInfo → Scanned
unfolding take_dyn
scan strtab [] out = overrun
scan strtab (d ∷ dyns) out =
    if d.d_tag == 0
    then scanned out
    else scan_rest (take_dyn strtab d out) (λ o. scan strtab dyns o)

module _ (K : Kernel) (fd : ℕ) where
  -- `pread` of all of a table, with its checks
  unfoldable pub pread_all : ℕ → ℕ → M K.State Text
  pread_all size offset =
      call K Shape.text
        (record { op = Op.pread; paths = []; args = word fd ∷ word size ∷ word offset ∷ [] })
      >>= λ got. if length got == size then return got else throw Errno.enodata

  -- `HxReadInterp64`
  unfoldable pub read_interp : Text → List Shdr → ElfInfo → M K.State ElfInfo
  unfolding pread_all find_section c_string
  read_interp shstrtab sections out = elim (find_section shstrtab (bytes ".interp") sections) [
    | found s ↦
        if ltb 4096 s.sh_size
        then throw Errno.e2big
        else (pread_all s.sh_size s.sh_offset >>= λ got.
            return (record out { interp = some (c_string got) }))
    | missing ↦ return out
    | outside ↦ abort
  ]

  abbrev pub finish_scan : Scanned → M K.State ElfInfo
  finish_scan (scanned out) = return out
  finish_scan too_big = throw Errno.e2big
  finish_scan overrun = abort

  -- From `.dynstr` on.
  unfoldable pub read_strings : Text → List Shdr → List Dyn → ElfInfo → M K.State ElfInfo
  unfolding pread_all find_section scan
  read_strings shstrtab sections dyns out =
      elim (find_section shstrtab (bytes ".dynstr") sections) [
        | found s ↦
            if ltb (1024 * 1024 * 100) s.sh_size
            then throw Errno.e2big
            else (pread_all s.sh_size s.sh_offset >>= λ strtab. finish_scan (scan strtab dyns out))
        | missing ↦ return out
        | outside ↦ abort
      ]

  -- `HxReadRpath64`
  unfoldable pub read_rpath : Ehdr → Text → List Shdr → ElfInfo → M K.State ElfInfo
  unfolding pread_all read_array read_phdr read_dyn find_dynamic read_strings
  read_rpath ehdr shstrtab sections out =
      if ltb 4096 (ehdr.e_phnum * 56)
      then throw Errno.e2big
      else (pread_all (56 * ehdr.e_phnum) ehdr.e_phoff >>= λ phdrs.
          elim (find_dynamic (read_array read_phdr 56 ehdr.e_phnum phdrs)) [
            | none ↦ return out
            | some p ↦
                if ltb 4096 p.p_filesz
                then throw Errno.e2big
                else (pread_all p.p_filesz p.p_offset >>= λ dyns.
                    read_strings shstrtab sections (read_array read_dyn 16 (p.p_filesz / 16) dyns)
                      out)
          ])

  -- `HxParseElfInfo64` from the table of section names on, at which `strtab` is the section.
  unfoldable pub parse_named : Ehdr → List Shdr → Shdr → M K.State ElfInfo
  unfolding pread_all read_interp read_rpath
  parse_named ehdr sections strtab =
      if ltb 4096 strtab.sh_size
      then throw Errno.e2big
      else (pread_all strtab.sh_size strtab.sh_offset >>= λ shstrtab.
          read_interp shstrtab sections (record { interp = none; rpath = none; runpath = none })
          >>= read_rpath ehdr shstrtab sections)

  -- `HxParseElfInfo64`. The index of that table is not compared with the number of sections: one
  -- that is too large reads memory behind the array.
  unfoldable pub parse_elf : Ehdr → M K.State ElfInfo
  unfolding pread_all read_array read_shdr parse_named
  parse_elf ehdr =
      if ltb 4096 (ehdr.e_shnum * 64)
      then throw Errno.e2big
      else (pread_all (64 * ehdr.e_shnum) ehdr.e_shoff >>= λ table.
          let sections = read_array read_shdr 64 ehdr.e_shnum table in
          elim (get_elem? sections ehdr.e_shstrndx) [
            | none ↦ abort
            | some strtab ↦ parse_named ehdr sections strtab
          ])
