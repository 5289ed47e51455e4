-- ===== src/Exec/ElfLaws.antt =====
-- What src/elfutil.c takes from the dynamic section of a program.
use hxroot.Base.{
  ℕ, ◌%◌, ◌^◌, ◌<◌, ◌≡◌, refl, true, false, Option, some, List, [], ◌∷◌, ◌++◌, arith, ◌==◌,
  if◌then◌else◌, length, All, Text,
}
use hxroot.Exec.Elf.{Dyn, ElfInfo, scanned, scan, take_dyn, string_at, dt_rpath, dt_runpath}

abbrev pub offset_of : Dyn → ℕ
offset_of d = d.d_val % 2 ^ 32

-- The string of the last entry of this tag, or `old` where there is none.
unfoldable pub last_string : ℕ → Text → List Dyn → Option Text → Option Text
last_string tag strtab [] old = old
last_string tag strtab (d ∷ dyns) old =
    last_string tag strtab dyns
      (if d.d_tag == tag then some (string_at strtab (offset_of d)) else old)

-- An entry before the null entry, whose offset is in the table of strings if it is a search path.
abbrev pub InTable : Text → Dyn → Type 0
InTable strtab d =
    ((d.d_tag == 0) ≡ false)
    × ((d.d_tag == dt_rpath) ≡ true → offset_of d < length strtab)
    × ((d.d_tag == dt_runpath) ≡ true → offset_of d < length strtab)

abbrev pub with_paths : ElfInfo → Option Text → Option Text → ElfInfo
with_paths out rpath runpath = record { interp = out.interp; rpath = rpath; runpath = runpath }

module _ (strtab : Text) where
  take_dyn_lem :
      (d : Dyn) (out : ElfInfo)
      → InTable strtab d
      → take_dyn strtab d out
        ≡ some (
            with_paths out
              (if d.d_tag == dt_rpath then some (string_at strtab (offset_of d)) else out.rpath)
              (if d.d_tag == dt_runpath
                then some (string_at strtab (offset_of d))
                else out.runpath))
  unfolding take_dyn
  take_dyn_lem d out i = ground (arith, i.0, i.1, i.2)

  -- The search paths are the strings of the last entries of their tags before the null entry, if
  -- their offsets, taken modulo 2^32, are in the table of strings; what stands behind the null entry
  -- does not matter.
  pub scan_lem :
      (pre post : List Dyn) (d : Dyn) (out : ElfInfo)
      → All (InTable strtab) pre
      → (d.d_tag == 0) ≡ true
      → scan strtab (pre ++ (d ∷ post)) out
        ≡ scanned (
            with_paths out
              (last_string dt_rpath strtab pre out.rpath)
              (last_string dt_runpath strtab pre out.runpath))
  unfolding scan last_string
  scan_lem [] post d out a z = rw z refl
  scan_lem (x ∷ pre) post d out (i, a) z =
      rw (i.0, take_dyn_lem x out i) (scan_lem pre post d _ a z)
