-- ===== src/Tests/Older.antt =====
-- The two copies side by side, on examples.
use hxroot.Older.Loader.{old_handle_elf64}
use hxroot.Older.LoaderLaws.{handle_elf64-old}
use hxroot.Exec.Loader.{is_bionic, handle_elf64}
use hxroot.Exec.Elf.{ElfInfo}
use hxroot.Exec.Env.{entry_of, defines, Process}
use hxroot.Base.Words.{contains}
use hxroot.Config.{Hx}
use hxroot.Tests.{giving, jail}
use hxroot.Base.{◌≡◌, refl, none, some, [], ◌∷◌, bytes, starts_with}

abbrev linked : Hx
linked = record jail { linker = some (bytes "/l") }

abbrev plain : Process
plain = record { environ = bytes "HxRoot=/r" ∷ []; backup = [] }

abbrev an_info : ElfInfo
an_info = record { interp = some (bytes "/ld"); rpath = none; runpath = none }

handle_elf64-old_example :
    handle_elf64
      (giving [])
      linked
      plain
      (bytes "/r/a")
      (bytes "a" ∷ [])
      (bytes "A=b" ∷ [])
      an_info
      (bytes "/ld")
      0
    ≡ old_handle_elf64
        (giving [])
        linked
        plain
        (bytes "/r/a")
        (bytes "a" ∷ [])
        (bytes "A=b" ∷ [])
        an_info
        (bytes "/ld")
        0
unfolding is_bionic contains starts_with entry_of defines
handle_elf64-old_example =
    handle_elf64-old (giving []) linked plain (bytes "/r/a") (bytes "a" ∷ []) (bytes "A=b" ∷ [])
      an_info (bytes "/ld") (bytes "/l") 0 refl refl
      ((refl, refl), ((refl, refl), ((refl, refl), ((refl, refl), ((refl, refl), tt)))))
