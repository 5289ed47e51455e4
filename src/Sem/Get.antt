-- ===== src/Sem/Get.antt =====
-- `semget` of src/sysvsem.c: sets in anonymous and in named shared memory, by the addresses where
-- they are mapped. The lock around the table is the matter of `Futex`.
use hxroot.Base.{
  ℕ, zero, suc, ◌+◌, ◌-◌, ◌*◌, ◌/◌, ◌%◌, ◌^◌, ◌&&◌, ◌||◌, [], ◌∷◌, ◌++◌, ltb, ◌==◌, if◌then◌else◌,
  Text, bytes,
}
use hxroot.Base.Bits.{has_bit, set_bit}
use hxroot.Base.Int.{ℤ, pos, negsuc, ltb_ℤ}
use hxroot.Sem.Table.{SetMap, add_set}
use hxroot.Sem.Sets.{semmsl}
use hxroot.Sys.{M, ◌>>=◌, word, host, Kernel, return, Op, throw, Errno}
use hxroot.Files.Open.{o_creat}

-- `IPC_CREAT` and `IPC_EXCL`, `O_EXCL`
abbrev pub ipc_creat : ℕ
ipc_creat = 0o1000

abbrev pub ipc_excl : ℕ
ipc_excl = 0o2000

abbrev pub o_excl : ℕ
o_excl = 0o200

-- `SET_SIZE`, a `size_t`: two words, an int, and 16 bytes for each semaphore.
unfoldable pub set_size : ℤ → ℕ
set_size (pos n) = (12 + 16 * n) % 2 ^ 64
set_size (negsuc n) = (12 + 16 * (2 ^ 64 - (n + 1))) % 2 ^ 64

-- `%x`
unfoldable pub hex_digits : ℕ → ℕ → Text → Text
hex_digits zero x rest = rest
hex_digits (suc n) x rest =
    let d = x % 16 in
    let c = if ltb d 10 then b'0' + d else b'a' + (d - 10) in
    let more = hex_digits n (x / 16) (c ∷ rest) in if ltb x 16 then c ∷ rest else more

abbrev pub set_name : ℕ → Text
set_name key = bytes "hxsem." ++ hex_digits 8 key []

-- `oflag` with `O_RDWR`
unfoldable pub open_flags : ℕ → ℕ
open_flags flags =
    let creat = if has_bit flags ipc_creat then set_bit 2 o_creat else 2 in
    if has_bit flags ipc_excl then set_bit creat o_excl else creat

module _ (K : Kernel) where
  -- `mmap(NULL, size, PROT_READ|PROT_WRITE, flags, fd, 0)`: 0x21 is `MAP_ANONYMOUS|MAP_SHARED`, and 1
  -- is `MAP_SHARED`.
  unfoldable pub map_shared : ℕ → ℕ → ℕ → M K.State ℕ
  map_shared size flags fd =
      host K Op.mmap [] (word 0 ∷ word size ∷ word 3 ∷ word flags ∷ word fd ∷ word 0 ∷ [])

  -- The mapping of a new private set, or of the named one.
  unfoldable pub map_set : ℕ → ℤ → ℕ → M K.State ℕ
  unfolding map_shared open_flags set_size hex_digits
  map_set key nsem flags =
      if key == 0
      then map_shared (set_size nsem) 0x21 (2 ^ 32 - 1)
      else host K Op.shm_open (set_name key ∷ [])
          (word (open_flags flags) ∷ word (flags % 512) ∷ [])
        >>= λ fd. host K Op.ftruncate [] (word fd ∷ word (set_size nsem) ∷ []) >>= λ _.
            map_shared (set_size nsem) 1 fd

  -- `semget`: the id, and the table with the new entry.
  unfoldable pub semget : SetMap ℕ → SetMap ℕ → ℕ → ℤ → ℕ → M K.State (ℕ × SetMap ℕ)
  unfolding map_set add_set
  semget sets junk key nsem flags =
      if has_bit flags ipc_creat && (ltb_ℤ nsem (pos 0) || ltb_ℤ (pos semmsl) nsem)
      then throw Errno.einval
      else map_set key nsem flags >>= λ addr. return (add_set sets junk addr)
