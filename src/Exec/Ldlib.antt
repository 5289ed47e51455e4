-- ===== src/Exec/Ldlib.antt =====
-- src/ldlib.c: the buffer in which `LD_LIBRARY_PATH` is put together. Sizes are of 64 bits.
use hxroot.Base.{
  ℕ, zero, suc, ◌+◌, ◌-◌, ◌*◌, ◌%◌, ◌^◌, Option, none, some, [], ◌∷◌, ◌++◌, ltb, ◌==◌,
  if◌then◌else◌, length, take, Text, bytes,
}

-- The buffer as the string in it, up to its first null byte, with `bufpos` and `bufsiz`. A null
-- `buf` is `none`.
pub record Buffer : Type 0 where
  pub text : Text
  pub bufpos : ℕ
  pub bufsiz : ℕ

abbrev pub Ldlib : Type 0
Ldlib = Option Buffer

abbrev pub variable : Text
variable = bytes "LD_LIBRARY_PATH="

abbrev pub at_least : ℕ → ℕ → ℕ
at_least n m = if ltb m n then n else m

-- `HxLdlibAllocate`, for a string of `slen` bytes.
unfoldable pub allocate : ℕ → Ldlib → Buffer
allocate slen none = record { text = []; bufpos = 0; bufsiz = at_least slen 512 }
allocate slen (some b) = b

-- `HxLdlib_set`, on a buffer with room for the string.
unfoldable pub set_text : Text → Ldlib → Buffer
unfolding allocate
set_text s l = record (allocate (length s + 1) l) { text = s; bufpos = length s }

-- `bufsiz - bufpos`
abbrev pub remaining : Buffer → ℕ
remaining b = (b.bufsiz + 2 ^ 64 - b.bufpos) % 2 ^ 64

-- The loop around `realloc`, at most `n` times.
unfoldable pub grow : ℕ → ℕ → Buffer → Buffer
grow zero need b = b
grow (suc n) need b =
    let more = grow n need (record b { bufsiz = b.bufsiz * 2 }) in
    if ltb (remaining b) need then more else b

-- `snprintf(buf + bufpos, room, ":%s", s)`: at most `room - 1` bytes are written, and `bufpos` moves
-- by all of them. Behind the end of the buffer nothing may be written: that is `none`. Where an
-- earlier call was cut short its null byte stays, and ends the string.
unfoldable pub print_at : ℕ → Text → Buffer → Option Buffer
print_at room s b =
    let moved = record b { bufpos = b.bufpos + length s + 1 } in
    if ltb b.bufsiz b.bufpos
    then none
    else if room == 0
    then some moved
    else if length b.text == b.bufpos
    then some (record moved { text = b.text ++ take (room - 1) (b':' ∷ s) })
    else some moved

-- `HxLdlib_append` behind an earlier string.
unfoldable pub append_behind : Text → Buffer → Option Buffer
unfolding grow print_at
append_behind s b = let b' = grow 64 (length s) b in print_at (remaining b') s b'

-- `HxLdlib_append`
unfoldable pub append : Text → Ldlib → Option Buffer
unfolding allocate append_behind
append s l =
    let b = allocate (length variable + length s + 1) l in
    if b.bufpos == 0
    then some (record b {
      text = take (b.bufsiz - 1) (variable ++ s);
      bufpos = length variable + length s;
    })
    else append_behind s b
