-- ===== src/Files/Stat.antt =====
-- src/stat.c. `HxReadLinkCount` opens a count file with the wrapper of `open`, which may ask `stat`
-- in turn: that wrapper is the parameter `open_`.
use hxroot.Base.{
  ℕ, ◌+◌, ◌-◌, ◌*◌, ◌/◌, ◌%◌, ◌^◌, Bool, true, false, ◌&&◌, Option, none, some, List, [], ◌∷◌, ◌++◌,
  ltb, ◌==◌, if◌then◌else◌, map_option, take, Text, bytes,
}
use hxroot.Base.Bits.{has_bit, set_bit, clear_bit}
use hxroot.Config.{Hx, or_real}
use hxroot.Paths.{expand_path, char_at}
use hxroot.Sys.{
  Errno, is_enoent, M, return, throw, attempt, ◌>>=◌, Stat, Statx, Shape, Arg, word, Op, Kernel,
  call,
}
use hxroot.Sys.Bracket.{ensure, with_fd, auto_close}
use hxroot.Files.Names.{realpath}
use hxroot.Files.Readlink.{readlinkat}

abbrev pub at_fdcwd : ℕ
at_fdcwd = 2 ^ 32 - 100

abbrev pub at_symlink_nofollow : ℕ
at_symlink_nofollow = 0x100

abbrev pub at_empty_path : ℕ
at_empty_path = 0x1000

abbrev pub o_rdwr : ℕ
o_rdwr = 2

abbrev pub path_max : ℕ
path_max = 4096

-- `S_ISLNK`
abbrev pub s_islnk : ℕ → Bool
s_islnk mode = mode / 2 ^ 12 % 16 == 0xa

-- `mode &= ~S_IFLNK; mode |= S_IFREG;`, where `S_IFLNK` has the bits 2^13 and 2^15.
unfoldable pub as_regular : ℕ → ℕ
as_regular mode = set_bit (clear_bit (clear_bit mode (2 ^ 13)) (2 ^ 15)) (2 ^ 15)

abbrev pub is_some {ℓ} : {A : Type ℓ} → Option A → Bool
is_some none = false
is_some (some a) = true

-- `path` up to and with its last slash, and nothing if it has none.
unfoldable pub through_last_slash : Text → Text
through_last_slash [] = []
through_last_slash (c ∷ s) =
    let rest = through_last_slash s in
    if c == b'/' then c ∷ rest else (elim rest [ [] ↦ [] | d ∷ r ↦ c ∷ d ∷ r ])

-- The string in a buffer: the bytes before the first null byte.
unfoldable pub c_string : Text → Text
c_string [] = []
c_string (c ∷ s) = let rest = c_string s in if c == 0 then [] else c ∷ rest

-- Where the link text `lnk` of `path` leads.
unfoldable pub link_target : Text → Text → Text
unfolding through_last_slash
link_target path lnk = if char_at lnk 0 == b'/' then lnk else through_last_slash path ++ lnk

-- The int that is stored in four bytes, least significant first.
unfoldable pub decode_int : Text → Option ℕ
decode_int (a ∷ b ∷ c ∷ d ∷ []) = some (a + 256 * b + 65536 * c + 16777216 * d)
decode_int _ = none

unfoldable pub encode_int : ℕ → Text
encode_int n = (n % 256) ∷ (n / 256 % 256) ∷ (n / 65536 % 256) ∷ (n / 16777216 % 256) ∷ []

-- `.hxlinks` behind a name
abbrev pub count_file : Text → Text
count_file name = name ++ bytes ".hxlinks"

-- The last statements of `HxReadLinkCount`, on a `struct stat` and on a `struct statx`.
unfoldable pub put_count : ℕ → Stat → Stat
unfolding as_regular
put_count linkcount st =
    let st' = record st { st_nlink = linkcount; st_mode = as_regular st.st_mode } in
    record st' { st_nlink = 2 }

unfoldable pub put_count_statx : ℕ → Statx → Statx
unfolding as_regular
put_count_statx linkcount st = record st {
  stx_nlink = linkcount;
  stx_mode = as_regular st.stx_mode;
}

abbrev pub Buffers : Type 0
Buffers = Option Stat × Option Statx

unfoldable pub put_counts : ℕ → Buffers → Buffers
unfolding put_count put_count_statx
put_counts n (st, stx) = (map_option (put_count n) st, map_option (put_count_statx n) stx)

module _ (K : Kernel) where
  abbrev pub host_stat : Op → List Text → List Arg → M K.State Stat
  host_stat f ps xs = call K Shape.stat (record { op = f; paths = ps; args = xs })

  -- `read(fd, &linkcount, sizeof(int))` with its checks
  unfoldable pub read_count : ℕ → M K.State ℕ
  unfolding decode_int
  read_count fd =
      call K Shape.text (record { op = Op.read; paths = []; args = word fd ∷ word 4 ∷ [] })
      >>= λ got. elim (decode_int got) [ none ↦ throw Errno.enodata | some n ↦ return n ]

module _ (K : Kernel) (h : Hx) (open_ : Text → ℕ → ℕ → M K.State ℕ) where
  -- From `realpath` to the end: the count file of the file that the link leads to.
  unfoldable pub count_of_target : Text → Buffers → M K.State Buffers
  unfolding put_counts read_count with_fd
  count_of_target target bufs =
      attempt (realpath K h target)
        (λ rp.
          attempt (open_ (count_file rp) o_rdwr 0o777)
            (λ fd. ensure (read_count K fd >>= λ n. return (put_counts n bufs)) (auto_close K fd))
            (λ e. if is_enoent e then return bufs else throw e))
        (λ _. return bufs)

  -- The buffer for the link text: its size, or `PATH_MAX` where the size is 0 as in /proc.
  unfoldable pub link_bufsize : ℕ → ℕ
  link_bufsize size = if size == 0 then path_max else size + 1

  -- `HxReadLinkCount`
  unfoldable pub read_link_count : ℕ → Text → Text → Buffers → ℕ → M K.State Buffers
  unfolding count_of_target link_bufsize link_target c_string
  read_link_count dirfd path new_path bufs flag =
      if has_bit flag at_empty_path
      then return bufs
      else host_stat K Op.fstatat (new_path ∷ []) (word dirfd ∷ word at_symlink_nofollow ∷ [])
        >>= λ st.
            if s_islnk st.st_mode
            then (if ltb 4096 st.st_size
                then throw Errno.e2big
                else readlinkat K h dirfd path (link_bufsize st.st_size) >>= λ filled.
                    let lnk = c_string (take (link_bufsize st.st_size - 1) filled.1) in
                    count_of_target (link_target path lnk) bufs)
            else return bufs

  -- `if(HxUid != -1) statbuf->st_uid = HxUid;` and the same for the group
  abbrev pub fake_ids : Stat → Stat
  fake_ids st = record st { st_uid = or_real h.uid st.st_uid; st_gid = or_real h.gid st.st_gid }

  abbrev pub counted : ℕ → Text → ℕ → Stat → M K.State Stat
  counted dirfd path flag st =
      read_link_count dirfd path (expand_path h path) (some st, none) flag >>= λ bufs.
      return (elim bufs.0 [ some st' ↦ st' | none ↦ st ])

  unfoldable pub stat : Text → M K.State Stat
  stat path = host_stat K Op.stat (expand_path h path ∷ []) [] >>= λ st.
      if h.l2s then counted at_fdcwd path 0 (fake_ids st) else return (fake_ids st)

  unfoldable pub fstat : ℕ → M K.State Stat
  fstat fd = host_stat K Op.fstat [] (word fd ∷ []) >>= λ st. return (fake_ids st)

  unfoldable pub lstat : Text → M K.State Stat
  lstat path = host_stat K Op.lstat (expand_path h path ∷ []) [] >>= λ st.
      if h.l2s && s_islnk st.st_mode
      then counted at_fdcwd path 0 (fake_ids st)
      else return (fake_ids st)

  unfoldable pub fstatat : ℕ → Text → ℕ → M K.State Stat
  fstatat dirfd path flags =
      host_stat K Op.fstatat (expand_path h path ∷ []) (word dirfd ∷ word flags ∷ []) >>= λ st.
      if h.l2s then counted dirfd path flags (fake_ids st) else return (fake_ids st)

  -- The mask with `STATX_TYPE | STATX_SIZE` where `STATX_NLINK` is asked for.
  unfoldable pub statx_mask : ℕ → ℕ
  statx_mask mask = if has_bit mask 4 then set_bit (set_bit mask 1) 0x200 else mask

  unfoldable pub fake_statx_ids : ℕ → Statx → Statx
  fake_statx_ids mask st = record st {
    stx_uid = if has_bit mask 8 then or_real h.uid st.stx_uid else st.stx_uid;
    stx_gid = if has_bit mask 16 then or_real h.gid st.stx_gid else st.stx_gid;
  }

  -- The branch for `STATX_MNT_ID`.
  unfoldable pub hide_mount : ℕ → Statx → Statx
  hide_mount mask st =
      if has_bit mask 0x1000
      then record st { stx_mnt_id = 0; stx_mask = set_bit st.stx_mask 0x1000 }
      else st

  -- What `statx` does with the host's answer, its mask being `mask`.
  unfoldable pub finish_statx : ℕ → Text → ℕ → ℕ → Statx → M K.State Statx
  unfolding fake_statx_ids hide_mount
  finish_statx dirfd path flags mask got =
      let st = fake_statx_ids mask got in
      if h.l2s && has_bit mask 4 && has_bit flags at_symlink_nofollow && s_islnk st.stx_mode
      then (read_link_count dirfd path (expand_path h path) (none, some st) flags >>= λ bufs.
          return (hide_mount mask (elim bufs.1 [ some st' ↦ st' | none ↦ st ])))
      else return (hide_mount mask st)

  unfoldable pub statx : ℕ → Text → ℕ → ℕ → M K.State Statx
  unfolding statx_mask finish_statx
  statx dirfd path flags mask =
      call K Shape.statx (record {
        op = Op.statx;
        paths = expand_path h path ∷ [];
        args = word dirfd ∷ word flags ∷ word (statx_mask mask) ∷ [];
      })
      >>= finish_statx dirfd path flags (statx_mask mask)

  unfoldable pub xstat : ℕ → Text → M K.State Stat
  unfolding stat
  xstat ver path = stat path

  unfoldable pub fxstat : ℕ → ℕ → M K.State Stat
  unfolding fstat
  fxstat ver fd = fstat fd

  unfoldable pub lxstat : ℕ → Text → M K.State Stat
  unfolding lstat
  lxstat ver path = lstat path
