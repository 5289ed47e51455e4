-- ===== src/Files/Socket.antt =====
-- `bind` and `connect` of src/socket.c.
use hxroot.Paths.{expanded_len, expand_path}
use hxroot.Sys.{Kernel, M, throw, word, Errno, host, Op}
use hxroot.Config.{Hx}
use hxroot.Base.{ℕ, ◌+◌, [], ◌∷◌, ltb, ◌==◌, if◌then◌else◌, length, take, Text}

-- `struct sockaddr` as the wrappers see it: a socket of the file system by the text in `sun_path`, or
-- any other address, an abstract or unnamed one included, by its pointer.
pub data Address : Type 0 where
  unix : Text → Address
  other : ℕ → Address

-- `UNIX_PATH_MAX`, the size of `sun_path`
abbrev pub unix_path_max : ℕ
unix_path_max = 108

module _ (K : Kernel) (h : Hx) where
  -- Both wrappers, which have the same text: `real` is the host's function. `SUN_LEN` is the length
  -- of the name and the two bytes before it.
  unfoldable pub with_address : Op → ℕ → Address → ℕ → M K.State ℕ
  with_address real sockfd (other addr) addrlen =
      host K real [] (word sockfd ∷ word addr ∷ word addrlen ∷ [])
  with_address real sockfd (unix path) addrlen =
      if ltb unix_path_max (expanded_len h path)
      then throw Errno.e2big
      else if expanded_len h path == 0
      then host K real (path ∷ []) (word sockfd ∷ word addrlen ∷ [])
      else (let sun_path = take unix_path_max (expand_path h path) in
          host K real (sun_path ∷ []) (word sockfd ∷ word (length sun_path + 2) ∷ []))

  unfoldable pub bind : ℕ → Address → ℕ → M K.State ℕ
  unfolding with_address
  bind sockfd addr addrlen = with_address Op.bind sockfd addr addrlen

  unfoldable pub connect : ℕ → Address → ℕ → M K.State ℕ
  unfolding with_address
  connect sockfd addr addrlen = with_address Op.connect sockfd addr addrlen
