-- ===== src/Files/SocketLaws.antt =====
-- What the wrappers of src/socket.c promise about the name of a socket.
use hxroot.Paths.Laws.{expanded_len-expand_path}
use hxroot.Files.Socket.{unix, unix_path_max, bind}
use hxroot.Paths.{should_expand, expanded_len, expand_path}
use hxroot.Sys.{Op, Kernel, fail, host, word, Errno}
use hxroot.Config.{Hx}
use hxroot.Base.{
  ℕ, ◌+◌, ◌≤◌, ◌<◌, ◌≡◌, refl, ◌⊎◌, inl, inr, true, false, [], ◌∷◌, arith, ltb, Bool-cases, length,
  take_of_le, Text, ◌==◌, ltb→lt,
}

ltb_not : (a b : ℕ) → ltb a b ≡ false → b ≤ a
ltb_not a b e = ground arith

positive : (a b : ℕ) → a + 1 ≡ b → (b == 0) ≡ false
positive a b e = ground arith

module _ (K : Kernel) (h : Hx) where
  -- The name of a socket is handed to the host whole or not at all: a name of the guest that is
  -- rewritten reaches it rewritten, and not cut, if it fits into 107 bytes, and is refused with
  -- `E2BIG` before any call of the host otherwise. A name that is not rewritten is handed on as it
  -- came.
  pub bind_lem :
      (sockfd addrlen : ℕ) (path : Text) (s : K.State)
      → ((should_expand h path ≡ true)
          × (length (expand_path h path) < unix_path_max)
          × (bind K h sockfd (unix path) addrlen s
              ≡ host K Op.bind
                  (expand_path h path ∷ [])
                  (word sockfd ∷ word (length (expand_path h path) + 2) ∷ [])
                  s))
        ⊎ ((should_expand h path ≡ true)
            × (unix_path_max ≤ length (expand_path h path))
            × (bind K h sockfd (unix path) addrlen s ≡ (fail Errno.e2big, s)))
        ⊎ ((should_expand h path ≡ false)
            × (bind K h sockfd (unix path) addrlen s
                ≡ host K Op.bind (path ∷ []) (word sockfd ∷ word addrlen ∷ []) s))
  unfolding bind
  bind_lem sockfd addrlen path s = elim (expanded_len-expand_path h path) [
    | inl (e, n) ↦ elim (Bool-cases (ltb unix_path_max (expanded_len h path))) [
      | inl over ↦ inr (inl (e, omega (arith, n, ltb→lt _ _ over), rw over refl))
      | inr fits ↦
          let room : length (expand_path h path) < unix_path_max =
            omega (arith, n, ltb_not _ _ fits) in
          let some_bytes : (expanded_len h path == 0) ≡ false = positive _ _ n in
          let whole = take_of_le unix_path_max (expand_path h path) (omega arith) in
          inl (e, room, rw (fits, some_bytes, whole) refl)
    ]
    | inr (e, p, z) ↦ inr (inr (e, rw z refl))
  ]
