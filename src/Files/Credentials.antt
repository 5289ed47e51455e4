-- ===== src/Files/Credentials.antt =====
-- `recvmsg`, `sendmsg` and `getsockopt` of src/socket.c: the credentials that pass over a socket.
use hxroot.Sys.{
  Kernel, msgs, throw, word, return, Op, Control, host, attempt, ◌>>=◌, abort, Shape, call,
}
use hxroot.Config.{Hx}
use hxroot.Base.{
  ℕ, ◌&&◌, Option, none, some, List, [], ◌∷◌, ◌++◌, ltb, ◌==◌, if◌then◌else◌, length, take, drop,
  Text,
}
use hxroot.Sys.{M}
use hxroot.Ids.Get.{getuid, getgid}
use hxroot.Files.Stat.{encode_int}

-- `SCM_CREDENTIALS`, `SOL_SOCKET` and `SO_PEERCRED`
abbrev pub scm_credentials : ℕ
scm_credentials = 2

abbrev pub sol_socket : ℕ
sol_socket = 1

abbrev pub so_peercred : ℕ
so_peercred = 17

-- `ucred->uid = …; ucred->gid = …;` in the bytes of a `struct ucred`, which begins with the process's
-- id; `none` where they lie outside.
unfoldable pub put_ids : ℕ → ℕ → Text → Option Text
unfolding encode_int
put_ids uid gid s =
    if ltb (length s) 12
    then none
    else some (take 4 s ++ (encode_int uid ++ (encode_int gid ++ drop 12 s)))

abbrev pub or_abort : {S A : Type 0} → Option A → M S A
or_abort none = abort
or_abort (some a) = return a

module _ {S : Type 0} (uid gid : M S ℕ) where
  -- One control message, with the ids asked for. Its level is not looked at.
  unfoldable pub put_control : Control → M S Control
  unfolding put_ids
  put_control c =
      if c.cmsg_type == scm_credentials
      then (uid >>= λ u. gid >>= λ g.
          or_abort (put_ids u g c.contents) >>= λ s. return (record c { contents = s }))
      else return c

  -- The loop over the control messages.
  unfoldable pub put_credentials : List Control → M S (List Control)
  unfolding put_control
  put_credentials [] = return []
  put_credentials (c ∷ cs) = put_control c >>= λ c'. put_credentials cs >>= λ cs'. return (c' ∷ cs')

module _ (K : Kernel) (h : Hx) where
  -- `recvmsg`: the result, and the control messages as they are left.
  unfoldable pub recvmsg : ℕ → ℕ → M K.State (ℕ × List Control)
  unfolding put_credentials getuid getgid
  recvmsg sockfd flags =
      call K Shape.controls
        (record { op = Op.recvmsg; paths = []; args = word sockfd ∷ word flags ∷ [] })
      >>= λ got. put_credentials (getuid K h) (getgid K h) got.1 >>= λ cs. return (got.0, cs)

  -- `getsockopt`: the result, and the bytes of the option's value. After a failure the
  -- bytes `old` that are then in the buffer are changed too, which the result does not show.
  unfoldable pub getsockopt : ℕ → ℕ → ℕ → Text → M K.State (ℕ × Text)
  unfolding put_ids getuid getgid
  getsockopt sockfd level optname old =
      let patch = λ (s : Text) (after : Text → M K.State (ℕ × Text)).
        (if level == sol_socket && optname == so_peercred
          then (getuid K h >>= λ uid. getgid K h >>= λ gid. or_abort (put_ids uid gid s) >>= after)
          else after s) in
      attempt
        (call K Shape.named (record {
          op = Op.getsockopt;
          paths = [];
          args = word sockfd ∷ word level ∷ word optname ∷ [];
        }))
        (λ got. patch got.1 (λ s. return (got.0, s))) (λ e. patch old (λ s. throw e))

module _ (K : Kernel) where
  -- `sendmsg`, with the host's ids. The caller's messages themselves are changed.
  unfoldable pub sendmsg : ℕ → List Control → ℕ → M K.State ℕ
  unfolding put_credentials
  sendmsg sockfd cs flags =
      put_credentials (host K Op.getuid [] []) (host K Op.getgid [] []) cs >>= λ cs'.
      host K Op.sendmsg [] (word sockfd ∷ msgs cs' ∷ word flags ∷ [])
