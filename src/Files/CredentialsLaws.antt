-- ===== src/Files/CredentialsLaws.antt =====
-- The credentials that a guest receives over a socket, by `recvmsg` of src/socket.c.
use hxroot.Ids.Get.{getgid, getuid}
use hxroot.Paths.MemoryLaws.{drop_behind}
use hxroot.Files.Credentials.{scm_credentials, put_ids, put_control, recvmsg, put_credentials}
use hxroot.Files.Stat.{encode_int, decode_int}
use hxroot.Links.Laws.{decode_int-encode_int}
use hxroot.Sys.{Control, ok, Kernel, call, Op, word, Shape, gives}
use hxroot.Config.{Hx, unset}
use hxroot.Base.{
  ℕ, ◌^◌, ◌≤◌, ◌<◌, ◌≡◌, refl, sym, ◌≢◌, ◌⊎◌, Option, some, List, [], ◌∷◌, ◌++◌, length, take, drop,
  take-append, Text, ◌+◌, ap, ◌∙◌, inl, inr, arith, ◌==◌, if◌then◌else◌, Bool-cases, map,
  length-take, All,
}

-- The parts of a `struct ucred`, and what is behind it.
abbrev pub pid_bytes : Text → Text
pid_bytes s = take 4 s

abbrev pub uid_of : Text → Option ℕ
uid_of s = decode_int (take 4 (drop 4 s))

abbrev pub gid_of : Text → Option ℕ
gid_of s = decode_int (take 4 (drop 8 s))

-- A control message as it came, and as it is seen.
pub data Seen (h : Hx) (c c' : Control) : Type 0 where
  kept : c.cmsg_type ≢ scm_credentials → c' ≡ c → Seen h c c'
  with_ids :
      c.cmsg_type ≡ scm_credentials
      → (c'.level ≡ c.level) × (c'.cmsg_type ≡ c.cmsg_type)
      → pid_bytes c'.contents ≡ pid_bytes c.contents
      → uid_of c'.contents ≡ some h.uid
      → gid_of c'.contents ≡ some h.gid
      → drop 12 c'.contents ≡ drop 12 c.contents
      → Seen h c c'

abbrev pub AllSeen : Hx → List Control → List Control → Type 0
AllSeen h [] [] = Unit
AllSeen h [] (d ∷ ds) = ⊥
AllSeen h (c ∷ cs) [] = ⊥
AllSeen h (c ∷ cs) (d ∷ ds) = Seen h c d × AllSeen h cs ds

-- A message of credentials has room for them.
abbrev pub Fits : Control → Type 0
Fits c = (c.cmsg_type ≢ scm_credentials) ⊎ (12 ≤ length c.contents)

take_4 : (p s : Text) → length p ≡ 4 → take 4 (p ++ s) ≡ p
take_4 p s e = rw (sym e) (take-append p s)

-- The bytes that `put_ids` makes.
module _ (p : Text) (u g : ℕ) (rest : Text) (e : length p ≡ 4) where
  abbrev ucred : Text
  ucred = p ++ (encode_int u ++ (encode_int g ++ rest))

  drop-ucred :
      (k n : ℕ) → n ≡ 4 + k → drop n ucred ≡ drop k (encode_int u ++ (encode_int g ++ rest))
  drop-ucred k n q = let m : n ≡ length p + k = omega (arith, e, q) in rw m (drop_behind p _ k)

  uid_of-ucred : u < 2 ^ 32 → uid_of ucred ≡ some u
  unfolding encode_int
  uid_of-ucred b = ap (λ t. decode_int (take 4 t)) (drop-ucred 0 4 refl) ∙ decode_int-encode_int u b

  gid_of-ucred : g < 2 ^ 32 → gid_of ucred ≡ some g
  unfolding encode_int
  gid_of-ucred b = ap (λ t. decode_int (take 4 t)) (drop-ucred 4 8 refl) ∙ decode_int-encode_int g b

  behind-ucred : drop 12 ucred ≡ rest
  unfolding encode_int
  behind-ucred = drop-ucred 8 12 refl

-- What `put_control` makes of a message.
abbrev seen : Hx → Control → Control
seen h c =
    if c.cmsg_type == scm_credentials
    then record c {
      contents =
          take 4 c.contents ++ (encode_int h.uid ++ (encode_int h.gid ++ drop 12 c.contents));
    }
    else c

seen-Seen : (h : Hx) (c : Control) → h.uid < 2 ^ 32 → h.gid < 2 ^ 32 → Fits c → Seen h c (seen h c)
seen-Seen h c bu bg f = elim (Bool-cases (c.cmsg_type == scm_credentials)) [
  | inr e ↦ rw e (kept (ground arith) refl)
  | inl e ↦
      let l : length (take 4 c.contents) ≡ 4 = ground (arith, length-take 4 c.contents, f) in
      rw e (
        with_ids (ground arith) (refl, refl) (take_4 (take 4 c.contents) _ l)
          (uid_of-ucred _ h.uid h.gid _ l bu) (gid_of-ucred _ h.uid h.gid _ l bg)
          (behind-ucred _ h.uid h.gid _ l))
]

module _ (K : Kernel) (h : Hx) (faked_uid : h.uid ≢ unset) (faked_gid : h.gid ≢ unset) where
  put_control-seen :
      (c : Control) (s : K.State)
      → Fits c
      → put_control (getuid K h) (getgid K h) c s ≡ (ok (seen h c), s)
  unfolding put_control put_ids getuid getgid
  put_control-seen c s f = ground arith

  put_credentials-seen :
      (cs : List Control) (s : K.State)
      → All Fits cs
      → put_credentials (getuid K h) (getgid K h) cs s ≡ (ok (map (seen h) cs), s)
  unfolding put_credentials
  put_credentials-seen [] s f = refl
  put_credentials-seen (c ∷ cs) s (f, fs) =
      rw (put_control-seen c s f, put_credentials-seen cs s fs) refl

  map-AllSeen :
      (cs : List Control)
      → h.uid < 2 ^ 32
      → h.gid < 2 ^ 32
      → All Fits cs
      → AllSeen h cs (map (seen h) cs)
  map-AllSeen [] bu bg f = tt
  map-AllSeen (c ∷ cs) bu bg (f, fs) = (seen-Seen h c bu bg f, map-AllSeen cs bu bg fs)

  -- In a process that fakes both ids, whatever control messages the host receives: if each message
  -- whose type is 2, of whatever level, has room for credentials, `recvmsg` gives all messages in
  -- their order, those of type 2 with their first four bytes (the process id of a sender), the faked
  -- ids and the bytes behind, and those of every other type as they came. A message of another level
  -- with the type 2 is so overwritten, although it holds no credentials.
  pub recvmsg-AllSeen :
      (sockfd flags r : ℕ) (cs : List Control) (s t : K.State)
      → h.uid < 2 ^ 32
      → h.gid < 2 ^ 32
      → K.real Shape.controls
          (record { op = Op.recvmsg; paths = []; args = word sockfd ∷ word flags ∷ [] })
          s
        ≡ (gives (r, cs), t)
      → All Fits cs
      → (cs' : List Control) × (recvmsg K h sockfd flags s ≡ (ok (r, cs'), t)) × AllSeen h cs cs'
  unfolding recvmsg call
  recvmsg-AllSeen sockfd flags r cs s t bu bg e f =
      (map (seen h) cs, rw (e, put_credentials-seen cs t f) refl, map-AllSeen cs bu bg f)
