-- ===== src/Links/Refusals.antt =====
-- What `link` of src/link.c refuses.
use hxroot.Wrap.Meta.{access}
use hxroot.Links.Unlink.{f_ok}
use hxroot.Links.Link.{link}
use hxroot.Paths.{expand_path}
use hxroot.Sys.{word, fail, Call, Errno, Op, Shape, Kernel, gives, call}
use hxroot.Config.{Hx}
use hxroot.Base.{ℕ, ◌≡◌, true, [], ◌∷◌, Text}

abbrev pub access_call : Hx → Text → Call
access_call h path = record {
  op = Op.access;
  paths = expand_path h path ∷ [];
  args = word f_ok ∷ [];
}

module _ (K : Kernel) (h : Hx) (n : ℕ) (oldpath newpath : Text) (s s1 : K.State) where
  -- A link is not made over an existing name: the answer is `EEXIST`, and the test for the name is
  -- the only host call.
  pub link_exists :
      {x : ℕ}
      → h.l2s ≡ true
      → K.real Shape.number (access_call h newpath) s ≡ (gives x, s1)
      → link K h n oldpath newpath s ≡ (fail Errno.eexist, s1)
  unfolding link access call
  link_exists on e = simp (on, e)
