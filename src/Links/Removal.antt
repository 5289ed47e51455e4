-- ===== src/Links/Removal.antt =====
-- The count file as a counter down to its end: what `HxL2sUnlink` of src/unlink.c makes of it, and of
-- the linked file, on a host that keeps both.
use hxroot.Sys.Discipline.{close_call, flock_call}
use hxroot.Links.Counter.{CountHost, Steps}
use hxroot.Links.Release.{unlink_call, unlinkat_call}
use hxroot.Links.Unlink.{l2s_unlink}
use hxroot.Sys.{Kernel, Shape, ◌>>=◌, M, return}
use hxroot.Config.{Hx}
use hxroot.Base.{ℕ, suc, Option, List, [], ◌∷◌, Text, zero}

-- A host that keeps a linked file under `link` and its count file under `path`. While the count file
-- is open, both have their names; or the linked file is removed; or both are. When the count file
-- is closed after that, nothing is left. A name in a directory is removed by itself.
pub record LinkHost (K : Kernel) (h : Hx) (link path : Text) (fd : ℕ) : Type 1 where
  pub counts : CountHost K h path fd
  pub Fileless : K.State → Type 0
  pub Nameless : K.State → Type 0
  pub Gone : K.State → Type 0
  pub drops_name :
      (realfd pos : ℕ) (realfile : Text) (c : Option ℕ) (s : K.State)
      → counts.Opened pos c s
      → Steps K Shape.number (unlinkat_call h realfd realfile) 0 s (counts.Opened pos c)
  pub drops_file :
      (pos : ℕ) (c : Option ℕ) (s : K.State)
      → counts.Opened pos c s
      → Steps K Shape.number (unlink_call h link) 0 s Fileless
  pub drops_count :
      (s : K.State) → Fileless s → Steps K Shape.number (unlink_call h path) 0 s Nameless
  pub drops_last :
      (realfd : ℕ) (realfile : Text) (s : K.State)
      → Nameless s
      → Steps K Shape.number (unlinkat_call h realfd realfile) 0 s Nameless
  pub locks_nameless :
      (how : ℕ) (s : K.State) → Nameless s → Steps K Shape.number (flock_call fd how) 0 s Nameless
  pub closes_nameless : (s : K.State) → Nameless s → Steps K Shape.number (close_call fd) 0 s Gone

module _ (K : Kernel) (h : Hx) (link path : Text) (fd n : ℕ)
    (host : LinkHost K h link path fd) where
  -- What is left with `m` links.
  abbrev pub Left : ℕ → K.State → Type 0
  Left zero s = host.Gone s
  Left (suc m) s = host.counts.Stored (suc m) s

  abbrev remove_one : ℕ × Text → M K.State ℕ
  remove_one r = l2s_unlink K h (suc n) link path r.0 r.1

  -- One removal after the other, each of a name in a directory.
  unfoldable pub removals : List (ℕ × Text) → M K.State ℕ
  removals [] = return 0
  removals (r ∷ rs) = l2s_unlink K h (suc n) link path r.0 r.1 >>= λ _. removals rs
