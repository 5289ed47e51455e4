-- ===== src/Wrap/Laws.antt =====
-- What all the wrappers that only rewrite paths have in common.
use hxroot.Base.{◌≡◌, refl, ◌∙◌, none, List, [], ◌∷◌, map, Text}
use hxroot.Config.{Hx}
use hxroot.Paths.{expand_path}
use hxroot.Paths.Laws.{expand_path-none}
use hxroot.Sys.{Call, Shape, Kernel, call}
use hxroot.Wrap.Request.{Request, encode}
use hxroot.Wrap.Dispatch.{dispatch}

-- The call with every path rewritten.
unfoldable pub rewritten : Hx → Call → Call
rewritten h c = record c { paths = map (expand_path h) c.paths }

module _ (K : Kernel) (h : Hx) where
  -- Each wrapper makes one call of the host, of the function of its own name, with every path
  -- argument rewritten and every other argument as it came, and returns what the host returns.
  pub dispatch-encode :
      (r : Request) (s : K.State)
      → dispatch K h r s ≡ call K Shape.number (rewritten h (encode r)) s
  unfolding dispatch encode rewritten
  dispatch-encode (Request.mkdir path mode) s = refl
  dispatch-encode _ s = refl

map-expand_path-none : (h : Hx) → h.root ≡ none → (ps : List Text) → map (expand_path h) ps ≡ ps
map-expand_path-none h e [] = refl
map-expand_path-none h e (p ∷ ps) = rw (expand_path-none h p e, map-expand_path-none h e ps)

-- Without a root every wrapper is the host's function.
pub dispatch_unrooted :
    (K : Kernel) (h : Hx) (r : Request) (s : K.State)
    → h.root ≡ none
    → dispatch K h r s ≡ call K Shape.number (encode r) s
unfolding rewritten
dispatch_unrooted K h r s e =
    dispatch-encode K h r s ∙ rw (map-expand_path-none h e (encode r).paths)
