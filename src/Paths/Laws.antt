-- ===== src/Paths/Laws.antt =====
-- What the path translation of src/util.c promises.
use hxroot.Sys.{host}
use hxroot.Base.{
  ℕ, zero, suc, ◌+◌, ◌<◌, ◌≡◌, refl, ◌∙◌, ap, ◌↔◌, true, false, none, List, [], ◌∷◌, ◌++◌, Text,
  length, drop, length-append, drop-append, starts_with, starts_with-append, starts_with→eq, All,
  Bool-cases, Option-cases, inl, inr, arith, ◌⊎◌, ◌≢◌, ◌||◌, ◌==◌,
}
use hxroot.Config.{Hx}
use hxroot.Paths.{
  char_at, root_text, or_slash, bind_matches, excluded, should_expand, expanded_len, expand_path,
  unexpand_path,
}

-- A text that ends here, or goes on with a new path component.
pub data AtBoundary : Text → Type 0 where
  at_end : AtBoundary []
  at_slash : {s : Text} → AtBoundary (b'/' ∷ s)

-- `path` is the directory or file `b`, or lies under it.
pub record Under (b path : Text) : Type 0 where
  pub rest : Text
  pub splits : path ≡ b ++ rest
  pub boundary : AtBoundary rest

-- No byte of a C string is null.
abbrev pub NoNull : Text → Type 0
NoNull = All (λ c. 0 < c)

AtBoundary-of_char :
    (s : Text) → NoNull s → (char_at s 0 == b'/' || char_at s 0 == 0) ≡ true → AtBoundary s
AtBoundary-of_char [] nz h = at_end
AtBoundary-of_char (c ∷ s) (p, _) h = let e : c ≡ b'/' = ground arith in rw e at_slash

pub char_at-append : (b r : Text) → char_at (b ++ r) (length b) ≡ char_at r 0
char_at-append [] r = refl
char_at-append (c ∷ b) r = char_at-append b r

pub drop-NoNull : (n : ℕ) (s : Text) → NoNull s → NoNull (drop n s)
drop-NoNull zero s h = h
drop-NoNull (suc n) [] h = h
drop-NoNull (suc n) (c ∷ s) (_, h) = drop-NoNull n s h

bind_matches-Under : (path b : Text) → NoNull path → bind_matches path b ≡ true → Under b path
unfolding bind_matches
bind_matches-Under path b nz h =
    let pre : starts_with path b ≡ true = ground arith in
    let at : char_at path (length b) ≡ char_at (drop (length b) path) 0 =
      ap (λ (p : Text). char_at p (length b)) (starts_with→eq path b pre)
      ∙ char_at-append b (drop (length b) path) in
    record {
      rest = drop (length b) path;
      splits = starts_with→eq path b pre;
      boundary =
          AtBoundary-of_char (drop (length b) path) (drop-NoNull (length b) path nz)
            (rw (← at) (ground arith));
    }

boundary-char : (r : Text) → AtBoundary r → (char_at r 0 == b'/' || char_at r 0 == 0) ≡ true
boundary-char [] k = refl
boundary-char (c ∷ r) at_slash = refl

bind_matches-append : (b r : Text) → AtBoundary r → bind_matches (b ++ r) b ≡ true
unfolding bind_matches
bind_matches-append b r k =
    ground (arith, starts_with-append b r, char_at-append b r, boundary-char r k, length-append b r)

Under-bind_matches : (path b : Text) → Under b path → bind_matches path b ≡ true
Under-bind_matches path b u = rw u.splits (bind_matches-append b u.rest u.boundary)

-- The loop over the binds.
excluded-outside :
    (path : Text) (bs : List Text) → excluded path bs ≡ false → All (λ b. ¬ (Under b path)) bs
unfolding excluded
excluded-outside path [] h = tt
excluded-outside path (b ∷ bs) h = elim (Bool-cases (bind_matches path b)) [
  | inl hit ↦ cc (rw hit at h)
  | inr miss ↦ ((λ u. cc (Under-bind_matches path b u)), excluded-outside path bs (ground arith))
]

outside-excluded :
    (path : Text) (bs : List Text)
    → NoNull path
    → All (λ b. ¬ (Under b path)) bs
    → excluded path bs ≡ false
unfolding excluded
outside-excluded path [] nz h = refl
outside-excluded path (b ∷ bs) nz (out, h) = elim (Bool-cases (bind_matches path b)) [
  | inl hit ↦ absurd (out (bind_matches-Under path b nz hit))
  | inr miss ↦ rw miss (outside-excluded path bs nz h)
]

-- What `HxShouldExpand` decides: there is a root, the path is absolute, and no bind covers it.
pub record IsExpandable (h : Hx) (path : Text) : Type 0 where
  pub rooted : h.root ≢ none
  pub from_root : char_at path 0 ≡ b'/'
  pub outside : All (λ b. ¬ (Under b path)) h.binds

-- Of paths without null bytes, `HxShouldExpand` answers true exactly for one that is absolute, in a process that has a root,
-- and that is neither one of the binds nor below one by whole path components.
pub should_expand_iff :
    (h : Hx) (path : Text) → NoNull path → (should_expand h path ≡ true) ↔ IsExpandable h path
unfolding should_expand
should_expand_iff h path nz = (
  λ e. record {
    rooted = ground arith;
    from_root = ground arith;
    outside = excluded-outside path h.binds (ground arith);
  },
  λ x. ground (arith, outside-excluded path h.binds nz x.outside),
)

-- The buffer that `HxL` sizes is the one that `HxExpandPath` fills: with a rewrite to make it has
-- room for exactly the new path and its null byte, and without one no byte is reserved and the path
-- stays as it is.
pub expanded_len-expand_path :
    (h : Hx) (path : Text)
    → ((should_expand h path ≡ true) × (length (expand_path h path) + 1 ≡ expanded_len h path))
      ⊎ ((should_expand h path ≡ false) × (expand_path h path ≡ path) × (expanded_len h path ≡ 0))
unfolding expanded_len expand_path
expanded_len-expand_path h path = elim (Bool-cases (should_expand h path)) [
  | inl hit ↦ inl (hit, rw hit (omega (arith, length-append (root_text h.root) path)))
  | inr miss ↦ inr (miss, rw miss refl, rw miss refl)
]

absolute_nonempty : (h : Hx) (path : Text) → should_expand h path ≡ true → or_slash path ≡ path
unfolding should_expand
absolute_nonempty h [] e = ground arith
absolute_nonempty h (c ∷ path) e = refl

pub unexpand_path-append :
    (h : Hx) (path : Text) → unexpand_path h (root_text h.root ++ path) ≡ or_slash path
unfolding unexpand_path
unexpand_path-append h path =
    rw (starts_with-append (root_text h.root) path, drop-append (root_text h.root) path)

-- Taking the root off again gives the path that was rewritten, for every path that is rewritten.
pub unexpand_path-expand_path :
    (h : Hx) (path : Text)
    → should_expand h path ≡ true
    → unexpand_path h (expand_path h path) ≡ path
unfolding expand_path
unexpand_path-expand_path h path e = rw e (unexpand_path-append h path ∙ absolute_nonempty h path e)

or_slash-char : (r : Text) → AtBoundary r → char_at (or_slash r) 0 ≡ b'/'
or_slash-char [] k = refl
or_slash-char (c ∷ r) at_slash = refl

expand_or_slash :
    (h : Hx) (r : Text)
    → h.root ≢ none
    → AtBoundary r
    → excluded (or_slash r) h.binds ≡ false
    → expand_path h (or_slash r) ≡ root_text h.root ++ or_slash r
unfolding expand_path should_expand
expand_or_slash h r rooted k e = ground (arith, or_slash-char r k)

-- If no bind covers the path that the guest sees of a host path under the root, by whole components,
-- then that path is absolute and is rewritten to the host path, with a `/` behind it if the host path
-- is the root itself.
pub expand_path-unexpand_path :
    (h : Hx) (host : Text)
    → h.root ≢ none
    → (u : Under (root_text h.root) host) → excluded (unexpand_path h host) h.binds ≡ false
    → (char_at (unexpand_path h host) 0 ≡ b'/')
      × (expand_path h (unexpand_path h host) ≡ root_text h.root ++ or_slash u.rest)
expand_path-unexpand_path h host rooted u e =
    let seen : unexpand_path h host ≡ or_slash u.rest =
      ap (unexpand_path h) u.splits ∙ unexpand_path-append h u.rest in
    (
      rw seen (or_slash-char u.rest u.boundary),
      rw seen (expand_or_slash h u.rest rooted u.boundary (rw seen at e)),
    )

-- Where a path that a wrapper hands to the host may lie: under the root, or where the guest's own
-- path may stay, which is relative, or covered by a bind, or anywhere if there is no root.
pub data IsConfined (h : Hx) (path : Text) : Type 0 where
  under_root : (guest : Text) → path ≡ root_text h.root ++ guest → IsConfined h path
  relative : char_at path 0 ≢ b'/' → IsConfined h path
  bound : excluded path h.binds ≡ true → IsConfined h path
  unrooted : h.root ≡ none → IsConfined h path

kept-IsConfined : (h : Hx) (path : Text) → should_expand h path ≡ false → IsConfined h path
unfolding should_expand
kept-IsConfined h path e = elim (Option-cases h.root) [
  | inl e' ↦ unrooted e'
  | inr (r, e') ↦ elim (Bool-cases (char_at path 0 == b'/')) [
    | inl at ↦ bound (ground arith)
    | inr away ↦ relative (ground arith)
  ]
]

pub expand_path-IsConfined : (h : Hx) (path : Text) → IsConfined h (expand_path h path)
unfolding expand_path
expand_path-IsConfined h path = elim (Bool-cases (should_expand h path)) [
  | inl hit ↦ under_root path (rw hit)
  | inr miss ↦ rw miss (kept-IsConfined h path miss)
]

pub expand_path-none : (h : Hx) (path : Text) → h.root ≡ none → expand_path h path ≡ path
unfolding expand_path should_expand
expand_path-none h path e = ground arith

-- `HxUnexpandPath` compares bytes and not components: a host path beside the root, whose first
-- component merely begins like it, is cut too, and the guest sees a relative path.
pub unexpand_path_beside :
    (h : Hx) (c : ℕ) (s : Text)
    → c ≢ b'/'
    → (unexpand_path h (root_text h.root ++ (c ∷ s)) ≡ c ∷ s)
      × (char_at (unexpand_path h (root_text h.root ++ (c ∷ s))) 0 ≢ b'/')
unexpand_path_beside h c s ne = rw (unexpand_path-append h (c ∷ s)) (refl, ne)
