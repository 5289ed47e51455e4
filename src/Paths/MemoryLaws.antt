-- ===== src/Paths/MemoryLaws.antt =====
-- `HxUnexpandPath` of src/util.c changes its buffer as `unexpand_path` says, and nothing around it.
use hxroot.Config.{Hx}
use hxroot.Paths.{or_slash, char_at, unexpand_path, root_text}
use mathlib.Core.Path.{ap₂}
use hxroot.Paths.Memory.{strmove, slash_if_empty, unexpand_at}
use hxroot.Paths.Laws.{NoNull, char_at-append, unexpand_path-append, drop-NoNull}
use hxroot.Exec.Fixup.{string_in, move_bytes, put_string}
use hxroot.Files.Stat.{c_string}
use hxroot.Base.{
  ℕ, zero, suc, ◌+◌, ◌≤◌, ◌≡◌, refl, ap, [], ◌∷◌, ◌++◌, arith, ◌==◌, length, take, drop,
  drop-append, take-append, Text, sym, ◌∙◌, false, append_assoc, length-append, length-drop, bytes,
  inl, inr, Bool-cases, starts_with, starts_with-append, starts_with→eq,
}

pub drop_behind : (pre x : Text) (k : ℕ) → drop (length pre + k) (pre ++ x) ≡ drop k x
drop_behind [] x k = ap (λ i. drop i x) (omega arith)
drop_behind (c ∷ pre) x k =
    let e : length (c ∷ pre) + k ≡ suc (length pre + k) = omega arith in rw e (drop_behind pre x k)

drop_within : (n : ℕ) (xs ys : Text) → n ≤ length xs → drop n (xs ++ ys) ≡ drop n xs ++ ys
drop_within zero xs ys l = refl
drop_within (suc n) [] ys l = absurd (omega arith)
drop_within (suc n) (x ∷ xs) ys l = drop_within n xs ys (omega arith)

c_string-NoNull : (s t : Text) → NoNull s → c_string (s ++ (0 ∷ t)) ≡ s
unfolding c_string
c_string-NoNull [] t a = refl
c_string-NoNull (c ∷ s) t (p, a) =
    let e : (c == 0) ≡ false = ground arith in rw e (ap (◌∷◌ c) (c_string-NoNull s t a))

take_string : (q t : Text) → take (length q + 1) (q ++ (0 ∷ t)) ≡ q ++ (0 ∷ [])
take_string [] t = refl
take_string (c ∷ q) t =
    let e : length (c ∷ q) + 1 ≡ suc (length q + 1) = omega arith in
    rw e (ap (◌∷◌ c) (take_string q t))

-- At a place with `x` behind it.
module _ (pre x : Text) where
  string_in_behind : (k : ℕ) → string_in (pre ++ x) (length pre + k) ≡ c_string (drop k x)
  string_in_behind k = ap c_string (drop_behind pre x k)

  string_in_here : string_in (pre ++ x) (length pre) ≡ c_string x
  string_in_here = ap c_string (drop-append pre x)

  move_bytes_behind :
      (k n : ℕ)
      → move_bytes (length pre) (length pre + k) n (pre ++ x)
        ≡ pre ++ (take n (drop k x) ++ drop n x)
  unfolding move_bytes
  move_bytes_behind k n = rw (take-append pre x, drop_behind pre x k, drop_behind pre x n)

  put_string_behind :
      (s : Text) → put_string (length pre) s (pre ++ x) ≡ pre ++ (s ++ (0 ∷ drop (length s + 1) x))
  unfolding put_string
  put_string_behind s =
      let e : length pre + length s + 1 ≡ length pre + (length s + 1) = omega arith in
      rw (e, take-append pre x, drop_behind pre x (length s + 1))

-- The path has the root in front of `q`, and `post` behind it in memory.
module _ (pre q post root : Text) where
  -- What is left of the buffer behind the string that was moved.
  abbrev left : Text
  left = drop (length q + 1) ((root ++ q) ++ (0 ∷ []))

  buffer_eq : (root ++ q) ++ (0 ∷ post) ≡ ((root ++ q) ++ (0 ∷ [])) ++ post
  buffer_eq = sym (append_assoc (root ++ q) (0 ∷ []) post)

  length-left : length left ≡ length root
  length-left = omega (
    arith,
    length-drop (length q + 1) ((root ++ q) ++ (0 ∷ [])),
    length-append (root ++ q) (0 ∷ []),
    length-append root q,
  )

  drop-left : drop (length q + 1) ((root ++ q) ++ (0 ∷ post)) ≡ left ++ post
  drop-left = rw buffer_eq (
      drop_within (length q + 1) ((root ++ q) ++ (0 ∷ [])) post
        (omega (arith, length-append (root ++ q) (0 ∷ []), length-append root q)))

  behind_root : drop (length root) ((root ++ q) ++ (0 ∷ post)) ≡ q ++ (0 ∷ post)
  behind_root = rw (append_assoc root q (0 ∷ post)) (drop-append root (q ++ (0 ∷ post)))

  strmove_root :
      NoNull q
      → strmove (length pre) (length pre + length root) (pre ++ ((root ++ q) ++ (0 ∷ post)))
        ≡ pre ++ ((q ++ (0 ∷ [])) ++ (left ++ post))
  unfolding strmove
  strmove_root q_ok =
      let x = (root ++ q) ++ (0 ∷ post) in
      let e : string_in (pre ++ x) (length pre + length root) ≡ q =
        string_in_behind pre x (length root)
        ∙ ap c_string behind_root
        ∙ c_string-NoNull q post q_ok in
      rw e (
        move_bytes_behind pre x (length root) (length q + 1)
        ∙ ap (λ t. pre ++ t)
            (ap₂ ◌++◌ (ap (take (length q + 1)) behind_root ∙ take_string q post) drop-left))

-- What becomes of the buffer: a string, and as many bytes behind it as there were.
record InPlace (pre path post s after : Text) : Type 0 where
  pub fill : Text
  pub kept : after ≡ pre ++ ((s ++ (0 ∷ fill)) ++ post)
  pub same_length : length s + length fill ≡ length path

module _ (pre post root : Text) (l : 1 ≤ length root) where
  moved :
      (q : Text)
      → NoNull q
      → InPlace pre
          (root ++ q)
          post
          (or_slash q)
          (slash_if_empty (length pre) (pre ++ ((q ++ (0 ∷ [])) ++ (left pre q post root ++ post))))
  moved [] a =
      let w = left pre [] post root in
      let n : length w ≡ length root = length-left pre [] post root in
      let c : char_at (pre ++ (0 ∷ (w ++ post))) (length pre) ≡ 0 =
        char_at-append pre (0 ∷ (w ++ post)) in
      record {
        fill = drop 1 w;
        kept =
            rw
              (
                c,
                put_string_behind pre (0 ∷ (w ++ post)) (bytes "/"),
                drop_within 1 w post (omega (arith, n)),
              )
              refl;
        same_length = omega (arith, n, length-drop 1 w, length-append root []);
      }
  moved (c ∷ q) (p, a) =
      let w = left pre (c ∷ q) post root in
      let n : length w ≡ length root = length-left pre (c ∷ q) post root in
      let d : char_at (pre ++ (((c ∷ q) ++ (0 ∷ [])) ++ (w ++ post))) (length pre) ≡ c =
        char_at-append pre (((c ∷ q) ++ (0 ∷ [])) ++ (w ++ post)) in
      let e : (c == 0) ≡ false = ground arith in
      record {
        fill = w;
        kept = rw (d, e, append_assoc q (0 ∷ []) (w ++ post), append_assoc q (0 ∷ w) post) refl;
        same_length = omega (arith, n, length-append root (c ∷ q));
      }

module _ (h : Hx) (pre post : Text) (l : 1 ≤ length (root_text h.root)) where
  under_root :
      (q : Text)
      → NoNull q
      → string_in (pre ++ ((root_text h.root ++ q) ++ (0 ∷ post))) (length pre)
        ≡ root_text h.root ++ q
      → InPlace pre
          (root_text h.root ++ q)
          post
          (unexpand_path h (root_text h.root ++ q))
          (unexpand_at h (length pre) (pre ++ ((root_text h.root ++ q) ++ (0 ∷ post))))
  unfolding unexpand_at
  under_root q a e =
      rw
        (
          e,
          starts_with-append (root_text h.root) q,
          unexpand_path-append h q,
          strmove_root pre q post (root_text h.root) a,
        )
        (moved pre post (root_text h.root) l q a)

  under_root_path :
      (path q : Text)
      → path ≡ root_text h.root ++ q
      → NoNull q
      → string_in (pre ++ (path ++ (0 ∷ post))) (length pre) ≡ path
      → InPlace pre path post
          (unexpand_path h path)
          (unexpand_at h (length pre) (pre ++ (path ++ (0 ∷ post))))
  under_root_path path q e a t = rw e (under_root q a (rw e at t))

  -- `HxUnexpandPath` on a buffer that holds a C string leaves the text of `unexpand_path` in it, with
  -- a null byte behind, and neither moves nor changes a byte before or behind the buffer, if the root
  -- has at least one byte.
  pub unexpand_at-unexpand_path :
      (path : Text)
      → NoNull path
      → (fill : Text) × (unexpand_at h (length pre) (pre ++ (path ++ (0 ∷ post)))
          ≡ pre ++ ((unexpand_path h path ++ (0 ∷ fill)) ++ post))
        × (length (unexpand_path h path) + length fill ≡ length path)
  unfolding unexpand_at unexpand_path
  unexpand_at-unexpand_path path a =
      let e : string_in (pre ++ (path ++ (0 ∷ post))) (length pre) ≡ path =
        string_in_here pre (path ++ (0 ∷ post)) ∙ c_string-NoNull path post a in
      elim (Bool-cases (starts_with path (root_text h.root))) [
        | inl y ↦
            let r =
              under_root_path path (drop (length (root_text h.root)) path) (starts_with→eq path _ y)
                (drop-NoNull (length (root_text h.root)) path a) e in
            (r.fill, r.kept, r.same_length)
        | inr n ↦ rw (e, n) ([], rw (append_assoc path (0 ∷ []) post) refl, omega arith)
      ]
