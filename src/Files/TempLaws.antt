-- ===== src/Files/TempLaws.antt =====
-- What the wrappers of src/mktemp.c promise about the name that the guest gets.
use hxroot.Files.Temp.{copy_six, filled_template, mkstemps}
use hxroot.Links.Names.{template_tail}
use hxroot.Paths.{root_text, should_expand, expanded_len, expand_path}
use hxroot.Sys.{ok, gives, call, Shape, word, Kernel, Op}
use hxroot.Config.{Hx}
use hxroot.Base.{
  ℕ, ◌+◌, ◌-◌, ◌≡◌, refl, true, [], ◌∷◌, ◌++◌, append_assoc, arith, length, take, drop,
  length-append, drop-append, take-append, Text,
}

drop_middle : (a b c : Text) {n : ℕ} → n ≡ length a + length b → drop n (a ++ (b ++ c)) ≡ c
drop_middle a b c {n} e =
    let k : n ≡ length (a ++ b) = omega (arith, length-append a b) in
    rw (k, ← append_assoc a b c) (drop-append (a ++ b) c)

take_start : (a b : Text) {n : ℕ} → n ≡ length a → take n (a ++ b) ≡ a
take_start a b e = rw e (take-append a b)

module _ (pre stem x suffix r : Text) (six_x : length x ≡ 6) (six_r : length r ≡ 6) where
  length_template : length (stem ++ (x ++ suffix)) ≡ length stem + 6 + length suffix
  length_template = omega (arith, length-append stem (x ++ suffix), length-append x suffix)

  length_new :
      length (pre ++ (stem ++ (r ++ suffix))) ≡ length pre + length stem + 6 + length suffix
  length_new = omega (
    arith,
    length-append pre (stem ++ (r ++ suffix)),
    length-append stem (r ++ suffix),
    length-append r suffix,
  )

  copy_six-append :
      copy_six (length suffix) (stem ++ (x ++ suffix)) (pre ++ (stem ++ (r ++ suffix)))
      ≡ stem ++ (r ++ suffix)
  unfolding copy_six
  copy_six-append =
      let start =
        take_start stem (x ++ suffix) {n = length (stem ++ (x ++ suffix)) - length suffix - 6}
          (omega (arith, length_template)) in
      let middle =
        drop_middle pre stem (r ++ suffix)
          {n = length (pre ++ (stem ++ (r ++ suffix))) - length suffix - 6}
          (omega (arith, length_new)) in
      let six = take_start r suffix {n = 6} (omega (arith, six_r)) in
      let end =
        drop_middle stem x suffix {n = length (stem ++ (x ++ suffix)) - length suffix}
          (omega (arith, length_template)) in
      rw (start, middle, six, end) refl

filled_template-copy_six :
    (h : Hx) (n : ℕ) (template new_template : Text)
    → should_expand h template ≡ true
    → filled_template h n template new_template ≡ copy_six n template new_template
unfolding filled_template expanded_len
filled_template-copy_six h n template new_template e = rw e (ground arith)

module _ (K : Kernel) (h : Hx) (stem r : Text) (s s1 : K.State) (six_r : length r ≡ 6) where
  -- Where the template is rewritten, and the host puts six characters in its place, `mkstemps` gives the guest its own template with the six
  -- characters that the host chose and the suffix kept: the name of the new file less the root.
  pub mkstemps_lem :
      (suffix : Text) {fd : ℕ}
      → should_expand h (stem ++ (template_tail ++ suffix)) ≡ true
      → K.real Shape.named
          (record {
            op = Op.mkstemps;
            paths = expand_path h (stem ++ (template_tail ++ suffix)) ∷ [];
            args = word (length suffix) ∷ [];
          })
          s
        ≡ (gives (fd, root_text h.root ++ (stem ++ (r ++ suffix))), s1)
      → mkstemps K h (stem ++ (template_tail ++ suffix)) (length suffix) s
        ≡ (ok (fd, stem ++ (r ++ suffix)), s1)
  unfolding mkstemps call
  mkstemps_lem suffix e g =
      let copied = copy_six-append (root_text h.root) stem template_tail suffix r refl six_r in
      let filled =
        filled_template-copy_six h (length suffix) _ (root_text h.root ++ (stem ++ (r ++ suffix)))
          e in
      rw (g, filled, copied) refl
