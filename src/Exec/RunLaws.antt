-- ===== src/Exec/RunLaws.antt =====
-- The recursion of `execve` of src/exec.c over scripts that are run by scripts.
use hxroot.Exec.Env.{Process}
use hxroot.Exec.Shebang.{is_shebang, parse_shebang, script_argv, first_line}
use hxroot.Files.Recursion.{open_file}
use hxroot.Sys.{
  M, Kernel, word, call, Op, Shape, exhausted, gives, ok, Outcome, Errno, fail, aborted, resume,
}
use hxroot.Config.{Hx}
use hxroot.Base.{ℕ, zero, suc, ◌+◌, ◌≡◌, ap, ◌∙◌, true, List, [], ◌∷◌, arith, Text, refl, ◌≢◌}
use hxroot.Sys.Extends.{Extends, same-Extends, attempt-Extends, if-Extends}
use hxroot.Exec.Run.{dispatch, execve_with, execve, o_cloexec}

resume-exhausted :
    {S A B : Type 0} (f : A → M S B) (g : Errno → M S B) (q : Outcome A × S)
    → q.0 ≡ exhausted
    → (resume f g q).0 ≡ exhausted
resume-exhausted f g (ok a, t) e = cc
resume-exhausted f g (fail x, t) e = cc
resume-exhausted f g (aborted, t) e = cc
resume-exhausted f g (exhausted, t) e = refl

module _ (K : Kernel) (h : Hx) (p : Process) (junk : List Text) (n : ℕ) where
  module _ (again again' : Text → List Text → List Text → M K.State ℕ)
      (ha : (path : Text) (argv envp : List Text)
        → Extends (again path argv envp) (again' path argv envp)) where
    dispatch-Extends :
        (fd : ℕ) (buf path : Text) (argv envp : List Text)
        → Extends
            (dispatch K h p junk n again fd buf path argv envp)
            (dispatch K h p junk n again' fd buf path argv envp)
    unfolding dispatch
    dispatch-Extends fd buf path argv envp = if-Extends (is_shebang buf) (ha _ _ envp) same-Extends

    execve_with-Extends :
        (path : Text) (argv envp : List Text)
        → Extends
            (execve_with K h p junk n again path argv envp)
            (execve_with K h p junk n again' path argv envp)
    unfolding execve_with
    execve_with-Extends path argv envp =
        attempt-Extends {m = open_file K h n path o_cloexec 0} same-Extends
          (λ fd.
            attempt-Extends
              (attempt-Extends
                {m = call K Shape.text
                  (record { op = Op.read; paths = []; args = word fd ∷ word 4095 ∷ [] })}
                same-Extends (λ buf. dispatch-Extends fd buf path argv envp) (λ e. same-Extends))
              (λ _. same-Extends) (λ e. same-Extends))
          (λ e. same-Extends)

  execve-Extends :
      (fuel : ℕ) (path : Text) (argv envp : List Text)
      → Extends
          (execve K h p junk n fuel path argv envp)
          (execve K h p junk n (suc fuel) path argv envp)
  unfolding execve
  execve-Extends zero path argv envp = record { agrees = λ s r. absurd (r refl) }
  execve-Extends (suc fuel) path argv envp =
      execve_with-Extends (execve K h p junk n fuel) (execve K h p junk n (suc fuel))
        (execve-Extends fuel) path argv envp

  -- Where `execve` does not run out of fuel, any more fuel gives the same answer and
  -- leaves the host in the same state.
  pub execve_more :
      (k fuel : ℕ) (path : Text) (argv envp : List Text) (s : K.State)
      → (execve K h p junk n fuel path argv envp s).0 ≢ exhausted
      → execve K h p junk n (k + fuel) path argv envp s ≡ execve K h p junk n fuel path argv envp s
  execve_more zero fuel path argv envp s r =
      ap (λ i. execve K h p junk n i path argv envp s) (omega arith)
  execve_more (suc k) fuel path argv envp s r =
      let ih = execve_more k fuel path argv envp s r in
      let e : suc k + fuel ≡ suc (k + fuel) = omega arith in
      ap (λ i. execve K h p junk n i path argv envp s) e
      ∙ ((execve-Extends (k + fuel) path argv envp).agrees s (λ q. r (rw ih at q)) ∙ ih)

  module _ (path buf : Text)
      (opens : (s : K.State)
        → (fd : ℕ) × (s' : K.State) × (open_file K h n path o_cloexec 0 s ≡ (ok fd, s')))
      (reads : (fd : ℕ) (s : K.State)
        → (s' : K.State) × (K.real Shape.text
              (record { op = Op.read; paths = []; args = word fd ∷ word 4095 ∷ [] })
              s
            ≡ (gives buf, s')))
      (script : is_shebang buf ≡ true) (own : (parse_shebang (first_line buf)).interp ≡ path) where
    -- A script that names itself as its interpreter is never started and never refused: while it can
    -- be opened and read, `execve` of it does not come back, whatever the fuel.
    pub execve-own_interp :
        (fuel : ℕ) (argv envp : List Text) (s : K.State)
        → (execve K h p junk n fuel path argv envp s).0 ≡ exhausted
    unfolding execve execve_with dispatch call
    execve-own_interp zero argv envp s = refl
    execve-own_interp (suc fuel) argv envp s =
        let (fd, s1, o) = opens s in
        let (s2, r) = reads fd s1 in
        let e =
          execve-own_interp fuel (script_argv junk (parse_shebang (first_line buf)) path argv) envp
            s2 in
        rw (o, r, script, own) (resume-exhausted _ _ _ e)
