-- ===== src/Sys/Extends.antt =====
-- When a bound on a recursion is raised: a program that does what another does wherever that one
-- ends.
use hxroot.Sys.{Errno, exhausted, ok, M, Outcome, attempt, fail, aborted}
use hxroot.Base.{◌≡◌, refl, ◌∙◌, Bool, true, false, if◌then◌else◌, ◌≢◌}

-- Where the first does not run out of fuel, the second does the same.
pub record Extends {S A : Type 0} (m m' : M S A) : Type 0 where
  pub agrees : (s : S) → (m s).0 ≢ exhausted → m' s ≡ m s

pub same-Extends : {S A : Type 0} {m : M S A} → Extends m m
same-Extends = record { agrees = λ s r. refl }

module _ {S A B : Type 0} {m m' : M S A} {f f' : A → M S B} {g g' : Errno → M S B}
    (hm : Extends m m') (hf : (a : A) → Extends (f a) (f' a))
    (hg : (e : Errno) → Extends (g e) (g' e)) where
  attempt-agrees :
      (s : S) (p : Outcome A × S)
      → m s ≡ p
      → (attempt m f g s).0 ≢ exhausted
      → attempt m' f' g' s ≡ attempt m f g s
  attempt-agrees s (ok a, t) e r =
      let q : m' s ≡ (ok a, t) = hm.agrees s (λ q. cc) ∙ e in
      rw (q, e) ((hf a).agrees t (rw e at r))
  attempt-agrees s (fail x, t) e r =
      let q : m' s ≡ (fail x, t) = hm.agrees s (λ q. cc) ∙ e in
      rw (q, e) ((hg x).agrees t (rw e at r))
  attempt-agrees s (aborted, t) e r =
      let q : m' s ≡ (aborted, t) = hm.agrees s (λ q. cc) ∙ e in rw (q, e) refl
  attempt-agrees s (exhausted, t) e r = absurd (r (rw e refl))

  pub attempt-Extends : Extends (attempt m f g) (attempt m' f' g')
  attempt-Extends = record { agrees = λ s r. attempt-agrees s (m s) refl r }

pub if-Extends :
    {S A : Type 0} (b : Bool) {m m' k k' : M S A}
    → Extends m m'
    → Extends k k'
    → Extends (if b then m else k) (if b then m' else k')
if-Extends true hm hk = hm
if-Extends false hm hk = hk
