-- ===== src/Sem/WakeProgress.antt =====
-- No thread is left asleep by the mutex of src/sysvsem.c: its wake-ups reach whom they must.
use hxroot.Sem.WakeLaws.{
  Inv, is_parked-without, not_parked-without, step-waking, step-slow, step-asleep, step_waked,
  step-idle, step_enters, stepped-Inv, Runs-Inv,
}
use hxroot.Sem.FutexLaws.{no_fast_path}
use hxroot.Sem.FutexProgress.{step_other, Reach-Held, is_unlocked, unlocks, is_contended}
use hxroot.Sem.Wake.{
  Machine, is_parked, without, stepped, left, accesses, retries, wakes, wakes_none, Runs, Holds,
  now, later,
}
use hxroot.Sem.Futex.{
  System, step, unlocked, contended, idle, slow, asleep, holding, waking, crashed, Pc,
}
use hxroot.Base.{
  ℕ, ◌≡◌, refl, ◌≢◌, inl, inr, true, false, List, [], ◌∷◌, arith, Bool-cases, sym, ◌∙◌, suc,
}

-- From a word that is `UNLOCKED`.
module _ (m : Machine) (i : ℕ) (w : m.sys.word ≡ unlocked) where
  from_slow : {n : ℕ} → is_parked i m.parked ≡ false → m.sys.pc i ≡ slow → Holds i (suc n) m
  from_slow a e = later (accesses i a (λ q. cc) (λ q. cc)) (now (step_enters m.sys i w e))

from_idle :
    {n : ℕ} (m : Machine) (i : ℕ)
    → m.sys.word ≡ unlocked
    → is_parked i m.parked ≡ false
    → m.sys.pc i ≡ idle
    → Holds i (suc (suc n)) m
from_idle m i w a e =
    let (f, v) = step-idle m.sys i w e in
    later (accesses i a (λ q. cc) (λ q. cc)) (from_slow (stepped m i) i v a f)

module _ (m : Machine) (inv : Inv m) (i : ℕ) where
  -- A sleeper that is woken.
  from_waked :
      {n : ℕ} (j : ℕ)
      → m.sys.word ≡ unlocked
      → m.sys.pc j ≡ waking
      → is_parked i m.parked ≡ true
      → Holds i (suc (suc n)) m
  from_waked j w v e =
      let a = inv.sleeping i e in
      let ne : j ≢ i = λ q. cc (rw (q, a) at v) in
      let (f, x) = step-asleep (step m.sys j) i (step_other m.sys j i ne ∙ a) in
      let y : (step (step m.sys j) i).word ≡ unlocked = x ∙ (step_waked m.sys j v).1 ∙ w in
      later (wakes j i v e) (from_slow (left (stepped m j) i) i y (not_parked-without i m.parked) f)

  -- Somebody who does not sleep is not in the list.
  awake : (j : ℕ) → m.sys.pc j ≢ asleep → is_parked j m.parked ≡ false
  awake j n = elim (Bool-cases (is_parked j m.parked)) [
    | inl e ↦ absurd (n (inv.sleeping j e))
    | inr e ↦ e
  ]

  from_waking :
      {n : ℕ} (ps : List ℕ)
      → m.parked ≡ ps
      → m.sys.word ≡ unlocked
      → m.sys.pc i ≡ waking
      → Holds i (suc (suc (suc n))) m
  unfolding is_parked
  from_waking [] p w v =
      let (f, x) = step_waked m.sys i v in
      later (wakes_none i v p) (from_idle (stepped m i) i (x ∙ w) (awake i (λ q. cc)) f)
  from_waking (k ∷ ks) p w v =
      let e : is_parked k m.parked ≡ true = rw p (ground arith) in
      let a = inv.sleeping k e in
      let ne : i ≢ k = λ q. cc (rw (q, a) at v) in
      let (f, x) = step_waked m.sys i v in
      let (g, y) = step-asleep (step m.sys i) k (step_other m.sys i k ne ∙ a) in
      let kept_awake = awake i (λ q. cc) in
      let rest : is_parked i (without k m.parked) ≡ false =
        elim (Bool-cases (is_parked i (without k m.parked))) [
          | inl b ↦ let back = (is_parked-without i k m.parked b).0 in cc
          | inr b ↦ b
        ] in
      later (wakes i k v e) (
        from_idle (left (stepped m i) k) i (y ∙ x ∙ w) rest
          (step_other (step m.sys i) k i (λ q. ne (sym q)) ∙ f))

-- An unlock, by the thread that holds the mutex.
unlock_step :
    (s : System) (j : ℕ)
    → s.word ≡ contended
    → s.pc j ≡ holding
    → ((step s j).word ≡ unlocked) × ((step s j).pc j ≡ waking)
unlock_step s j w h = (unlocks s j w h, step-waking s j w h)

from_parked :
    {n : ℕ} (m : Machine) (inv : Inv m) (i : ℕ)
    → m.sys.word ≡ unlocked
    → is_parked i m.parked ≡ true
    → Holds i (suc (suc (suc (suc n)))) m
from_parked m inv i w e = elim (inv.live i e) [
  | inl c ↦ cc
  | inr (j, inl v) ↦ from_waked m inv i j w v e
  | inr (j, inr v) ↦
      let a = awake m inv i j (λ q. cc) in
      let inv' = stepped-Inv m inv j a (λ q. cc) in
      let h = step_enters m.sys j w v in
      let (u, k) = unlock_step (step m.sys j) j (step-slow m.sys j v) h in
      later (accesses j a (λ q. cc) (λ q. cc)) (
        later (accesses j a (λ q. cc) (λ q. cc)) (
          from_waked (stepped (stepped m j) j) (stepped-Inv (stepped m j) inv' j a (λ q. cc)) i j u
            k e))
]

from_unparked :
    {n : ℕ} (m : Machine) (inv : Inv m) (i : ℕ) (p : Pc)
    → m.sys.word ≡ unlocked
    → is_parked i m.parked ≡ false
    → m.sys.pc i ≡ p
    → Holds i (suc (suc (suc (suc n)))) m
from_unparked m inv i idle w a e = from_idle m i w a e
from_unparked m inv i slow w a e = from_slow m i w a e
from_unparked m inv i asleep w a e =
    let (f, x) = step-asleep m.sys i e in
    later (retries i a e (λ q. cc)) (from_slow (stepped m i) i (x ∙ w) a f)
from_unparked m inv i holding w a e = now e
from_unparked m inv i waking w a e = from_waking m inv i m.parked refl w e
from_unparked m inv i crashed w a e = absurd ((no_fast_path i inv.reach).1 e)

from_unlocked :
    {n : ℕ} (m : Machine) (inv : Inv m) (i : ℕ)
    → m.sys.word ≡ unlocked
    → Holds i (suc (suc (suc (suc n)))) m
from_unlocked m inv i w = elim (Bool-cases (is_parked i m.parked)) [
  | inl e ↦ from_parked m inv i w e
  | inr e ↦ from_unparked m inv i (m.sys.pc i) w e refl
]

-- However the threads got to where they are, and wherever signals ended sleeps: at most five more
-- accesses, calls of `futex_wait` and calls of `futex_wake`, of threads that can go on and without any
-- signal, bring every thread to where it holds the mutex, a thread that sleeps in the kernel too.
pub eventually-Holds : {m : Machine} (i : ℕ) → Runs m → Holds i 5 m
eventually-Holds {m} i r =
    let inv = Runs-Inv r in
    elim (is_contended m.sys.word) [
      | inr n ↦ from_unlocked m inv i (is_unlocked m.sys.word (no_fast_path i inv.reach).0 n)
      | inl w ↦
          let (j, h) = (Reach-Held inv.reach).holder w in
          let a = awake m inv i j (λ q. cc) in
          let (u, k) = unlock_step m.sys j w h in
          later (accesses j a (λ q. cc) (λ q. cc))
            (from_unlocked (stepped m j) (stepped-Inv m inv j a (λ q. cc)) i u)
    ]
