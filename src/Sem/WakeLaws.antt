-- ===== src/Sem/WakeLaws.antt =====
-- What holds of the sleepers of the mutex of src/sysvsem.c, however the threads interleave.
use hxroot.Sem.FutexProgress.{step_other}
use hxroot.Sem.Wake.{
  Machine, is_parked, without, stepped, fell_asleep, left, Go, accesses, sleeps, retries, wakes,
  wakes_none, Runs, begins, goes, interrupted,
}
use hxroot.Sem.Futex.{
  System, step, advance, unlocked, contended, idle, slow, asleep, holding, waking, crashed, here,
  Reach, next, Pc,
}
use hxroot.Base.{
  ℕ, ◌≡◌, refl, ◌≢◌, ◌⊎◌, inl, inr, true, false, List, [], ◌∷◌, arith, ◌==◌, Bool-cases, sym, ◌∙◌,
}

equal_or_not : (i j : ℕ) → (i ≡ j) ⊎ (i ≢ j)
equal_or_not i j = elim (Bool-cases (i == j)) [
  | inl e ↦ inl (ground arith)
  | inr e ↦ inr (λ q. ground arith)
]

pub is_parked-without :
    (i j : ℕ) (js : List ℕ) → is_parked i (without j js) ≡ true → (is_parked i js ≡ true) × (i ≢ j)
unfolding is_parked without
is_parked-without i j [] e = cc
is_parked-without i j (k ∷ js) e = elim (Bool-cases (j == k)) [
  | inl q ↦ let (a, b) = is_parked-without i j js (rw q at e) in (ground arith, b)
  | inr q ↦ elim (Bool-cases (i == k)) [
    | inl r ↦ (ground arith, λ x. ground arith)
    | inr r ↦ let (a, b) = is_parked-without i j js (rw (q, is_parked, r) at e) in (ground arith, b)
  ]
]

pub not_parked-without : (i : ℕ) (js : List ℕ) → is_parked i (without i js) ≡ false
unfolding is_parked without
not_parked-without i [] = refl
not_parked-without i (k ∷ js) = ground (arith, not_parked-without i js)

-- Single accesses.
module _ (s : System) (i : ℕ) where
  step-contended : s.word ≡ contended → s.pc i ≢ holding → (step s i).word ≡ contended
  unfolding advance
  step-contended w n = ground arith

  pub step-waking : s.word ≡ contended → s.pc i ≡ holding → (step s i).pc i ≡ waking
  unfolding advance
  step-waking w h = ground arith

  pub step-slow : s.pc i ≡ slow → (step s i).word ≡ contended
  unfolding advance
  step-slow e = ground arith

  pub step-asleep : s.pc i ≡ asleep → ((step s i).pc i ≡ slow) × ((step s i).word ≡ s.word)
  unfolding advance
  step-asleep e = (ground arith, ground arith)

  pub step_waked : s.pc i ≡ waking → ((step s i).pc i ≡ idle) × ((step s i).word ≡ s.word)
  unfolding advance
  step_waked e = (ground arith, ground arith)

  pub step-idle :
      s.word ≡ unlocked → s.pc i ≡ idle → ((step s i).pc i ≡ slow) × ((step s i).word ≡ unlocked)
  unfolding advance
  step-idle w e = (ground arith, ground arith)

  pub step_enters : s.word ≡ unlocked → s.pc i ≡ slow → (step s i).pc i ≡ holding
  unfolding advance
  step_enters w e = ground arith

-- While the word is not `CONTENDED` somebody is on the way to wake a sleeper, or to take the mutex.
abbrev pub Live : System → Type 0
Live s = (s.word ≡ contended) ⊎ ((j : ℕ) × ((s.pc j ≡ waking) ⊎ (s.pc j ≡ slow)))

pub record Inv (m : Machine) : Type 0 where
  pub reach : Reach m.sys
  pub sleeping : (k : ℕ) → is_parked k m.parked ≡ true → m.sys.pc k ≡ asleep
  pub live : (k : ℕ) → is_parked k m.parked ≡ true → Live m.sys

is_holding : (p : Pc) → (p ≡ holding) ⊎ (p ≢ holding)
is_holding holding = inl refl
is_holding idle = inr (λ e. cc)
is_holding slow = inr (λ e. cc)
is_holding asleep = inr (λ e. cc)
is_holding waking = inr (λ e. cc)
is_holding crashed = inr (λ e. cc)

-- An access that is not the wake-up keeps it so.
step-Live : (s : System) (i : ℕ) → s.pc i ≢ waking → Live s → Live (step s i)
step-Live s i n (inl w) = elim (is_holding (s.pc i)) [
  | inl h ↦ inr (i, inl (step-waking s i w h))
  | inr h ↦ inl (step-contended s i w h)
]
step-Live s i n (inr (j, e)) = elim (equal_or_not i j) [
  | inr ne ↦ inr (j, rw (step_other s i j ne) e)
  | inl q ↦ elim e [ inl v ↦ absurd (n (rw q v)) | inr v ↦ inl (step-slow s i (rw q v)) ]
]

module _ (m : Machine) (inv : Inv m) where
  -- A sleeper is not the thread of the access.
  apart : (i k : ℕ) → is_parked i m.parked ≡ false → is_parked k m.parked ≡ true → i ≢ k
  apart i k a b q = cc (rw q at a)

  pub stepped-Inv : (i : ℕ) → is_parked i m.parked ≡ false → m.sys.pc i ≢ waking → Inv (stepped m i)
  stepped-Inv i a n = record {
    reach = next inv.reach i;
    sleeping = λ k e. step_other m.sys i k (apart i k a e) ∙ inv.sleeping k e;
    live = λ k e. step-Live m.sys i n (inv.live k e);
  }

  fell_asleep-Inv : (i : ℕ) → m.sys.pc i ≡ asleep → m.sys.word ≡ contended → Inv (fell_asleep m i)
  unfolding is_parked
  fell_asleep-Inv i e w = record {
    reach = inv.reach;
    sleeping = λ k q. elim (Bool-cases (k == i)) [
      | inl x ↦ let y : k ≡ i = ground arith in rw y e
      | inr x ↦ inv.sleeping k (rw x at q)
    ];
    live = λ k q. inl w;
  }

  left-Inv : (j : ℕ) → is_parked j m.parked ≡ true → Inv (left m j)
  left-Inv j e = record {
    reach = next inv.reach j;
    sleeping = λ k q.
        let (p, ne) = is_parked-without k j m.parked q in
        step_other m.sys j k (λ x. ne (sym x)) ∙ inv.sleeping k p;
    live = λ k q. inr (j, inr (step-asleep m.sys j (inv.sleeping j e)).0);
  }

  -- Between the wake-up and the return of who was woken.
  left_step-Inv :
      (i j : ℕ) → m.sys.pc i ≡ waking → is_parked j m.parked ≡ true → Inv (left (stepped m i) j)
  left_step-Inv i j w e =
      let not_asleep : (k : ℕ) → is_parked k m.parked ≡ true → i ≢ k =
        λ k p x. cc (rw (x, inv.sleeping k p) at w) in
      record {
        reach = next (next inv.reach i) j;
        sleeping = λ k q.
            let (p, ne) = is_parked-without k j m.parked q in
            step_other (step m.sys i) j k (λ x. ne (sym x))
            ∙ step_other m.sys i k (not_asleep k p)
            ∙ inv.sleeping k p;
        live = λ k q. inr (
          j,
          inr
              (step-asleep (step m.sys i) j
                (step_other m.sys i j (not_asleep j e) ∙ inv.sleeping j e)).0,
        );
      }

Go-Inv : {m m' : Machine} → Inv m → Go m m' → Inv m'
unfolding is_parked
Go-Inv {m} v (accesses i a n w) = stepped-Inv m v i a w
Go-Inv {m} v (sleeps i a e w) = fell_asleep-Inv m v i e w
Go-Inv {m} v (retries i a e w) = stepped-Inv m v i a (λ q. cc)
Go-Inv {m} v (wakes i j w e) = left_step-Inv m v i j w e
Go-Inv {m} v (wakes_none i w e) = record {
  reach = next v.reach i;
  sleeping = λ k q. absurd (none_parked k q);
  live = λ k q. absurd (none_parked k q);
}
  where
    none_parked : (k : ℕ) → is_parked k m.parked ≡ true → ⊥
    none_parked k q = cc (rw e at q)

pub Runs-Inv : {m : Machine} → Runs m → Inv m
unfolding is_parked
Runs-Inv begins = record { reach = here; sleeping = λ k q. cc; live = λ k q. cc }
Runs-Inv (goes r g) = Go-Inv (Runs-Inv r) g
Runs-Inv (interrupted {m} r i e) = left-Inv m (Runs-Inv r) i e
