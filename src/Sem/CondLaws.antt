-- ===== src/Sem/CondLaws.antt =====
-- No wake-up of the condition variable of src/sysvsem.c is lost.
use hxroot.Sem.FutexLaws.{mutual_exclusion}
use hxroot.Sem.FutexProgress.{step_other}
use hxroot.Sem.Cond.{
  waiting, made, wake_them, on_mutex, wait, add_one, load, Reached, return_it, unlocked_it,
  break_off,
}
use hxroot.Sem.Futex.{next}
use hxroot.Sem.Sets.{signal_all}
use hxroot.Sem.Cond.{
  wake, At, in_mutex, fresh, relocking, free, signalling, futex_wait_timed, sleeping, unlocking,
  futex_wake_all, put, Shared,
}
use hxroot.Sem.Futex.{Pc, here, step, holding, Reach}
use hxroot.Base.{ℕ, ◌≡◌, refl, ◌∙◌, ◌≢◌, Bool, true, false, arith}

-- What holds between any two accesses.
record CondInv (s : Shared) : Type 0 where
  mutex : Reach s.lock
  inside : (i : ℕ) → s.place i ≡ signalling → s.lock.pc i ≡ holding
  current : (i v : ℕ) → s.place i ≡ sleeping v → v ≢ s.cond → (j : ℕ) × (s.place j ≡ signalling)

fresh-CondInv : CondInv fresh
fresh-CondInv = record { mutex = here; inside = λ i e. cc; current = λ i v e n. cc }

put_same : (f : ℕ → At) (i : ℕ) (a : At) → put f i a i ≡ a
put_same f i a = ground arith

put_other : (f : ℕ → At) (i j : ℕ) (a : At) → i ≢ j → put f i a j ≡ f j
put_other f i j a ne = ground arith

-- A thread that is to wake all has no access of the mutex before it does.
in_mutex-signalling : (p : Pc) → in_mutex signalling p ≡ false
unfolding in_mutex
in_mutex-signalling p = refl

wake-signalling : (b : Bool) (a : At) → wake b a ≡ signalling → a ≡ signalling
unfolding wake
wake-signalling b free e = cc
wake-signalling b (unlocking v) e = cc
wake-signalling b (waiting v) e = cc
wake-signalling b (sleeping v) e = cc
wake-signalling b (relocking x) e = cc
wake-signalling b signalling e = refl

wake_awake : (b : Bool) (a : At) (v : ℕ) → wake b a ≢ sleeping v
unfolding wake
wake_awake b free v e = cc
wake_awake b (unlocking w) v e = cc
wake_awake b (waiting w) v e = cc
wake_awake b (sleeping w) v e = cc
wake_awake b (relocking x) v e = cc
wake_awake b signalling v e = cc

futex_wait_timed-sleeping :
    (cond expected v : ℕ) → futex_wait_timed cond expected ≡ sleeping v → v ≡ cond
unfolding futex_wait_timed
futex_wait_timed-sleeping cond expected v e = ground arith

futex_wait_timed_quiet : (cond expected : ℕ) → futex_wait_timed cond expected ≢ signalling
unfolding futex_wait_timed
futex_wait_timed_quiet cond expected e = ground arith

module _ (s : Shared) (inv : CondInv s) (i : ℕ) where
  on_mutex-CondInv :
      in_mutex (s.place i) (s.lock.pc i) ≡ true → CondInv (record s { lock = step s.lock i })
  on_mutex-CondInv m = record {
    mutex = next inv.mutex i;
    inside = λ j e.
        let ne : i ≢ j = λ q. cc (in_mutex-signalling (s.lock.pc i), rw (q, e) at m) in
        step_other s.lock i j ne ∙ inv.inside j e;
    current = inv.current;
  }

  -- A thread that is not about to wake all goes to a place where it neither is, nor sleeps with
  -- another value than the word's.
  put-CondInv :
      (a : At)
      → s.place i ≢ signalling
      → a ≢ signalling
      → ((v : ℕ) → a ≡ sleeping v → v ≡ s.cond)
      → CondInv (record s { place = put s.place i a })
  put-CondInv a p q f = record {
    mutex = inv.mutex;
    inside = λ j e. ground (arith, inv.inside j);
    current = λ j v e n.
        let old : s.place j ≡ sleeping v = ground (arith, f v) in
        let (k, w) = inv.current j v old n in (k, ground arith);
  }

  add_one-CondInv :
      s.lock.pc i ≡ holding
      → CondInv (record s { cond = signal_all s.cond; place = put s.place i signalling })
  add_one-CondInv h = record {
    mutex = inv.mutex;
    inside = λ j e. ground (arith, inv.inside j);
    current = λ j v e n. (i, put_same s.place i signalling);
  }

  wake_them-CondInv : CondInv (record s { place = put (futex_wake_all s.place) i free })
  unfolding futex_wake_all
  wake_them-CondInv = record {
    mutex = inv.mutex;
    inside = λ j e. ground (arith, inv.inside j, wake-signalling false (s.place j));
    current = λ j v e n. absurd (ground (arith, wake_awake false (s.place j) v));
  }

Reached-CondInv : {s : Shared} → Reached s → CondInv s
Reached-CondInv made = fresh-CondInv
Reached-CondInv (on_mutex {s} r i m) = on_mutex-CondInv s (Reached-CondInv r) i m
Reached-CondInv (load {s} r i e h) =
    put-CondInv s (Reached-CondInv r) i (unlocking s.cond) (λ q. cc) (λ q. cc) (λ v q. cc)
Reached-CondInv (unlocked_it {s} {v} r i e h) =
    put-CondInv s (Reached-CondInv r) i (waiting v) (λ q. cc) (λ q. cc) (λ w q. cc)
Reached-CondInv (wait {s} {v} r i e) =
    put-CondInv s (Reached-CondInv r) i (futex_wait_timed s.cond v) (λ q. cc)
      (futex_wait_timed_quiet s.cond v) (futex_wait_timed-sleeping s.cond v)
Reached-CondInv (break_off {s} {v} r i e) =
    put-CondInv s (Reached-CondInv r) i (wake true (s.place i)) (λ q. cc)
      (λ q. cc (wake-signalling true (s.place i) q))
      (λ w q. absurd (wake_awake true (s.place i) w q))
Reached-CondInv (return_it {s} r i e h) =
    put-CondInv s (Reached-CondInv r) i free (λ q. cc) (λ q. cc) (λ v q. cc)
Reached-CondInv (add_one {s} r i e h) = add_one-CondInv s (Reached-CondInv r) i h
Reached-CondInv (wake_them {s} r i e) = wake_them-CondInv s (Reached-CondInv r) i

-- However the threads interleave, and wherever waits are interrupted: a thread that sleeps although
-- the word is no longer the one it loaded is about to be woken. Exactly one thread is in
-- `CondSignalAllShared` then, before its `futex_wake_all`, and that one holds the mutex.
pub no_lost_wakeup :
    {s : Shared} (i v : ℕ)
    → Reached s
    → s.place i ≡ sleeping v
    → v ≢ s.cond
    → (j : ℕ) × (s.place j ≡ signalling)
      × (s.lock.pc j ≡ holding)
      × ((k : ℕ) → s.place k ≡ signalling → k ≡ j)
no_lost_wakeup i v r e n =
    let inv = Reached-CondInv r in
    let (j, f) = inv.current i v e n in
    (j, f, inv.inside j f, λ k g. mutual_exclusion k j inv.mutex (inv.inside k g) (inv.inside j f))
