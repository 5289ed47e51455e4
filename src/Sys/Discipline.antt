-- ===== src/Sys/Discipline.antt =====
-- What the clean-ups of src/util.c guarantee to the blocks of src/link.c and src/unlink.c that run
-- with a descriptor open and locked.
use hxroot.Sys.Bracket.{
  auto_unlock, flock, with_fd, ensure, lock_ex, auto_close, with_lock, lock_un,
}
use hxroot.Sys.Log.{logged}
use hxroot.Sys.{
  exhausted, Outcome, Call, aborted, fail, ok, Kernel, errs, word, Op, gives, Result, M, Errno,
  Shape, call, host, throw, resume, ◌>>=◌, Arg,
}
use hxroot.Base.{ℕ, ◌≡◌, refl, ap, ◌∙◌, Bool, true, false, List, [], ◌∷◌, arith, Text}

abbrev pub close_call : ℕ → Call
close_call fd = record { op = Op.close; paths = []; args = word fd ∷ [] }

abbrev pub flock_call : ℕ → ℕ → Call
flock_call fd how = record { op = Op.flock; paths = []; args = word fd ∷ word how ∷ [] }

-- The call came back, with a value or with -1.
abbrev pub returns : {A : Type 0} → Outcome A → Bool
returns (ok a) = true
returns (fail e) = true
returns aborted = false
returns exhausted = false

module _ (K : Kernel) {A : Type 0} (fd : ℕ) (opening : M (logged K).State ℕ)
    (body : ℕ → M (logged K).State A) (s s1 : (logged K).State) where
  ensure-close :
      returns (body fd s1).0 ≡ true
      → (ensure (body fd) (auto_close (logged K) fd) s1).1.0 ≡ close_call fd ∷ (body fd s1).1.0
  unfolding ensure auto_close call
  ensure-close r = ground arith

  -- A block that comes back leaves its descriptor closed, by the last call made.
  pub with_fd-close :
      opening s ≡ (ok fd, s1)
      → returns (body fd s1).0 ≡ true
      → (with_fd (logged K) opening body s).1.0 ≡ close_call fd ∷ (body fd s1).1.0
  unfolding with_fd
  with_fd-close e r = rw e (ensure-close r)

module _ (K : Kernel) {A : Type 0} (fd : ℕ) (body : ℕ → M (logged K).State A) (l : List Call)
    (k k1 : K.State) where
  -- The lock is got.
  pub with_lock-unlock :
      {x : ℕ}
      → K.real Shape.number (flock_call fd lock_ex) k ≡ (gives x, k1)
      → returns (body fd (flock_call fd lock_ex ∷ l, k1)).0 ≡ true
      → (returns (with_lock (logged K) fd body (l, k)).0 ≡ true)
        × ((with_lock (logged K) fd body (l, k)).1.0
            ≡ flock_call fd lock_un ∷ (body fd (flock_call fd lock_ex ∷ l, k1)).1.0)
  unfolding with_lock flock ensure auto_unlock call
  with_lock-unlock e r = rw e (ground arith, ground arith)

  -- The lock is not got.
  pub with_lock_fail :
      {e : Errno}
      → K.real Shape.number (flock_call fd lock_ex) k ≡ (errs e, k1)
      → with_lock (logged K) fd body (l, k) ≡ (fail e, (flock_call fd lock_ex ∷ l, k1))
  unfolding with_lock flock ensure auto_unlock call
  with_lock_fail e = rw e refl

-- How a block under an open and locked descriptor ends: unlocked and then closed, or closed because
-- the lock was not got, with nothing done in between.
pub data Released (fd : ℕ) (before after : List Call) : Type 0 where
  after_lock :
      (l : List Call) → after ≡ close_call fd ∷ flock_call fd lock_un ∷ l → Released fd before after
  without_lock : after ≡ close_call fd ∷ flock_call fd lock_ex ∷ before → Released fd before after

module _ (K : Kernel) {A : Type 0} (fd : ℕ) (opening : M (logged K).State ℕ)
    (body : ℕ → ℕ → M (logged K).State A) (s : (logged K).State) (l : List Call) (k : K.State) where
  pub locked-Released :
      opening s ≡ (ok fd, (l, k))
      → ((t : (logged K).State) → returns (body fd fd t).0 ≡ true)
      → Released fd l (with_fd (logged K) opening (λ d. with_lock (logged K) d (body d)) s).1.0
  locked-Released e r = go (K.real Shape.number (flock_call fd lock_ex) k) refl
    where
      go :
          (p : Result ℕ × K.State)
          → K.real Shape.number (flock_call fd lock_ex) k ≡ p
          → Released fd l (with_fd (logged K) opening (λ d. with_lock (logged K) d (body d)) s).1.0
      go (gives x, k1) got =
          let u = with_lock-unlock K fd (body fd) l k k1 got (r (flock_call fd lock_ex ∷ l, k1)) in
          after_lock _ (
            with_fd-close K fd opening (λ d. with_lock (logged K) d (body d)) s (l, k) e u.0
            ∙ ap (◌∷◌ (close_call fd)) u.1)
      go (errs x, k1) got =
          let u = with_lock_fail K fd (body fd) l k k1 got in
          without_lock (
            with_fd-close K fd opening (λ d. with_lock (logged K) d (body d)) s (l, k) e (rw u refl)
            ∙ ap (λ (p : Outcome A × (logged K).State). close_call fd ∷ p.1.0) u)

pub returns-bind :
    {S A B : Type 0} (m : M S A) (f : A → M S B) (s : S)
    → returns (m s).0 ≡ true
    → ((a : A) (t : S) → returns (f a t).0 ≡ true)
    → returns ((m >>= f) s).0 ≡ true
returns-bind {S} {A} {B} m f s r g = go (m s) r
  where
    go : (p : Outcome A × S) → returns p.0 ≡ true → returns (resume {B = B} f throw p).0 ≡ true
    go (ok a, t) e = g a t
    go (fail x, t) e = refl
    go (aborted, t) e = cc
    go (exhausted, t) e = cc

pub returns-host :
    (K : Kernel) (f : Op) (ps : List Text) (xs : List Arg) (s : K.State)
    → returns (host K f ps xs s).0 ≡ true
unfolding call
returns-host K f ps xs s = ground arith

-- A clean-up by one host call does not change a value.
ensure_ok :
    (K : Kernel) {A : Type 0} (m : M K.State A) (f : Op) (ps : List Text) (xs : List Arg)
    (s : K.State) {a : A}
    → (m s).0 ≡ ok a
    → (ensure m (host K f ps xs) s).0 ≡ ok a
unfolding ensure call
ensure_ok K m f ps xs s e = ground arith

module _ (K : Kernel) {A : Type 0} (fd x : ℕ) (opening : M (logged K).State ℕ)
    (body : ℕ → ℕ → M (logged K).State A) (s : (logged K).State) (l : List Call) (k k1 : K.State)
    (opened : opening s ≡ (ok fd, (l, k)))
    (locked : K.real Shape.number (flock_call fd lock_ex) k ≡ (gives x, k1)) where
  -- The log of a block that got its lock.
  pub locked_log :
      {r : Outcome A} {l2 : List Call} {k2 : K.State}
      → body fd fd (flock_call fd lock_ex ∷ l, k1) ≡ (r, (l2, k2))
      → returns r ≡ true
      → (with_fd (logged K) opening (λ d. with_lock (logged K) d (body d)) s).1.0
        ≡ close_call fd ∷ flock_call fd lock_un ∷ l2
  locked_log e q =
      let u = with_lock-unlock K fd (body fd) l k k1 locked (rw e q) in
      with_fd-close K fd opening (λ d. with_lock (logged K) d (body d)) s (l, k) opened u.0
      ∙ ap (◌∷◌ (close_call fd)) (u.1 ∙ rw e refl)

  -- Its value.
  pub locked_value :
      {a : A} {l2 : List Call} {k2 : K.State}
      → body fd fd (flock_call fd lock_ex ∷ l, k1) ≡ (ok a, (l2, k2))
      → (with_fd (logged K) opening (λ d. with_lock (logged K) d (body d)) s).0 ≡ ok a
  unfolding with_fd with_lock flock call auto_close auto_unlock
  locked_value e = rw opened (
      ensure_ok (logged K) _ Op.close [] _ _
        (rw locked (ensure_ok (logged K) (body fd fd) Op.flock [] _ _ (rw e refl))))
