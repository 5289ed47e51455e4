-- ===== src/Sys/Bracket.antt =====
-- `AUTO_CLOSE`, `AUTO_UNLOCK` and `HxFlock` of src/util.c: clean-ups that run on every return, and a
-- kernel that keeps a log of its calls, to say so.
use hxroot.Base.{ℕ, [], ◌∷◌}
use hxroot.Sys.{M, return, throw, attempt, ◌>>=◌, ◌>>◌, word, Op, Kernel, host}

-- A block with a clean-up at its end. The clean-up's own failure leaves its `errno`.
unfoldable pub ensure : {S A : Type 0} → M S A → M S ℕ → M S A
ensure body cleanup =
    attempt body (λ a. attempt cleanup (λ _. return a) (λ _. return a))
      (λ e. attempt cleanup (λ _. throw e) (λ e'. throw e'))

abbrev pub lock_ex : ℕ
lock_ex = 2

abbrev pub lock_un : ℕ
lock_un = 8

module _ (K : Kernel) where
  unfoldable pub auto_close : ℕ → M K.State ℕ
  auto_close fd = host K Op.close [] (word fd ∷ [])

  unfoldable pub flock : ℕ → M K.State ℕ
  flock fd = do host K Op.flock [] (word fd ∷ word lock_ex ∷ []); return fd

  unfoldable pub auto_unlock : ℕ → M K.State ℕ
  auto_unlock fd = host K Op.flock [] (word fd ∷ word lock_un ∷ [])

  -- A block with an open descriptor, and one with the descriptor open and locked.
  unfoldable pub with_fd : {A : Type 0} → M K.State ℕ → (ℕ → M K.State A) → M K.State A
  with_fd opening body = opening >>= λ fd. ensure (body fd) (auto_close fd)

  unfoldable pub with_lock : {A : Type 0} → ℕ → (ℕ → M K.State A) → M K.State A
  with_lock fd body = flock fd >>= λ lock. ensure (body lock) (auto_unlock lock)
