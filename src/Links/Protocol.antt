-- ===== src/Links/Protocol.antt =====
-- What the operations on count files do, read off the log of their host calls.
use hxroot.Sys.Bracket.{auto_unlock, flock, ensure, lock_ex, auto_close, lock_un}
use hxroot.Sys.Discipline.{close_call, Released, flock_call, returns, locked-Released}
use hxroot.Base.{ℕ, ◌≡◌, true, some, List, [], ◌∷◌, arith, Text}
use hxroot.Sys.{ok, gives, Shape, word, str, Op, Call, Kernel, call}
use hxroot.Sys.Log.{logged}
use hxroot.Files.Stat.{decode_int, encode_int, o_rdwr}
use hxroot.Links.Counts.{count_up, update_count, l2s_increment}
use hxroot.Config.{Hx}
use hxroot.Files.Recursion.{open_file}

module _ (fd : ℕ) where
  abbrev pub read_call : Call
  read_call = record { op = Op.read; paths = []; args = word fd ∷ word 4 ∷ [] }

  abbrev pub seek_call : Call
  seek_call = record { op = Op.lseek; paths = []; args = word fd ∷ word 0 ∷ word 0 ∷ [] }

  abbrev pub write_call : ℕ → Call
  write_call n = record {
    op = Op.write;
    paths = [];
    args = word fd ∷ str (encode_int n) ∷ word 4 ∷ [];
  }

module _ (K : Kernel) (fd n x : ℕ) (got : Text) (s s1 s2 s3 : K.State) (l : List Call) where
  pub update_count_log :
      K.real Shape.text (read_call fd) s ≡ (gives got, s1)
      → decode_int got ≡ some n
      → K.real Shape.number (seek_call fd) s1 ≡ (gives x, s2)
      → K.real Shape.number (write_call fd (count_up n)) s2 ≡ (gives 4, s3)
      → update_count (logged K) fd (l, s)
        ≡ (ok 0, (write_call fd (count_up n) ∷ seek_call fd ∷ read_call fd ∷ l, s3))
  unfolding update_count call
  update_count_log e1 d e2 e3 = ground arith

update_count-returns : (K : Kernel) (fd : ℕ) (s : K.State) → returns (update_count K fd s).0 ≡ true
unfolding update_count call
update_count-returns K fd s = ground arith

module _ (K : Kernel) (h : Hx) (n fd : ℕ) (path : Text) (s : (logged K).State) (l : List Call)
    (k : K.State) where
  -- Once the count file is open, `HxL2sIncrement` ends with the descriptor closed, on every branch,
  -- and with the lock released before that wherever the lock was got.
  pub l2s_increment-Released :
      open_file (logged K) h n path o_rdwr 0o777 s ≡ (ok fd, (l, k))
      → Released fd l (l2s_increment (logged K) h n path s).1.0
  unfolding l2s_increment
  l2s_increment-Released e =
      locked-Released K fd (open_file (logged K) h n path o_rdwr 0o777)
        (λ d _. update_count (logged K) d) s l k e (update_count-returns (logged K) fd)

  -- With the count read as `m` and every call going well, `HxL2sIncrement` writes `m + 1` at the
  -- start of the file, under the lock, and reports success.
  pub l2s_increment_log :
      {m x y : ℕ} {got : Text} {k1 k2 k3 k4 : K.State}
      → open_file (logged K) h n path o_rdwr 0o777 s ≡ (ok fd, (l, k))
      → K.real Shape.number (flock_call fd lock_ex) k ≡ (gives x, k1)
      → K.real Shape.text (read_call fd) k1 ≡ (gives got, k2)
      → decode_int got ≡ some m
      → K.real Shape.number (seek_call fd) k2 ≡ (gives y, k3)
      → K.real Shape.number (write_call fd (count_up m)) k3 ≡ (gives 4, k4)
      → ((l2s_increment (logged K) h n path s).0 ≡ ok 0)
        × ((l2s_increment (logged K) h n path s).1.0
            ≡ close_call fd
              ∷ flock_call fd lock_un
              ∷ write_call fd (count_up m)
              ∷ seek_call fd
              ∷ read_call fd
              ∷ flock_call fd lock_ex
              ∷ l)
  unfolding l2s_increment ensure auto_close auto_unlock flock call
  l2s_increment_log {m} e f r d t w =
      rw (e, f, update_count_log K fd m _ _ _ _ _ _ _ r d t w) (ground arith, ground arith)
