-- ===== src/Files/OpenLaws.antt =====
-- What the wrappers of src/open.c do when a file may not be opened.
use hxroot.Wrap.Meta.{chmod}
use hxroot.Sys.Discipline.{returns}
use hxroot.Sys.Log.{logged}
use hxroot.Files.Recursion.{open_file}
use hxroot.Files.Open.{override_mode, override, creation_mode, open_with}
use hxroot.Paths.{expand_path}
use hxroot.Sys.{Stat, ok, word, errs, Op, gives, Errno, Kernel, Call, Shape, call, M}
use hxroot.Config.{is_fake_root, Hx}
use hxroot.Base.{ℕ, suc, ◌≡◌, ◌⊎◌, true, false, List, [], ◌∷◌, arith, Text}
use hxroot.Files.Recursion.{stat}

abbrev pub open_call : Hx → Text → ℕ → ℕ → Call
open_call h path flags mode = record {
  op = Op.open_file;
  paths = expand_path h path ∷ [];
  args = word flags ∷ word (creation_mode flags mode) ∷ [];
}

abbrev pub chmod_call : Hx → Text → ℕ → Call
chmod_call h path mode = record {
  op = Op.chmod;
  paths = expand_path h path ∷ [];
  args = word mode ∷ [];
}

override_log :
    (K : Kernel) (h : Hx) (stat_ : Text → M (logged K).State Stat) (path : Text) (flags mode : ℕ)
    (l l2 : List Call) (k k1 k2 k3 : K.State) (st : Stat) {x : ℕ}
    → is_fake_root h ≡ true
    → K.real Shape.number (open_call h path flags mode) k ≡ (errs Errno.eacces, k1)
    → stat_ path (open_call h path flags mode ∷ l, k1) ≡ (ok st, (l2, k2))
    → K.real Shape.number (chmod_call h path (override_mode flags st.st_mode)) k2 ≡ (gives x, k3)
    → (open_with (logged K) h stat_ path flags mode (l, k)).1.0
      ≡ chmod_call h path st.st_mode
        ∷ open_call h path flags mode
        ∷ chmod_call h path (override_mode flags st.st_mode)
        ∷ l2
unfolding open_with override call chmod
override_log K h stat_ path flags mode l l2 k k1 k2 k3 st fake e1 e2 e3 = ground arith

module _ (K : Kernel) (h : Hx) (n : ℕ) (path : Text) (flags mode : ℕ) (l l2 : List Call)
    (k k1 k2 k3 : K.State) (st : Stat) where
  -- When a process that looks like root to itself may not open a file, `stat` succeeds and so does
  -- the change of the mode, the file is opened again, and the mode put back: whatever comes of the second try, the last call sets
  -- the mode that `stat` saw.
  pub open_file-override_log :
      {x : ℕ}
      → is_fake_root h ≡ true
      → K.real Shape.number (open_call h path flags mode) k ≡ (errs Errno.eacces, k1)
      → stat (logged K) h n path (open_call h path flags mode ∷ l, k1) ≡ (ok st, (l2, k2))
      → K.real Shape.number (chmod_call h path (override_mode flags st.st_mode)) k2 ≡ (gives x, k3)
      → (open_file (logged K) h (suc n) path flags mode (l, k)).1.0
        ≡ chmod_call h path st.st_mode
          ∷ open_call h path flags mode
          ∷ chmod_call h path (override_mode flags st.st_mode)
          ∷ l2
  unfolding open_file
  open_file-override_log fake e1 e2 e3 =
      override_log K h (λ p. stat (logged K) h n p) path flags mode l l2 k k1 k2 k3 st fake e1 e2 e3

module _ (K : Kernel) (h : Hx) (n : ℕ) (path : Text) (flags mode : ℕ) (s : K.State) where
  -- One level of recursion is enough for `open` in a process that does not look like root to
  -- itself, or that does not turn links into symbolic links: it comes back with a descriptor or -1.
  pub open_file-returns :
      (is_fake_root h ≡ false) ⊎ (h.l2s ≡ false)
      → returns (open_file K h (suc n) path flags mode s).0 ≡ true
  unfolding open_file open_with override call chmod hxroot.Files.Stat.stat
  open_file-returns e = ground arith
