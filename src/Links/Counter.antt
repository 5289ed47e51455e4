-- ===== src/Links/Counter.antt =====
-- The count file as a counter: what `HxL2sCreate` and `HxL2sIncrement` of src/link.c make of it on a
-- host that keeps the file.
use hxroot.Links.Laws.{decode_int-encode_int}
use hxroot.Sys.Bracket.{
  flock, with_lock, lock_ex, ensure, auto_unlock, auto_close, lock_un, with_fd,
}
use hxroot.Sys.Discipline.{close_call, flock_call}
use hxroot.Files.Recursion.{open_file}
use hxroot.Files.Open.{creation_mode, open_with}
use hxroot.Links.Counts.{
  l2s_create, write_count, o_create_new, count_up, l2s_increment, update_count,
}
use hxroot.Paths.{expand_path}
use hxroot.Sys.{
  Reply, Kernel, Op, ok, gives, call, Call, word, Shape, ◌>>=◌, M, return, resume, Outcome, throw,
  Errno,
}
use hxroot.Config.{Hx}
use hxroot.Base.{ℕ, suc, ◌≡◌, refl, Option, none, some, [], ◌∷◌, Text, zero, ◌+◌, ◌^◌, ◌<◌, arith}
use hxroot.Links.Protocol.{read_call, seek_call, write_call}
use hxroot.Files.Stat.{o_rdwr, encode_int, decode_int}

-- The call answers `v` and leaves the host like this.
abbrev pub Steps : (K : Kernel) (r : Shape) → Call → Reply r → K.State → (K.State → Type 0) → Type 0
Steps K r c v s Q = (s' : K.State) × (K.real r c s ≡ (gives v, s')) × Q s'

abbrev pub open_call : Hx → Text → ℕ → Call
open_call h path flags = record {
  op = Op.open_file;
  paths = expand_path h path ∷ [];
  args = word flags ∷ word (creation_mode flags 0o777) ∷ [];
}

-- A host that keeps one count file, which it opens as `fd`. The file is missing; closed with a count
-- in it; or open, with nothing or a count in it, at a position.
pub record CountHost (K : Kernel) (h : Hx) (path : Text) (fd : ℕ) : Type 1 where
  pub Missing : K.State → Type 0
  pub Stored : ℕ → K.State → Type 0
  pub Opened : ℕ → Option ℕ → K.State → Type 0
  pub creates :
      (s : K.State)
      → Missing s
      → Steps K Shape.number (open_call h path o_create_new) fd s (Opened 0 none)
  pub opens :
      (m : ℕ) (s : K.State)
      → Stored m s
      → Steps K Shape.number (open_call h path o_rdwr) fd s (Opened 0 (some m))
  pub locks :
      (how pos : ℕ) (c : Option ℕ) (s : K.State)
      → Opened pos c s
      → Steps K Shape.number (flock_call fd how) 0 s (Opened pos c)
  pub reads :
      (m : ℕ) (s : K.State)
      → Opened 0 (some m) s
      → Steps K Shape.text (read_call fd) (encode_int m) s (Opened 4 (some m))
  pub seeks :
      (pos : ℕ) (c : Option ℕ) (s : K.State)
      → Opened pos c s
      → Steps K Shape.number (seek_call fd) 0 s (Opened 0 c)
  pub writes :
      (m : ℕ) (c : Option ℕ) (s : K.State)
      → Opened 0 c s
      → Steps K Shape.number (write_call fd m) 4 s (Opened 4 (some m))
  pub closes :
      (pos m : ℕ) (s : K.State)
      → Opened pos (some m) s
      → Steps K Shape.number (close_call fd) 0 s (Stored m)

module _ (K : Kernel) (fd m x : ℕ) (got : Text) (s s1 s2 s3 : K.State) where
  update_count_lem :
      K.real Shape.text (read_call fd) s ≡ (gives got, s1)
      → decode_int got ≡ some m
      → K.real Shape.number (seek_call fd) s1 ≡ (gives x, s2)
      → K.real Shape.number (write_call fd (count_up m)) s2 ≡ (gives 4, s3)
      → update_count K fd s ≡ (ok 0, s3)
  unfolding update_count call
  update_count_lem e1 d e2 e3 = ground arith

pub resume_ok :
    {S A B : Type 0} (f : A → M S B) (g : Errno → M S B) (a : A) (q : Outcome A × S)
    → q.0 ≡ ok a
    → resume f g q ≡ f a q.1
resume_ok f g a (r, t) e = rw e refl

module _ (K : Kernel) (h : Hx) (path : Text) (fd n : ℕ) (host : CountHost K h path fd) where
  open_file_lem :
      (flags : ℕ) (s s' : K.State)
      → K.real Shape.number (open_call h path flags) s ≡ (gives fd, s')
      → open_file K h (suc n) path flags 0o777 s ≡ (ok fd, s')
  unfolding open_file open_with call
  open_file_lem flags s s' e = rw e refl

  -- `HxL2sCreate` of a missing count file leaves it with the count 2.
  l2s_create_two :
      (s : K.State)
      → host.Missing s
      → ((l2s_create K h (suc n) path s).0 ≡ ok 0) × host.Stored 2 (l2s_create K h (suc n) path s).1
  unfolding l2s_create with_fd with_lock flock ensure auto_close auto_unlock call write_count
  l2s_create_two s absent =
      let (s1, e1, p1) = host.creates s absent in
      let (s2, e2, p2) = host.locks lock_ex 0 none s1 p1 in
      let (s3, e3, p3) = host.writes 2 none s2 p2 in
      let (s4, e4, p4) = host.locks lock_un 4 (some 2) s3 p3 in
      let (s5, e5, p5) = host.closes 4 2 s4 p4 in
      rw (open_file_lem o_create_new s s1 e1, e2, e3, e4, e5) (refl, p5)

  -- `HxL2sIncrement` of a count file that holds `m` leaves it with the next count.
  l2s_increment_one :
      (m : ℕ) (s : K.State)
      → m < 2 ^ 32
      → host.Stored m s
      → ((l2s_increment K h (suc n) path s).0 ≡ ok 0)
        × host.Stored (count_up m) (l2s_increment K h (suc n) path s).1
  unfolding l2s_increment with_fd with_lock flock ensure auto_close auto_unlock call
  l2s_increment_one m s small stored =
      let (s1, e1, p1) = host.opens m s stored in
      let (s2, e2, p2) = host.locks lock_ex 0 (some m) s1 p1 in
      let (s3, e3, p3) = host.reads m s2 p2 in
      let (s4, e4, p4) = host.seeks 4 (some m) s3 p3 in
      let (s5, e5, p5) = host.writes (count_up m) (some m) s4 p4 in
      let (s6, e6, p6) = host.locks lock_un 4 (some (count_up m)) s5 p5 in
      let (s7, e7, p7) = host.closes 4 (count_up m) s6 p6 in
      let u =
        update_count_lem K fd m 0 (encode_int m) s2 s3 s4 s5 e3
          (decode_int-encode_int m (omega arith)) e4 e5 in
      rw (open_file_lem o_rdwr s s1 e1, e2, u, e6, e7) (refl, p7)

  -- The counter that a count file stands for: `k` increments one after the other.
  unfoldable pub increments : ℕ → M K.State ℕ
  increments zero = return 0
  increments (suc k) = l2s_increment K h (suc n) path >>= λ _. increments k

  increments_lem :
      (k m : ℕ) (s : K.State)
      → m + k < 2 ^ 32
      → host.Stored m s
      → ((increments k s).0 ≡ ok 0) × host.Stored (m + k) (increments k s).1
  unfolding increments
  increments_lem zero m s small stored = let e : m ≡ m + 0 = omega arith in (refl, rw e at stored)
  increments_lem (suc k) m s small stored =
      let (e, stored') = l2s_increment_one m s (omega arith) stored in
      let up : count_up m ≡ m + 1 = omega arith in
      let (e', last) = increments_lem k (m + 1) _ (omega arith) (rw up at stored') in
      let r = resume_ok (λ _. increments k) throw 0 (l2s_increment K h (suc n) path s) e in
      let c : m + 1 + k ≡ m + suc k = omega arith in rw r (e', rw c at last)

  -- The count file is a counter. On a host that keeps it, `HxL2sCreate` of a missing file followed by
  -- `k` calls of `HxL2sIncrement` all succeed, and leave it closed with the count `2 + k`, if that is
  -- below 2^32.
  pub count_file-counter :
      (k : ℕ) (s : K.State)
      → 2 + k < 2 ^ 32
      → host.Missing s
      → let made = l2s_create K h (suc n) path s in
        (made.0 ≡ ok 0)
        × ((increments k made.1).0 ≡ ok 0)
        × host.Stored (2 + k) (increments k made.1).1
  count_file-counter k s small absent =
      let (e, stored) = l2s_create_two s absent in
      let (e', last) = increments_lem k 2 _ small stored in (e, e', last)
