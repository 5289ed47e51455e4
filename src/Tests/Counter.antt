-- ===== src/Tests/Counter.antt =====
-- A host that keeps one count file, and the count file as a counter on it.
use hxroot.Files.Stat.{encode_int}
use hxroot.Base.{
  ℕ, ◌+◌, ◌≡◌, refl, Option, none, some, List, [], ◌∷◌, ◌++◌, arith, take, drop, Text, bytes,
}
use hxroot.Sys.{Kernel, Call, Op, Result, gives, errs, Errno, Reply, Shape, Arg, str, ok}
use hxroot.Links.Counter.{CountHost, count_file-counter, increments}
use hxroot.Links.Counts.{l2s_create}
use hxroot.Tests.{jail, answer}
use hxroot.Links.Removal.{LinkHost}
use hxroot.Paths.{expand_path, should_expand, excluded}
use hxroot.Base.{Bool, true, false, text_eq, starts_with, if◌then◌else◌}

-- The bytes of the file, if it is there, and the position in it.
pub record Disk : Type 0 where
  pub stored : Option Text
  pub pos : ℕ

abbrev file_bytes : Option Text → Text
file_bytes none = []
file_bytes (some t) = t

abbrev open_disk : Disk → Result ℕ × Disk
open_disk d = (gives 4, record { stored = some (file_bytes d.stored); pos = 0 })

-- A write of four bytes.
abbrev write_disk : List Arg → Disk → Result ℕ × Disk
write_disk (fd ∷ str t ∷ rest) d = (
  gives 4,
  record {
    stored =
        some (take d.pos (file_bytes d.stored) ++ (t ++ drop (d.pos + 4) (file_bytes d.stored)));
    pos = d.pos + 4;
  },
)
write_disk xs d = (errs Errno.einval, d)

abbrev disk_number : Op → List Arg → Disk → Result ℕ × Disk
disk_number Op.open_file xs d = open_disk d
disk_number Op.write xs d = write_disk xs d
disk_number Op.lseek xs d = (gives 0, record d { pos = 0 })
disk_number _ xs d = (gives 0, d)

abbrev disk_real : (r : Shape) → Call → Disk → Result (Reply r) × Disk
disk_real Shape.number c d = disk_number c.op c.args d
disk_real Shape.text c d =
    (gives (take 4 (drop d.pos (file_bytes d.stored))), record d { pos = d.pos + 4 })
disk_real r c d = (gives (answer 0 [] r), d)

abbrev disk : Kernel
disk = record { State = Disk; real = disk_real }

abbrev counts : Text
counts = bytes "/l.hxlinks"

abbrev count_bytes : Option ℕ → Text
count_bytes none = []
count_bytes (some m) = encode_int m

nothing_behind : (c : Option ℕ) → drop 4 (count_bytes c) ≡ []
unfolding encode_int
nothing_behind none = refl
nothing_behind (some m) = refl

unfoldable disk_host : CountHost disk jail counts 4
unfolding encode_int
disk_host = record {
  Missing = λ d. d.stored ≡ none;
  Stored = λ m d. d.stored ≡ some (encode_int m);
  Opened = λ pos c d. (d.stored ≡ some (count_bytes c)) × (d.pos ≡ pos);
  creates = λ d e. (_, refl, (rw e refl, refl));
  opens = λ m d e. (_, refl, (rw e refl, refl));
  locks = λ how pos c d o. (d, refl, o);
  reads = λ m d (e, p). (record d { pos = d.pos + 4 }, rw (p, e) refl, (e, omega arith));
  seeks = λ pos c d (e, p). (_, refl, (e, refl));
  writes = λ m c d (e, p). (_, refl, (rw (p, e, nothing_behind c) refl, omega arith));
  closes = λ pos m d (e, p). (d, refl, e);
}

count_file-counter_example :
    let made = l2s_create disk jail 1 counts (record { stored = none; pos = 0 }) in
    (made.0 ≡ ok 0)
    × ((increments disk jail counts 4 0 disk_host 3 made.1).0 ≡ ok 0)
    × ((increments disk jail counts 4 0 disk_host 3 made.1).1.stored ≡ some (encode_int 5))
unfolding disk_host
count_file-counter_example =
    count_file-counter disk jail counts 4 0 disk_host 3 (record { stored = none; pos = 0 })
      (omega arith) refl

-- The same host with the two hidden names: whether the linked file, and the count file, has its name.
pub record Tree : Type 0 where
  pub disk_ : Disk
  pub file : Bool
  pub counted : Bool

abbrev hidden : Text
hidden = bytes "/l"

abbrev drop_names : List Text → Tree → Tree
drop_names [] t = t
drop_names (path ∷ paths) t =
    if text_eq path (bytes "/r/l")
    then record t { file = false }
    else record t { counted = if text_eq path (bytes "/r/l.hxlinks") then false else t.counted }

abbrev tree_number : Op → Call → Tree → Result ℕ × Tree
tree_number Op.unlink c t = (gives 0, drop_names c.paths t)
tree_number _ c t = let r = disk_number c.op c.args t.disk_ in (r.0, record t { disk_ = r.1 })

abbrev tree_real : (r : Shape) → Call → Tree → Result (Reply r) × Tree
tree_real Shape.number c t = tree_number c.op c t
tree_real r c t = let q = disk_real r c t.disk_ in (q.0, record t { disk_ = q.1 })

abbrev tree : Kernel
tree = record { State = Tree; real = tree_real }

unfoldable tree_counts : CountHost tree jail counts 4
unfolding encode_int
tree_counts = record {
  Missing = λ d. d.disk_.stored ≡ none;
  Stored = λ m d. d.disk_.stored ≡ some (encode_int m);
  Opened = λ pos c d. (d.disk_.stored ≡ some (count_bytes c)) × (d.disk_.pos ≡ pos);
  creates = λ d e. (_, refl, (rw e refl, refl));
  opens = λ m d e. (_, refl, (rw e refl, refl));
  locks = λ how pos c d o. (d, refl, o);
  reads = λ m d (e, p). (
    record d { disk_ = record (d.disk_) { pos = d.disk_.pos + 4 } },
    rw (p, e) refl,
    (e, omega arith),
  );
  seeks = λ pos c d (e, p). (_, refl, (e, refl));
  writes = λ m c d (e, p). (_, refl, (rw (p, e, nothing_behind c) refl, omega arith));
  closes = λ pos m d (e, p). (d, refl, e);
}

unfoldable tree_host : LinkHost tree jail hidden counts 4
unfolding tree_counts expand_path should_expand excluded text_eq starts_with
tree_host = record {
  counts = tree_counts;
  Fileless = λ d. d.file ≡ false;
  Nameless = λ d. (d.file ≡ false) × (d.counted ≡ false);
  Gone = λ d. (d.file ≡ false) × (d.counted ≡ false);
  drops_name = λ realfd pos realfile c d o. (d, refl, o);
  drops_file = λ pos c d o. (_, refl, refl);
  drops_count = λ d e. (_, refl, (e, refl));
  drops_last = λ realfd realfile d o. (d, refl, o);
  locks_nameless = λ how d o. (d, refl, o);
  closes_nameless = λ d o. (d, refl, o);
}

abbrev two_links : Tree
two_links = record {
  disk_ = record { stored = some (encode_int 2); pos = 0 };
  file = true;
  counted = true;
}

abbrev both_names : List (ℕ × Text)
both_names = (9, bytes "a") ∷ (9, bytes "b") ∷ []
