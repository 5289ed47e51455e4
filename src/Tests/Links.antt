-- ===== src/Tests/Links.antt =====
-- Count files and hidden names on examples, with hosts that answer every call alike.
use hxroot.Links.Protocol.{l2s_increment-Released}
use hxroot.Links.Counts.{l2s_increment}
use hxroot.Sys.Discipline.{Released}
use hxroot.Sys.Log.{logged}
use hxroot.Files.Recursion.{open_file}
use hxroot.Files.Open.{open_with}
use hxroot.Files.Stat.{o_rdwr}
use hxroot.Links.Unlink.{l2s_unlink}
use hxroot.Links.Release.{l2s_unlink-Released}
use hxroot.Paths.{expand_path}
use hxroot.Sys.{word, Kernel, call, Call, ok, Outcome, Op}
use hxroot.Base.{ℕ, ◌≡◌, refl, List, [], ◌∷◌, Text, bytes}
use hxroot.Tests.{jail, giving}

-- The count file of `/l`, holding this count.
abbrev holding : ℕ → Kernel
holding n = giving (n ∷ 0 ∷ 0 ∷ 0 ∷ [])

abbrev counts : Text
counts = bytes "/l.hxlinks"

abbrev open_call : ℕ → Call
open_call mode = record {
  op = Op.open_file;
  paths = expand_path jail counts ∷ [];
  args = word 2 ∷ word 0 ∷ [];
}

open_counts :
    (t : Text) (mode : ℕ)
    → open_file (logged (giving t)) jail 1 counts o_rdwr mode ([], 0)
      ≡ (ok 4, (open_call mode ∷ [], 1))
unfolding open_file open_with call
open_counts t mode = refl

abbrev removed : Text → Outcome ℕ × (List Call × ℕ)
removed t = l2s_unlink (logged (giving t)) jail 1 (bytes "/l") counts 9 (bytes "f") ([], 0)

l2s_unlink-Released_example : Released 4 (open_call 0 ∷ []) (removed []).1.0
l2s_unlink-Released_example =
    l2s_unlink-Released (giving []) jail 1 4 (bytes "/l") counts 9 (bytes "f") ([], 0)
      (open_call 0 ∷ []) 1 (open_counts [] 0)

l2s_increment-Released_example :
    Released 4 (open_call 0o777 ∷ []) (l2s_increment (logged (giving [])) jail 1 counts ([], 0)).1.0
l2s_increment-Released_example =
    l2s_increment-Released (giving []) jail 1 4 counts ([], 0) (open_call 0o777 ∷ []) 1
      (open_counts [] 0o777)
