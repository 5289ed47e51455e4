-- ===== src/Tests/Paths.antt =====
-- Path translation and the plain wrappers on examples.
use hxroot.Paths.MemoryLaws.{unexpand_at-unexpand_path}
use hxroot.Paths.Memory.{unexpand_at}
use hxroot.Wrap.Request.{Request}
use hxroot.Paths.Laws.{
  expand_path-unexpand_path, unexpand_path-expand_path, should_expand_iff, at_slash, IsExpandable,
}
use hxroot.Paths.{expand_path, unexpand_path, char_at, should_expand, excluded}
use hxroot.Sys.{Kernel}
use hxroot.Base.{
  ◌+◌, ◌≡◌, refl, ◌≢◌, ◌↔◌, true, false, none, [], ◌∷◌, arith, length, bytes, starts_with, ◌++◌,
  Text,
}
use hxroot.Tests.{jail, giving}

rooted : jail.root ≢ none
rooted e = cc

seen : should_expand jail (bytes "/bc/d") ≡ true
unfolding should_expand excluded starts_with
seen = refl

covered : should_expand jail (bytes "/b/d") ≡ false
unfolding should_expand excluded starts_with
covered = refl

should_expand_iff_example :
    (should_expand jail (bytes "/bc") ≡ true) ↔ IsExpandable jail (bytes "/bc")
should_expand_iff_example =
    should_expand_iff jail (bytes "/bc") (omega arith, (omega arith, (omega arith, tt)))

unexpand_path-expand_path_example :
    unexpand_path jail (expand_path jail (bytes "/bc/d")) ≡ bytes "/bc/d"
unexpand_path-expand_path_example = unexpand_path-expand_path jail (bytes "/bc/d") seen

expand_path-unexpand_path_example :
    (char_at (unexpand_path jail (bytes "/r/x")) 0 ≡ b'/')
    × (expand_path jail (unexpand_path jail (bytes "/r/x")) ≡ bytes "/r/x")
expand_path-unexpand_path_example =
    expand_path-unexpand_path jail (bytes "/r/x") rooted
      (record { rest = bytes "/x"; splits = refl; boundary = at_slash })
      (unfold unexpand_path excluded starts_with in refl)

abbrev host_0 : Kernel
host_0 = giving (bytes "")

-- A buffer that holds `/r/a`, between two other bytes.
unexpand_at-unexpand_path_example :
    (fill : Text) × (unexpand_at jail 1 (7 ∷ (bytes "/r/a" ++ (0 ∷ 9 ∷ [])))
      ≡ 7 ∷ ((unexpand_path jail (bytes "/r/a") ++ (0 ∷ fill)) ++ (9 ∷ [])))
    × (length (unexpand_path jail (bytes "/r/a")) + length fill ≡ 4)
unexpand_at-unexpand_path_example =
    unexpand_at-unexpand_path jail (7 ∷ []) (9 ∷ []) (omega arith) (bytes "/r/a")
      (omega arith, (omega arith, (omega arith, (omega arith, tt))))
