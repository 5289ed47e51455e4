-- ===== src/Tests/Processes.antt =====
-- Ids, owners and blocked system calls on examples.
use hxroot.Files.Credentials.{recvmsg}
use hxroot.Files.CredentialsLaws.{recvmsg-AllSeen, AllSeen}
use hxroot.Ids.Set.{setuid}
use hxroot.Ids.Laws.{setuid-getuid}
use hxroot.Ids.Get.{geteuid, getuid, getresuid}
use hxroot.Sys.{ok, Kernel, Result, Shape, Control, Reply, gives, Call}
use hxroot.Config.{Hx}
use hxroot.Base.{ℕ, ◌≡◌, [], arith, ◌+◌, refl, inl, inr, List, ◌∷◌, replicate}
use hxroot.Tests.{jail, giving, answer}

abbrev a_host : Kernel
a_host = giving []

setuid-getuid_example :
    (h' : Hx) × (s' : ℕ) × (setuid a_host jail 7 0 ≡ (ok h', s'))
    × (getuid a_host h' s' ≡ (ok 7, s'))
    × (geteuid a_host h' s' ≡ (ok 7, s'))
    × (getresuid a_host h' s' ≡ (ok (7, 7, 7), s'))
    × (h'.gid ≡ jail.gid)
    × (h'.root ≡ jail.root)
setuid-getuid_example = setuid-getuid a_host jail 7 0 (λ e. ground arith)

-- A host from which a message with rights and one with credentials are received.
abbrev received : List Control
received =
    record { level = 1; cmsg_type = 1; contents = 3 ∷ [] }
    ∷ record { level = 1; cmsg_type = 2; contents = replicate 12 9 }
    ∷ []

abbrev receiving_real : (r : Shape) → Call → ℕ → Result (Reply r) × ℕ
receiving_real Shape.controls c s = (gives (20, received), s + 1)
receiving_real r c s = (gives (answer 4 [] r), s + 1)

abbrev receiving : Kernel
receiving = record { State = ℕ; real = receiving_real }

recvmsg-AllSeen_example :
    (cs' : List Control) × (recvmsg receiving jail 5 0 0 ≡ (ok (20, cs'), 1))
    × AllSeen jail received cs'
recvmsg-AllSeen_example =
    recvmsg-AllSeen receiving jail (omega arith) (omega arith) 5 0 20 received 0 1 (omega arith)
      (omega arith) refl (inl (omega arith), (inr (omega arith), tt))
