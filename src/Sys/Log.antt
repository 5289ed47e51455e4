-- ===== src/Sys/Log.antt =====
-- A kernel that keeps a log of the host calls, newest first: the host is the same, and what a
-- wrapper did can be read off the log.
use hxroot.Base.{List, ◌∷◌}
use hxroot.Sys.{Call, Kernel}

abbrev pub logged : Kernel → Kernel
logged K = record {
  State = List Call × K.State;
  real = λ r c t. ((K.real r c t.1).0, (c ∷ t.0, (K.real r c t.1).1));
}
