-- ===== src/Sem/FutexProgress.antt =====
-- Single accesses of the word of the mutex of src/sysvsem.c, and who holds it.
use hxroot.Base.{ℕ, ◌≡◌, refl, ◌≢◌, ◌⊎◌, inl, inr, arith}
use hxroot.Sem.Futex.{
  FutexState, unlocked, locked, contended, holding, System, Reach, here, next, step, advance,
}
use hxroot.Sem.FutexLaws.{no_fast_path}

-- A word that is `CONTENDED` has a holder.
pub record Held (s : System) : Type 0 where
  pub holder : s.word ≡ contended → (j : ℕ) × (s.pc j ≡ holding)

pub step_self : (s : System) (i : ℕ) → (step s i).pc i ≡ (advance s.word (s.pc i)).1
step_self s i = ground arith

pub step_other : (s : System) (i j : ℕ) → i ≢ j → (step s i).pc j ≡ s.pc j
step_other s i j ne = ground arith

still_held :
    (s : System) (i : ℕ) → (step s i).word ≡ contended → s.word ≡ contended → s.pc i ≢ holding
unfolding advance
still_held s i e w h = ground arith

enters :
    (s : System) (i : ℕ)
    → (step s i).word ≡ contended
    → s.word ≢ contended
    → s.word ≢ locked
    → (step s i).pc i ≡ holding
unfolding advance
enters s i e w l = ground arith

pub is_contended : (m : FutexState) → (m ≡ contended) ⊎ (m ≢ contended)
is_contended unlocked = inr (λ e. cc)
is_contended locked = inr (λ e. cc)
is_contended contended = inl refl

pub Reach-Held : {s : System} → Reach s → Held s
Reach-Held here = record { holder = λ e. cc }
Reach-Held (next {s} r i) = record {
  holder = λ e. elim (is_contended s.word) [
    | inl w ↦
        let (j, h) = (Reach-Held r).holder w in
        let ne : i ≢ j = λ q. still_held s i e w (rw q h) in (j, rw (step_other s i j ne) h)
    | inr w ↦ (i, enters s i e w (no_fast_path i r).0)
  ];
}

pub unlocks :
    (s : System) (j : ℕ) → s.word ≡ contended → s.pc j ≡ holding → (step s j).word ≡ unlocked
unfolding advance
unlocks s j w h = ground arith

pub is_unlocked : (m : FutexState) → m ≢ locked → m ≢ contended → m ≡ unlocked
is_unlocked unlocked l c = refl
is_unlocked locked l c = absurd (l refl)
is_unlocked contended l c = absurd (c refl)
