-- ===== src/InMemory/Stage.antt =====
-- What a successful staging run has put together.
use mnesis.Base.{ℕ, suc, ◌+◌, ◌≤◌, ◌<◌, ◌≡◌, refl, sym, ◌⊎◌, inl, inr, List, [], ◌∷◌, arith, length}
use mathlib.Core.Path.{subst}
use mnesis.Base.Words.{u64_max}
use mnesis.Base.Result.{ok, >>=-eq-ok, ok_or}
use mnesis.Store.Value.{FromUtf8}
use mnesis.Store.Envelope.{PendingEnvelope, IsPending}
use mnesis.InMemory.Frame.{
  StoredFrame, global_seq_overflow, Holds, encode-Holds, encode_pending_to_frame,
}
use mnesis.InMemory.Store.{Staged, stage, cons_row, next_pos, frames}

-- The rows hold the envelopes, in order.
abbrev pub AllHold : FromUtf8 → List StoredFrame → List PendingEnvelope → Type 0
AllHold u [] [] = Unit
AllHold u [] (e ∷ es) = ⊥
AllHold u (f ∷ fs) [] = ⊥
AllHold u (f ∷ fs) (e ∷ es) = Holds u f e × AllHold u fs es

abbrev pub AllPending : FromUtf8 → List PendingEnvelope → Type 0
AllPending u [] = Unit
AllPending u (e ∷ es) = IsPending u e × AllPending u es

-- Consecutive positions from `seq` on.
abbrev pub ArePositions : ℕ → List (ℕ × StoredFrame) → Type 0
ArePositions seq [] = Unit
ArePositions seq ((pos, frame) ∷ rows) = (pos ≡ seq) × ArePositions (suc seq) rows

pub record IsStaged (u : FromUtf8) (seq last_assigned : ℕ) (envs : List PendingEnvelope)
    (s : Staged) : Type 0 where
  pub positions : ArePositions seq s.rows
  pub next : s.seq ≡ seq + length envs
  pub bound : s.seq ≤ u64_max
  pub held : AllHold u (frames s.rows) envs
  pub last : (suc last_assigned ≡ seq) ⊎ (0 < length envs) → suc s.last_assigned ≡ s.seq

stage_step :
    (seq last : ℕ) (env : PendingEnvelope) (envs : List PendingEnvelope) (s : Staged)
    → stage seq last (env ∷ envs) ≡ ok s
    → (frame : StoredFrame) × (t : Staged) × (encode_pending_to_frame env ≡ ok frame)
      × (suc seq ≤ u64_max)
      × (stage (suc seq) seq envs ≡ ok t)
      × (s ≡ cons_row seq frame t)
unfolding stage
stage_step seq last env envs s h =
    let (frame, enc, h') = >>=-eq-ok (encode_pending_to_frame env) _ h in
    let (seq', more, h'') = >>=-eq-ok (ok_or (next_pos seq) global_seq_overflow) _ h' in
    let e : seq' ≡ suc seq = ground arith in
    let (t, rest, last_) = >>=-eq-ok (stage seq' seq envs) _ h'' in
    (frame, t, enc, ground arith, rw (← e) rest, ground arith)

stage_nil :
    (seq last : ℕ) (s : Staged)
    → stage seq last [] ≡ ok s
    → record { rows = []; seq = seq; last_assigned = last } ≡ s
unfolding stage
stage_nil seq last s h = ground arith

-- Staging a run of well-formed envelopes, with a counter within `u64`, when it succeeds, gives them
-- consecutive positions from the counter on, leaves the counter behind the last of them and within
-- `u64`, and every row reads back.
pub stage-IsStaged :
    (u : FromUtf8) (envs : List PendingEnvelope) (seq last : ℕ) (s : Staged)
    → AllPending u envs
    → seq ≤ u64_max
    → stage seq last envs ≡ ok s
    → IsStaged u seq last envs s
stage-IsStaged u [] seq last s p top h =
    subst (IsStaged u seq last []) (stage_nil seq last s h) (record {
      positions = tt;
      next = omega arith;
      bound = top;
      held = tt;
      last = elim [ inl e ↦ e | inr more ↦ absurd (omega arith) ];
    })
stage-IsStaged u (env ∷ envs) seq last s p top h =
    let (frame, t, enc, more, rest, e) = stage_step seq last env envs s h in
    let i = stage-IsStaged u envs (suc seq) seq t p.1 more rest in
    subst (IsStaged u seq last (env ∷ envs)) (sym e) (record {
      positions = (refl, i.positions);
      next = omega (arith, i.next);
      bound = i.bound;
      held = (encode-Holds u env frame p.0 enc, i.held);
      last = λ _. i.last (inl refl);
    })
