-- ===== src/Engine/Staged.antt =====
-- What `apply` stages on a stub that refuses nothing.
use agro_chain.Base.{
  if◌then◌else◌, Bool, true, false, not, ◌&&◌, List, [], ◌∷◌, ◌++◌, map, ◌≡◌, refl, ◌∙◌, ap,
}
use agro_chain.Codes.{internal_error, Result, ok, err}
use agro_chain.Model.{Bytes, Command, Batch, EvidenceRefs}
use agro_chain.Platform.{Platform, canonical}
use agro_chain.Ledger.{Op, emit, Ledger, stage, plan_ops, flush}
use agro_chain.Step.{Execution, Verified}
use agro_chain.Engine.{
  Draft, has_any, answer, private_op, decide, finish, write_all, write_decided, apply,
}

-- A stub with private data that takes every operation.
pub record Willing (s : Ledger) : Type 0 where
  pub takes : (o : Op) → s.refuses o ≡ false
  pub private : s.has_private ≡ true

stage-Willing : (s : Ledger) → Willing s → (os : List Op) → stage s os ≡ (ok tt, os)
unfolding stage
stage-Willing s w [] = refl
stage-Willing s w (o ∷ os) = rw (w.takes o, stage) (rw (stage-Willing s w os) refl)

no_refusal : (b : Bool) → (b && not true) ≡ false
no_refusal true = refl
no_refusal false = refl

module _ (p : Platform) (s : Ledger) (w : Willing s) (d : Draft) where
  all_written : write_all p s d ≡ finish p s d (ok tt, map private_op d.private)
  unfolding write_all
  all_written =
      ap
        (λ b.
          if has_any d.private && not b
          then (err internal_error, [])
          else finish p s d (stage s (map private_op d.private)))
        w.private
      ∙ ap
          (λ b.
            if b
            then (err internal_error, [])
            else finish p s d (stage s (map private_op d.private)))
          (no_refusal (has_any d.private))
      ∙ ap (finish p s d) (stage-Willing s w (map private_op d.private))

  all_flushed :
      (event : Bytes)
      → canonical p p.event d.event ≡ ok event
      → flush p s d.plan d.event ≡ (ok tt, plan_ops d.plan ++ emit d.event.event_type event ∷ [])
  unfolding flush plan_ops
  all_flushed event printed = rw (printed, flush) (stage-Willing s w _)

-- A command that the engine has decided is not lost: on a stub that refuses nothing and for an event
-- that can be serialised it is accepted with the receipt that was decided, and it stages exactly the
-- private writes, then the writes and deletions of the plan, then the event.
pub apply_completes :
    (p : Platform) (s : Ledger) (prepare : Command → Batch → EvidenceRefs → Result Verified)
    (c : Command) (x : Execution) (d : Draft) (event : Bytes)
    → Willing s
    → decide p s prepare c x ≡ ok d
    → canonical p p.event d.event ≡ ok event
    → apply p s prepare c x ≡ (
      ok d.receipt,
      map private_op d.private ++ (plan_ops d.plan ++ emit d.event.event_type event ∷ []),
    )
unfolding apply write_decided finish answer
apply_completes p s prepare c x d event w decided printed = rw decided (
    all_written p s w d
    ∙ ap
        (λ (f : Result (Unit {0}) × List Op).
          (answer d.receipt f.0, map private_op d.private ++ f.1))
        (all_flushed p s w d event printed))
