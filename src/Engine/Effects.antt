-- ===== src/Engine/Effects.antt =====
-- What `apply` stages, on success and on every error.
use agro_chain.Base.{
  String, Bool, true, false, not, ◌&&◌, List, [], ◌∷◌, ◌++◌, map, ◌≡◌, ◌≢◌, refl, ◌∙◌, ap, arith,
}
use agro_chain.Codes.{Code, Result, ok, err, internal_error, err-injective, ◌>>=◌}
use agro_chain.Model.{Bytes, Command, Batch, EvidenceRefs, Receipt, Event, PrivateWrite}
use agro_chain.Platform.{Platform, Codec, canonical, or_fail}
use agro_chain.Ledger.{Op, emit, Ledger, WritePlan, planned, stage, plan_ops, flush}
use agro_chain.Ledger.Plan.{committed, committed-append, after_plan, stage-all, committed-flush}
use agro_chain.Step.{Execution, Verified}
use agro_chain.Engine.{
  Draft, has_any, answer, private_op, decide, finish, write_all, write_decided, apply,
}

canonical-err :
    (p : Platform) {A : Type 0} (codec : Codec A) (v : A) (e : Code)
    → canonical p codec v ≡ err e
    → e ≡ internal_error
unfolding canonical ◌>>=◌ or_fail
canonical-err p codec v e h = ground arith

stage-err : (s : Ledger) (os : List Op) (e : Code) → (stage s os).0 ≡ err e → e ≡ internal_error
unfolding stage
stage-err s [] e h = ground arith
stage-err s (o ∷ os) e h = split (s.refuses o) refl (stage-err s os e)
  where
    split :
        (b : Bool)
        → s.refuses o ≡ b
        → ((stage s os).0 ≡ err e → e ≡ internal_error)
        → e ≡ internal_error
    split true q ih = let bad : err internal_error ≡ err e = rw (q, stage) at h in ground arith
    split false q ih = ih (rw (q, stage) at h)

flush-err :
    (p : Platform) (s : Ledger) (plan : WritePlan) (event : Event) (e : Code)
    → (flush p s plan event).0 ≡ err e
    → e ≡ internal_error
unfolding flush
flush-err p s plan event e h = go (canonical p p.event event) refl
  where
    go : (r : Result Bytes) → canonical p p.event event ≡ r → e ≡ internal_error
    go (err x) eq =
        let same : err x ≡ err e = rw (eq, flush) at h in
        let e' : e ≡ x = ground arith in e' ∙ canonical-err p p.event event x eq
    go (ok b) eq =
        stage-err s (plan_ops plan ++ emit event.event_type b ∷ []) e (rw (eq, flush) at h)

committed-private :
    (ws : List PrivateWrite) (w : String → Bytes) (k : String)
    → committed (map private_op ws) w k ≡ w k
unfolding private_op
committed-private [] w k = refl
committed-private (x ∷ ws) w k = committed-private ws w k

module _ (p : Platform) (s : Ledger) where
  finish-ok :
      (d : Draft) (r : Receipt) (os : List Op) (staged : Result (Unit {0}) × List Op)
      (w : String → Bytes) (k : String)
      → (staged.0 ≡ ok tt → staged.1 ≡ os)
      → committed os w k ≡ w k
      → (finish p s d staged).0 ≡ ok r
      → (d.receipt ≡ r)
        × (committed (finish p s d staged).1 w k ≡ after_plan (planned k d.plan) (w k))
  unfolding finish
  finish-ok d r os (err e, ops) w k whole same h =
      absurd (let bad : err e ≡ ok r = h in ground arith)
  finish-ok d r os (ok _, ops) w k whole same h = go (flush p s d.plan d.event).0 refl h
    where
      go :
          (f : Result (Unit {0}))
          → (flush p s d.plan d.event).0 ≡ f
          → answer d.receipt (flush p s d.plan d.event).0 ≡ ok r
          → (d.receipt ≡ r)
            × (committed (ops ++ (flush p s d.plan d.event).1) w k
                ≡ after_plan (planned k d.plan) (w k))
      go (err e) q h' = absurd (let bad : err e ≡ ok r = rw (q, answer) at h' in ground arith)
      go (ok _) q h' = (
        let good : ok d.receipt ≡ ok r = rw (q, answer) at h' in ground arith,
        committed-append ops (flush p s d.plan d.event).1 w k
            ∙ committed-flush p s d.plan d.event (committed ops w) k q
            ∙ ap (after_plan (planned k d.plan)) (rw (whole refl) same),
      )

  -- The world state that the operations of an accepted draft leave.
  write_all-ok :
      (d : Draft) (r : Receipt) (w : String → Bytes) (k : String)
      → (write_all p s d).0 ≡ ok r
      → (d.receipt ≡ r) × (committed (write_all p s d).1 w k ≡ after_plan (planned k d.plan) (w k))
  unfolding write_all
  write_all-ok d r w k h = go (has_any d.private && not s.has_private) refl
    where
      go :
          (b : Bool)
          → (has_any d.private && not s.has_private) ≡ b
          → (d.receipt ≡ r)
            × (committed (write_all p s d).1 w k ≡ after_plan (planned k d.plan) (w k))
      go true q =
          absurd (let bad : err internal_error ≡ ok r = rw (q, write_all) at h in ground arith)
      go false q =
          rw (q, write_all)
            (finish-ok d r (map private_op d.private) (stage s (map private_op d.private)) w k
              (stage-all s (map private_op d.private)) (committed-private d.private w k)
              (rw (q, write_all) at h))

  finish-err :
      (d : Draft) (e : Code) (staged : Result (Unit {0}) × List Op)
      → (staged.0 ≡ err e → e ≡ internal_error)
      → (finish p s d staged).0 ≡ err e
      → e ≡ internal_error
  unfolding finish
  finish-err d e (err x, ops) bad h = bad (ap err (err-injective h))
  finish-err d e (ok _, ops) bad h = go (flush p s d.plan d.event).0 refl
    where
      go : (f : Result (Unit {0})) → (flush p s d.plan d.event).0 ≡ f → e ≡ internal_error
      go (err x) q =
          let same : err x ≡ err e = rw (q, answer) at h in
          let e' : x ≡ e = ground arith in flush-err p s d.plan d.event e (q ∙ ap err e')
      go (ok _) q = absurd (let no_err : ok d.receipt ≡ err e = rw (q, answer) at h in ground arith)

  write_all-err : (d : Draft) (e : Code) → (write_all p s d).0 ≡ err e → e ≡ internal_error
  unfolding write_all
  write_all-err d e h = go (has_any d.private && not s.has_private) refl
    where
      go : (b : Bool) → (has_any d.private && not s.has_private) ≡ b → e ≡ internal_error
      go true q = let same : err internal_error ≡ err e = rw (q, write_all) at h in ground arith
      go false q =
          finish-err d e (stage s (map private_op d.private))
            (stage-err s (map private_op d.private) e) (rw (q, write_all) at h)

  module _ (prepare : Command → Batch → EvidenceRefs → Result Verified) (c : Command)
      (x : Execution) where
    -- An accepted command has a draft: its receipt is the answer, and its plan is what the commit of
    -- the staged operations does to every key.
    pub apply-ok :
        (r : Receipt)
        → (apply p s prepare c x).0 ≡ ok r
        → (d : Draft) × (decide p s prepare c x ≡ ok d)
          × (d.receipt ≡ r)
          × ((w : String → Bytes) (k : String)
              → committed (apply p s prepare c x).1 w k ≡ after_plan (planned k d.plan) (w k))
    unfolding apply
    apply-ok r h = go (decide p s prepare c x) refl h
      where
        go :
            (z : Result Draft)
            → decide p s prepare c x ≡ z
            → (write_decided p s (decide p s prepare c x)).0 ≡ ok r
            → (d : Draft) × (decide p s prepare c x ≡ ok d)
              × (d.receipt ≡ r)
              × ((w : String → Bytes) (k : String)
                  → committed (write_decided p s (decide p s prepare c x)).1 w k
                    ≡ after_plan (planned k d.plan) (w k))
        go (err e) q h' =
            absurd (let bad : err e ≡ ok r = rw (q, write_decided) at h' in ground arith)
        go (ok d) q h' =
            let fine : (write_all p s d).0 ≡ ok r = rw (q, write_decided) at h' in
            (
              d,
              q,
              (write_all-ok d r (λ k. []) "" fine).0,
              λ w k. rw (q, write_decided) ((write_all-ok d r w k fine).1),
            )

    -- Every error but INTERNAL_ERROR comes before the first write: nothing is staged on the stub,
    -- neither in the world state nor in private data, and no event is set.
    pub apply_rejection :
        (e : Code)
        → (apply p s prepare c x).0 ≡ err e
        → e ≢ internal_error
        → (apply p s prepare c x).1 ≡ []
    unfolding apply
    apply_rejection e h other = go (decide p s prepare c x) refl
      where
        go :
            (z : Result Draft)
            → decide p s prepare c x ≡ z
            → (write_decided p s (decide p s prepare c x)).1 ≡ []
        go (err y) q = rw (q, write_decided) refl
        go (ok d) q =
            let bad : (write_all p s d).0 ≡ err e = rw (q, write_decided) at h in
            absurd (other (write_all-err d e bad))
