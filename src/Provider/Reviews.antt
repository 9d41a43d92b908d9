-- ===== src/Provider/Reviews.antt =====
-- The reviews of an anomaly (`analysis` of analysis.go).
use agro_chain.Base.{
  String, Bool, true, false, [], ◌∷◌, ◌++◌, ◌||◌, ◌≡◌, ◌≢◌, ◌∙◌, sym, subst, ap, arith, ◌==◌,
  eq_iff, or-eq-false, eq_of_not-ne,
}
use agro_chain.Codes.{ok, from_bind, from_guard, ok-injective}
use agro_chain.Model.{Bytes, Command, Batch, PrivateWrite, retail_reported}
use agro_chain.Model.Evidence.{AnomalyRecord, ReviewInput}
use agro_chain.Model.Evidence.Zero.{zero_anomaly_record}
use agro_chain.Platform.{Platform, Codec, key, canonical}
use agro_chain.Ledger.{Ledger}
use agro_chain.Step.{Execution, Verified}
use agro_chain.Provider.{Transient, private_load, add_private}
use agro_chain.Provider.Review.{next_review, analysed, action_of, review_evidence}

new_salt : (s i a : String) → (s == i || s == a) ≡ false → s ≢ a
new_salt s i a h e =
    let bad : (s == a) ≡ true = (eq_iff s a).1 e in
    let other = (or-eq-false (s == i) (s == a) h).1 in ground arith

-- What a private write adds.
add_private-Added :
    (p : Platform) {A : Type 0} (codec : Codec A) (collection k : String) (value : A)
    (v v' : Verified)
    → add_private p codec collection k value v ≡ ok v'
    → (raw : Bytes) × (canonical p codec value ≡ ok raw)
      × (v'.private ≡ v.private ++ record { collection = collection; key = k; value = raw } ∷ [])
unfolding add_private
add_private-Added p codec collection k value v v' h =
    from_bind _ _ h
      λ raw made h₁. (raw, made, ap (λ (z : Verified). z.private) (sym (ok-injective h₁)))

module _ (p : Platform) (s : Ledger) (t : Transient) (c : Command) (x : Execution) (b : Batch) where
  -- The review state before and behind a review action; `true` is ResolveReview.
  abbrev pub review_before : Bool → String
  review_before false = "OPEN"
  review_before true = "IN_REVIEW"

  abbrev pub review_after : Bool → String
  review_after false = "IN_REVIEW"
  review_after true = "RESOLVED"

  next_review-states :
      (is_resolve : Bool) (i : ReviewInput) (state state' : String)
      → next_review is_resolve i state ≡ ok state'
      → (state ≡ review_before is_resolve) × (state' ≡ review_after is_resolve)
  unfolding next_review
  next_review-states false i state state' h =
      from_guard _ _ _ h λ before h₁. (eq_of_not-ne _ _ before, sym (ok-injective h₁))
  next_review-states true i state state' h =
      from_guard _ _ _ h
        λ before h₁. from_guard _ _ _ h₁ λ _ h₂. (eq_of_not-ne _ _ before, sym (ok-injective h₂))

  -- The private writes of a review action.
  abbrev action_write : Bytes → PrivateWrite
  action_write raw = record {
    collection = "retailAuditPrivate";
    key = key p "reviewAction" ((analysed p s t c x b).anomaly_id ∷ c.operation_id ∷ []);
    value = raw;
  }

  abbrev anomaly_write : Bytes → PrivateWrite
  anomaly_write raw = record {
    collection = "retailAuditPrivate";
    key = key p "anomaly" ((analysed p s t c x b).anomaly_id ∷ []);
    value = raw;
  }

  -- A review action that is accepted.
  pub record Reviewed (is_resolve : Bool) (v : Verified) : Type 0 where
    pub state : b.state ≡ retail_reported
    pub anomaly : AnomalyRecord
    pub loaded :
        private_load p.anomaly_record zero_anomaly_record s "retailAuditPrivate"
          (key p "anomaly" ((analysed p s t c x b).anomaly_id ∷ []))
        ≡ ok anomaly
    pub required : anomaly.score.classification ≡ "REVIEW_REQUIRED"
    pub before : anomaly.review_state ≡ review_before is_resolve
    pub input : ReviewInput
    pub salt : String
    pub renewed : salt ≢ anomaly.salt
    pub action_bytes : Bytes
    pub action :
        canonical p p.review_action (action_of p s t c x b is_resolve input) ≡ ok action_bytes
    pub anomaly_bytes : Bytes
    pub rewritten :
        canonical p p.anomaly_record
          (record anomaly { review_state = review_after is_resolve; salt = salt })
        ≡ ok anomaly_bytes
    pub written : v.private ≡ action_write action_bytes ∷ anomaly_write anomaly_bytes ∷ []

  -- OpenReview takes the review of a stored anomaly that requires one from open to in review, and
  -- ResolveReview from in review to resolved; nothing else of the anomaly changes but its salt, which
  -- is a new one. The private writes are that anomaly and the record of the action, and no other.
  pub review_evidence-Reviewed :
      (is_resolve : Bool) (v : Verified)
      → review_evidence p s t c x b is_resolve ≡ ok v
      → Reviewed is_resolve v
  unfolding review_evidence
  review_evidence-Reviewed is_resolve v h = from_guard _ _ _ h λ state h₁.
      from_guard _ _ _ h₁ λ _ h₂. from_bind _ _ h₂ λ _ _ h₃. from_guard _ _ _ h₃ λ _ h₄.
        from_bind _ _ h₄ λ a loaded h₅. from_guard _ _ _ h₅ λ required h₆.
          from_bind _ _ h₆ λ input _ h₇. from_guard _ _ _ h₇ λ _ h₈. from_bind _ _ h₈ λ salt _ h₉.
            from_guard _ _ _ h₉ λ stale g₁. from_bind _ _ g₁ λ next moved g₂.
              from_bind _ _ g₂ λ acted act g₃. from_bind _ _ g₃ λ plan _ g₄.
                let (before, after) =
                  next_review-states is_resolve input a.review_state next moved in
                let (first, first_made, one) = add_private-Added p _ _ _ _ _ acted act in
                let (second, second_made, two) = add_private-Added p _ _ _ _ _ v g₄ in
                record {
                  state = eq_of_not-ne _ _ state;
                  anomaly = a;
                  loaded = loaded;
                  required = eq_of_not-ne _ _ required;
                  before = before;
                  input = input;
                  salt = salt;
                  renewed = new_salt salt input.salt a.salt stale;
                  action_bytes = first;
                  action = first_made;
                  anomaly_bytes = second;
                  rewritten =
                      subst
                        (λ z.
                          canonical p p.anomaly_record (record a { review_state = z; salt = salt })
                          ≡ ok second)
                        after second_made;
                  written = two ∙ ap (λ ws. ws ++ anomaly_write second ∷ []) one;
                }
