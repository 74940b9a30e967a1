-- ===== src/Answers/Contracts.antt =====
-- The values of generation/contracts.py with their validators. A citation id is a number, as in
-- retrieval/context.py; `blank` tells the texts that `strip` empties.
use ai_powered_codebase_engi.Prelude.{
  ℕ, ◌&&◌, not, Bool, true, false, Option, none, some, List, [], ◌∷◌, leb, length, all, any,
  is_none,
}
use ai_powered_codebase_engi.Runs.Model.{Text}

pub record Claim : Type 0 where
  pub text : Text
  pub citation_ids : List ℕ

pub data DraftStatus : Type 0 where
  answered insufficient_evidence : DraftStatus

abbrev pub is_answered : DraftStatus → Bool
is_answered answered = true
is_answered insufficient_evidence = false

pub record AnswerDraft : Type 0 where
  pub status : DraftStatus
  pub claims : List Claim
  pub limitation : Text

pub record GenerationResult : Type 0 where
  pub model : Text
  pub draft : Option AnswerDraft
  pub refused : Bool
  pub input_tokens : ℕ
  pub output_tokens : ℕ

abbrev pub within : ℕ → ℕ → ℕ → Bool
within low high n = leb low n && leb n high

abbrev pub is_some_claim : List Claim → Bool
is_some_claim [] = false
is_some_claim (c ∷ cs) = true

abbrev pub same_bool : Bool → Bool → Bool
same_bool true b = b
same_bool false b = not b

module _ (blank : Text → Bool) where
  unfoldable pub is_claim : Claim → Bool
  is_claim c = within 1 1800 (length c.text) && within 1 8 (length c.citation_ids)

  -- The fields, then `check_status`
  unfoldable pub is_draft : AnswerDraft → Bool
  unfolding is_claim
  is_draft d =
      all is_claim d.claims
      && (leb (length d.claims) 8
          && (leb (length d.limitation) 1200
              && (same_bool (is_answered d.status) (is_some_claim d.claims)
                  && (not (not (is_answered d.status) && blank d.limitation)
                      && not (any (λ (c : Claim). blank c.text) d.claims)))))

  unfoldable pub is_optional_draft : Option AnswerDraft → Bool
  unfolding is_draft
  is_optional_draft none = true
  is_optional_draft (some d) = is_draft d

  -- The fields, then `check_result`
  unfoldable pub is_result : GenerationResult → Bool
  unfolding is_optional_draft
  is_result r =
      within 1 100 (length r.model)
      && (is_optional_draft r.draft && same_bool r.refused (is_none r.draft))
