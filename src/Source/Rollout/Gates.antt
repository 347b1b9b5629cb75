-- ===== src/Source/Rollout/Gates.antt =====
-- What the gates of backend/candidate_eligibility.py and backend/source_rollout.py let through.
use x_bray.Base.{
  ℕ, String, Bool, true, false, Option, none, some, List, [], ◌∷◌, ◌++◌, ◌≡◌, refl, ◌∙◌, arith,
  ◌==◌, ◌&&◌, not, leb, is_none, is_after, any_where, count_where, Bool-cases, inl, inr,
}
use x_bray.Refresh.Models.{open_, AccessRow}
use x_bray.Source.Circuit.{admits}
use x_bray.Source.Table.{lookup}
use x_bray.Source.Rollout.{
  CandidateProfile, CandidateApproval, Digests, is_licensed, evidence_blocker, selected_blocker,
  blocker_of, or_lookup, approval_blocker,
}
use x_bray.Source.Rollout.Readiness.{
  FallbackMode, is_off, is_cooling, is_evidence_valid, noted, first_blockers, with_blocker,
  is_empty, first_contract, candidate_readiness, candidate_key, readiness_of_all,
  readiness_snapshot,
}

is_empty-append : (xs ys : List String) → is_empty (xs ++ ys) ≡ (is_empty xs && is_empty ys)
is_empty-append [] ys = refl
is_empty-append (x ∷ xs) ys = refl

is_empty-noted : (c : Bool) (text : String) → is_empty (noted c text) ≡ not c
is_empty-noted true text = refl
is_empty-noted false text = refl

is_empty-with_blocker :
    (blocker : Option String) (xs : List String)
    → is_empty (with_blocker blocker xs) ≡ (is_none blocker && is_empty xs)
unfolding any_where
is_empty-with_blocker none xs = refl
is_empty-with_blocker (some blocker) [] = refl
is_empty-with_blocker (some blocker) (x ∷ xs) = ground arith

-- What the gates of an approval have in common with those of the readiness.
abbrev is_complete : CandidateProfile → CandidateApproval → Bool
is_complete profile selected =
    profile.enabled_for_ingestion
    && not (is_none profile.adapter)
    && profile.code_reviewed
    && is_licensed profile selected
    && is_evidence_valid (some selected)

evidence_blocker-none :
    (profile : CandidateProfile) (selected : CandidateApproval)
    → is_none (evidence_blocker profile selected) ≡ true
    → (is_licensed profile selected
        && leb 10 selected.distinct_references
        && not (selected.latest_reference == ""))
      ≡ true
evidence_blocker-none profile selected h = ground (arith, h)

selected_blocker-none :
    (digests : Digests) (profile : CandidateProfile) (selected : CandidateApproval)
    (contract_id : String)
    → is_none (selected_blocker digests profile selected contract_id) ≡ true
    → is_complete profile selected ≡ true
selected_blocker-none digests profile selected contract_id h = ground (arith, h)

module _ (digests : Digests) (profile : CandidateProfile) (mode : FallbackMode)
    (mode_configuration_error : Bool) (candidate_state : Option AccessRow) (now : ℕ) where
  -- The gates that are asked of the mode, the evidence, the approval and the access, once each.
  abbrev is_open_to : Option String → Bool
  is_open_to blocker =
      not mode_configuration_error
      && not (is_off mode)
      && not (is_none profile.official_evidence_url)
      && is_none blocker
      && not (is_cooling now candidate_state)

  abbrev last_blockers : List String
  last_blockers =
      noted (not profile.enabled_for_ingestion) "candidate_ingestion_disabled"
      ++ (noted (not profile.code_reviewed) "candidate_code_unreviewed"
          ++ noted (is_cooling now candidate_state) "candidate_circuit_or_quota_cooldown")

  is_empty-last_blockers : is_empty last_blockers ≡ (
      profile.enabled_for_ingestion
      && profile.code_reviewed
      && not (is_cooling now candidate_state))
  is_empty-last_blockers =
      rw
        (
          is_empty-append (noted (not profile.enabled_for_ingestion) "candidate_ingestion_disabled")
              (noted (not profile.code_reviewed) "candidate_code_unreviewed"
                ++ noted (is_cooling now candidate_state) "candidate_circuit_or_quota_cooldown"),
          is_empty-append (noted (not profile.code_reviewed) "candidate_code_unreviewed")
              (noted (is_cooling now candidate_state) "candidate_circuit_or_quota_cooldown"),
        )
        (ground arith)

  is_empty-first_blockers :
      (selected : CandidateApproval)
      → is_empty (first_blockers profile (some selected) mode mode_configuration_error) ≡ (
          not mode_configuration_error
          && not (is_off mode)
          && not (is_none profile.adapter)
          && not (is_none profile.official_evidence_url)
          && is_licensed profile selected
          && is_evidence_valid (some selected))
  is_empty-first_blockers selected = ground arith

  is_empty-all_blockers :
      (blocker : Option String) (firsts : List String)
      → is_empty (with_blocker blocker firsts ++ last_blockers) ≡ (
          is_none blocker
          && is_empty firsts
          && (profile.enabled_for_ingestion
              && profile.code_reviewed
              && not (is_cooling now candidate_state)))
  is_empty-all_blockers blocker firsts =
      is_empty-append (with_blocker blocker firsts) last_blockers
      ∙ (rw (is_empty-with_blocker blocker firsts, is_empty-last_blockers) refl)

  blockers-open :
      (approval : Option CandidateApproval) (contract_id : String)
      → is_empty (
          with_blocker
            (blocker_of digests profile approval contract_id)
            (first_blockers profile approval mode mode_configuration_error)
          ++ last_blockers)
        ≡ is_open_to (blocker_of digests profile approval contract_id)
  blockers-open none contract_id =
      is_empty-all_blockers (some "no_static_candidate_approval")
        (first_blockers profile none mode mode_configuration_error)
      ∙ ground arith
  blockers-open (some selected) contract_id =
      is_empty-all_blockers (selected_blocker digests profile selected contract_id)
        (first_blockers profile (some selected) mode mode_configuration_error)
      ∙ elim (Bool-cases (is_none (selected_blocker digests profile selected contract_id))) [
        | inl e ↦ ground (
          arith,
          e,
          is_empty-first_blockers selected,
          selected_blocker-none digests profile selected contract_id e,
        )
        | inr e ↦ ground (arith, e)
      ]

or_lookup-found :
    (found : Option CandidateApproval) (id : String) (approvals : List (String × CandidateApproval))
    → lookup id approvals ≡ found
    → or_lookup found id approvals ≡ found
or_lookup-found none id approvals h = h
or_lookup-found (some approval) id approvals h = refl

-- A candidate is ready where the mode was read without an error and is not off, the profile has a
-- link to official evidence, `approval_blocker` finds no reason against its approval, and its access is
-- not cooling down; all the other gates of the readiness follow from those of the approval.
pub candidate_readiness-gates :
    (digests : Digests) (profile : CandidateProfile) (mode : FallbackMode)
    (mode_configuration_error : Bool) (approvals : List (String × CandidateApproval))
    (candidate_state : Option AccessRow) (now : ℕ)
    → (candidate_readiness digests profile mode mode_configuration_error approvals candidate_state
        now).ready
      ≡ (not mode_configuration_error
          && not (is_off mode)
          && not (is_none profile.official_evidence_url)
          && is_none (
              approval_blocker digests profile
                (lookup profile.candidate_id approvals)
                (first_contract profile.source_contract_ids)
                approvals)
          && not (is_cooling now candidate_state))
unfolding candidate_readiness approval_blocker
candidate_readiness-gates digests profile mode mode_configuration_error approvals candidate_state
      now =
    rw (or_lookup-found (lookup profile.candidate_id approvals) profile.candidate_id approvals refl)
      (blockers-open digests profile mode mode_configuration_error candidate_state now
        (lookup profile.candidate_id approvals) (first_contract profile.source_contract_ids))

unapproved_is_not_ready :
    (digests : Digests) (profile : CandidateProfile) (mode : FallbackMode) (error : Bool)
    (candidate_state : Option AccessRow) (now : ℕ)
    → (candidate_readiness digests profile mode error [] candidate_state now).ready ≡ false
unfolding approval_blocker lookup
unapproved_is_not_ready digests profile mode error candidate_state now =
    candidate_readiness-gates digests profile mode error [] candidate_state now ∙ ground arith

nobody_is_ready :
    (digests : Digests) (registry : List CandidateProfile) (mode : FallbackMode) (error : Bool)
    (access_states : List (String × AccessRow)) (now : ℕ)
    → count_where
        (λ candidate. candidate.ready)
        (readiness_of_all digests registry mode error [] access_states now)
      ≡ 0
unfolding readiness_of_all count_where
nobody_is_ready digests [] mode error access_states now = refl
nobody_is_ready digests (profile ∷ profiles) mode error access_states now = ground (
  arith,
  unapproved_is_not_ready digests profile mode error (lookup (candidate_key profile) access_states)
      now,
  nobody_is_ready digests profiles mode error access_states now,
)

-- As long as no approval is written into the code, no candidate of any registry is ready, in any mode
-- and whatever the state of its access.
pub readiness_snapshot-fails_closed :
    (digests : Digests) (registry : List CandidateProfile) (mode : FallbackMode) (error : Bool)
    (access_states : List (String × AccessRow)) (now : ℕ)
    → (readiness_snapshot digests registry mode error access_states now).ready_count ≡ 0
unfolding readiness_snapshot
readiness_snapshot-fails_closed = nobody_is_ready

-- The readiness does not see an open circuit: a row that is open for some time, without a cooldown
-- that the provider asked for, is not cooling, although a claim at that time would not be admitted.
pub open_circuit_is_not_cooling :
    (row : AccessRow) (now : ℕ)
    → row.state ≡ open_
    → is_after row.opened_until now ≡ true
    → row.retry_not_before ≡ none
    → (admits now row ≡ false) × (is_cooling now (some row) ≡ false)
unfolding admits is_cooling
open_circuit_is_not_cooling row now is_open until no_cooldown =
    ground (arith, is_open, until, no_cooldown)
