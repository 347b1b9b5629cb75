-- ===== src/Source/Rollout/Readiness.antt =====
-- The readiness view of backend/source_rollout.py: `candidate_readiness`, `_is_cooling` and
-- `readiness_snapshot`. The mode read from the environment and the clock are arguments.
use x_bray.Base.{
  ℕ, String, Bool, true, false, Option, none, some, List, [], ◌∷◌, ◌++◌, ◌==◌, ◌&&◌, ◌||◌, not, leb,
  is_none, any_where, count_where, if◌then◌else◌,
}
use Prim.Native.String
use x_bray.Refresh.Models.{AccessRow}
use x_bray.Source.Circuit.{is_opened}
use x_bray.Source.Table.{lookup}
use x_bray.Source.Rollout.{
  CandidateProfile, CandidateApproval, Digests, is_sha256, approval_blocker,
}

pub data FallbackMode : Type 0 where
  off shadow canary enabled : FallbackMode

abbrev pub is_off : FallbackMode → Bool
is_off FallbackMode.off = true
is_off other = false

abbrev pub is_enabled : FallbackMode → Bool
is_enabled FallbackMode.enabled = true
is_enabled other = false

-- `retry_at` after the comparison with the clock.
abbrev pub remaining : ℕ → Option ℕ → Option ℕ
remaining now none = none
remaining now (some retry_at) = if leb retry_at now then none else some retry_at

unfoldable pub is_cooling : ℕ → Option AccessRow → Bool
is_cooling now none = false
is_cooling now (some row) =
    let retry_at = remaining now row.retry_not_before in
    (is_opened row.state && not (is_none retry_at)) || not (is_none retry_at)

abbrev pub is_evidence_valid : Option CandidateApproval → Bool
is_evidence_valid none = false
is_evidence_valid (some approval) =
    is_sha256 approval.proof_sha256
    && leb 10 approval.distinct_references
    && not (approval.latest_reference == "")

abbrev pub is_license_verified : Option CandidateApproval → Bool
is_license_verified none = false
is_license_verified (some approval) = approval.license_verified

abbrev pub noted : Bool → String → List String
noted condition blocker = if condition then blocker ∷ [] else []

abbrev pub approval_gates : Option CandidateApproval → List String
approval_gates none = "no_static_candidate_approval" ∷ []
approval_gates (some approval) =
    noted (not (is_evidence_valid (some approval))) "proof_evidence_incomplete"

-- The blockers before the one of the approval.
abbrev pub first_blockers :
    CandidateProfile → Option CandidateApproval → FallbackMode → Bool → List String
first_blockers profile approval mode mode_configuration_error =
    noted mode_configuration_error "fallback_mode_invalid_defaulted_off"
    ++ (noted (is_off mode) "fallback_mode_off"
        ++ (noted (is_none profile.adapter) "candidate_parser_unsupported"
            ++ (noted (is_none profile.official_evidence_url) "official_source_evidence_missing"
                ++ (noted
                      (not (is_license_verified approval)
                        || not (profile.license_status == "verified"))
                      "license_evidence_unverified"
                    ++ approval_gates approval))))

abbrev pub with_blocker : Option String → List String → List String
with_blocker none blockers = blockers
with_blocker (some blocker) blockers =
    if any_where (λ other. other == blocker) blockers then blockers else blockers ++ blocker ∷ []

-- `list(dict.fromkeys(blockers))`, after the texts already seen.
unfoldable pub unique_after : List String → List String → List String
unique_after seen [] = []
unique_after seen (text ∷ texts) =
    let skipped = unique_after seen texts in
    let kept = unique_after (text ∷ seen) texts in
    if any_where (λ other. other == text) seen then skipped else text ∷ kept

abbrev pub is_empty : List String → Bool
is_empty [] = true
is_empty (text ∷ texts) = false

-- The fields of the answer that are computed; the others are copied from the arguments.
pub record Readiness : Type 0 where
  pub candidate_id : String
  pub parser_supported : Bool
  pub evidence_valid : Bool
  pub mode : FallbackMode
  pub ready : Bool
  pub blockers : List String

abbrev pub first_contract : List String → String
first_contract [] = ""
first_contract (contract_id ∷ contract_ids) = contract_id

abbrev pub all_blockers :
    Digests
    → CandidateProfile
    → FallbackMode
    → Bool
    → List (String × CandidateApproval)
    → Option AccessRow
    → ℕ
    → List String
all_blockers digests profile mode mode_configuration_error approvals candidate_state now =
    let approval = lookup profile.candidate_id approvals in
    let blocker =
      approval_blocker digests profile approval (first_contract profile.source_contract_ids)
        approvals in
    with_blocker blocker (first_blockers profile approval mode mode_configuration_error)
    ++ (noted (not profile.enabled_for_ingestion) "candidate_ingestion_disabled"
        ++ (noted (not profile.code_reviewed) "candidate_code_unreviewed"
            ++ noted (is_cooling now candidate_state) "candidate_circuit_or_quota_cooldown"))

unfoldable pub candidate_readiness :
    Digests
    → CandidateProfile
    → FallbackMode
    → Bool
    → List (String × CandidateApproval)
    → Option AccessRow
    → ℕ
    → Readiness
unfolding lookup approval_blocker is_cooling unique_after
candidate_readiness digests profile mode mode_configuration_error approvals candidate_state now =
    let blockers =
      all_blockers digests profile mode mode_configuration_error approvals candidate_state now in
    record {
      candidate_id = profile.candidate_id;
      parser_supported = not (is_none profile.adapter);
      evidence_valid = is_evidence_valid (lookup profile.candidate_id approvals);
      mode = mode;
      ready = is_empty blockers;
      blockers = unique_after [] blockers;
    }

-- `f"{source}:candidate:{candidate_id}"`
abbrev pub candidate_key : CandidateProfile → String
candidate_key profile = String.◌++◌ profile.source (String.◌++◌ ":candidate:" profile.candidate_id)

unfoldable pub readiness_of_all :
    Digests
    → List CandidateProfile
    → FallbackMode
    → Bool
    → List (String × CandidateApproval)
    → List (String × AccessRow)
    → ℕ
    → List Readiness
unfolding lookup candidate_readiness
readiness_of_all digests [] mode error approvals access_states now = []
readiness_of_all digests (profile ∷ profiles) mode error approvals access_states now =
    candidate_readiness digests profile mode error approvals
      (lookup (candidate_key profile) access_states) now
    ∷ readiness_of_all digests profiles mode error approvals access_states now

pub record ReadinessSnapshot : Type 0 where
  pub mode : FallbackMode
  pub mode_configuration_error : Bool
  pub global_acquisition_enabled : Bool
  pub ready_count : ℕ
  pub candidates : List Readiness

-- `APPROVED_CANDIDATE_APPROVALS`
abbrev pub approved_candidate_approvals : List (String × CandidateApproval)
approved_candidate_approvals = []

unfoldable pub readiness_snapshot :
    Digests
    → List CandidateProfile
    → FallbackMode
    → Bool
    → List (String × AccessRow)
    → ℕ
    → ReadinessSnapshot
unfolding readiness_of_all count_where
readiness_snapshot digests registry mode mode_configuration_error access_states now =
    let candidates =
      readiness_of_all digests registry mode mode_configuration_error approved_candidate_approvals
        access_states now in
    record {
      mode = mode;
      mode_configuration_error = mode_configuration_error;
      global_acquisition_enabled = is_enabled mode;
      ready_count = count_where (λ candidate. candidate.ready) candidates;
      candidates = candidates;
    }
