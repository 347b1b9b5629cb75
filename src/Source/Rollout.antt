-- ===== src/Source/Rollout.antt =====
-- Alternatives to the primary sources: the profiles of backend/source_candidates.py, the approval
-- gates of backend/candidate_eligibility.py.
pub mod Gates
pub mod Readiness
pub mod Scenarios
use x_bray.Base.{
  ℕ, zero, suc, ◌+◌, String, Bool, true, false, Option, none, some, List, [], ◌∷◌, ◌++◌, ◌==◌, ◌&&◌,
  ◌||◌, not, ltb, leb, is_none, any_where, count_where, if◌then◌else◌,
}
use x_bray.Refresh.Models.{CircuitState, AccessRow}
use x_bray.Base.Texts.{is_hex_text}
use x_bray.Source.Circuit.{is_opened}
use x_bray.Source.Table.{lookup}

pub data CandidateStatus : Type 0 where
  unverified shadow eligible disabled : CandidateStatus

pub data ShadowAdapter : Type 0 where
  sgs_csv sidra_v3 : ShadowAdapter

-- `source` stands as its value; the numbers of seconds of the registry are whole.
pub record CandidateProfile : Type 0 where
  pub candidate_id : String
  pub source : String
  pub source_contract_ids : List String
  pub source_contract_version : String
  pub code_version : String
  pub endpoint_host : Option String
  pub endpoint_path_template : Option String
  pub fixed_parameters : List (String × String)
  pub adapter : Option ShadowAdapter
  pub value_unit : String
  pub frequency : String
  pub reference_calendar : String
  pub field_coverage : List String
  pub priority : ℕ
  pub max_bytes : ℕ
  pub deadline_seconds : ℕ
  pub request_cap : ℕ
  pub quota_scope : String
  pub failure_domain : String
  pub official_evidence_url : Option String
  pub license_evidence_url : Option String
  pub license_status : String
  pub status : CandidateStatus
  pub enabled_for_ingestion : Bool
  pub disabled_reason : Option String
  pub approved_proof_sha256 : Option String
  pub code_reviewed : Bool

pub record CandidateApproval : Type 0 where
  pub candidate_id : String
  pub contract_version : String
  pub profile_semantic_sha256 : String
  pub parser_semantic_sha256 : String
  pub proof_sha256 : String
  pub distinct_references : ℕ
  pub latest_reference : String
  pub code_reviewed : Bool
  pub license_verified : Bool
  pub complete_cohort_proven : Bool

-- The digests of hashlib: of a profile's semantics, and of the source text of a candidate's parsers.
pub record Digests : Type 0 where
  pub profile_semantic_sha256 : CandidateProfile → String
  pub parser_semantic_sha256 : String → String

-- `_SHA256.fullmatch`
abbrev pub is_sha256 : String → Bool
is_sha256 text = is_hex_text 64 text

abbrev pub is_eligible_status : CandidateStatus → Bool
is_eligible_status CandidateStatus.eligible = true
is_eligible_status other = false

abbrev pub is_contract_of : CandidateProfile → String → Bool
is_contract_of profile contract_id = any_where (λ id. id == contract_id) profile.source_contract_ids

-- `profile.approved_proof_sha256` is a text, not empty, and the approval's.
abbrev pub is_bound_proof : Option String → String → Bool
is_bound_proof none proof_sha256 = false
is_bound_proof (some text) proof_sha256 = not (text == "") && text == proof_sha256

abbrev pub is_reviewed : CandidateProfile → CandidateApproval → Bool
is_reviewed profile selected =
    profile.code_reviewed
    && selected.code_reviewed
    && is_bound_proof profile.approved_proof_sha256 selected.proof_sha256
    && is_sha256 selected.proof_sha256

abbrev pub is_licensed : CandidateProfile → CandidateApproval → Bool
is_licensed profile selected = profile.license_status == "verified" && selected.license_verified

-- The last gates: the license and the extent of the proof.
abbrev pub evidence_blocker : CandidateProfile → CandidateApproval → Option String
evidence_blocker profile selected =
    if not (is_licensed profile selected)
    then some "license_evidence_unverified"
    else if ltb selected.distinct_references 10
    then some "proof_has_fewer_than_10_references"
    else if selected.latest_reference == ""
    then some "proof_latest_reference_missing"
    else if not selected.complete_cohort_proven
    then some "complete_cohort_not_proven"
    else none

abbrev pub selected_blocker :
    Digests → CandidateProfile → CandidateApproval → String → Option String
selected_blocker digests profile selected required_contract_id =
    if not (profile.candidate_id == selected.candidate_id)
    then some "candidate_id_mismatch"
    else if not (is_eligible_status profile.status) || not profile.enabled_for_ingestion
    then some "candidate_ingestion_disabled"
    else if is_none profile.adapter
    then some "candidate_adapter_unsupported"
    else if not (is_contract_of profile required_contract_id)
    then some "source_contract_mismatch"
    else if not (profile.source_contract_version == selected.contract_version)
    then some "source_contract_version_stale"
    else if not (digests.profile_semantic_sha256 profile == selected.profile_semantic_sha256)
    then some "candidate_profile_semantics_changed"
    else if not
        (digests.parser_semantic_sha256 profile.candidate_id == selected.parser_semantic_sha256)
    then some "candidate_parser_semantics_changed"
    else if not (is_reviewed profile selected)
    then some "reviewed_proof_not_bound"
    else evidence_blocker profile selected

abbrev pub or_lookup :
    Option CandidateApproval → String → List (String × CandidateApproval) → Option CandidateApproval
or_lookup none candidate_id approvals = lookup candidate_id approvals
or_lookup (some approval) candidate_id approvals = some approval

abbrev pub blocker_of :
    Digests → CandidateProfile → Option CandidateApproval → String → Option String
blocker_of digests profile none required_contract_id = some "no_static_candidate_approval"
blocker_of digests profile (some selected) required_contract_id =
    selected_blocker digests profile selected required_contract_id

unfoldable pub approval_blocker :
    Digests
    → CandidateProfile
    → Option CandidateApproval
    → String
    → List (String × CandidateApproval)
    → Option String
unfolding lookup
approval_blocker digests profile approval required_contract_id approvals =
    blocker_of digests profile (or_lookup approval profile.candidate_id approvals)
      required_contract_id
