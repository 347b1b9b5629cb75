-- ===== src/Source/Rollout/Scenarios.antt =====
-- The theorems on the rollout of candidates at concrete inputs: an approved candidate, the same with
-- an open circuit, and the registry without approvals.
use x_bray.Base.{
  String, true, false, none, some, List, [], ◌∷◌, ◌≡◌, refl, ◌&&◌, not, is_none, any_where,
}
use x_bray.Base.Texts.{is_hex_text}
use x_bray.Refresh.Models.{open_, AccessRow}
use x_bray.Source.Circuit.{admits}
use x_bray.Source.Table.{lookup}
use x_bray.Source.Rollout.{
  CandidateStatus, ShadowAdapter, CandidateProfile, CandidateApproval, Digests, approval_blocker,
}
use x_bray.Source.Rollout.Readiness.{
  FallbackMode, is_off, is_cooling, unique_after, first_contract, candidate_readiness,
}
use x_bray.Source.Rollout.Gates.{candidate_readiness-gates, open_circuit_is_not_cooling}

abbrev proof_digest : String
proof_digest = "0123456789abcdef0123456789abcdef0123456789abcdef0123456789abcdef"

abbrev profile : CandidateProfile
profile = record {
  candidate_id = "bcb_sgs:csv:432";
  source = "bcb_sgs";
  source_contract_ids = "sgs:432" ∷ [];
  source_contract_version = "v1";
  code_version = "v1";
  endpoint_host = some "api.bcb.gov.br";
  endpoint_path_template = none;
  fixed_parameters = ("formato", "csv") ∷ [];
  adapter = some ShadowAdapter.sgs_csv;
  value_unit = "percent";
  frequency = "daily";
  reference_calendar = "daily";
  field_coverage = "value" ∷ [];
  priority = 20;
  max_bytes = 2000000;
  deadline_seconds = 20;
  request_cap = 1;
  quota_scope = "bcb";
  failure_domain = "bcb";
  official_evidence_url = some "https://dadosabertos.bcb.gov.br";
  license_evidence_url = none;
  license_status = "verified";
  status = CandidateStatus.eligible;
  enabled_for_ingestion = true;
  disabled_reason = none;
  approved_proof_sha256 = some proof_digest;
  code_reviewed = true;
}

abbrev approval : CandidateApproval
approval = record {
  candidate_id = "bcb_sgs:csv:432";
  contract_version = "v1";
  profile_semantic_sha256 = "profile";
  parser_semantic_sha256 = "parser";
  proof_sha256 = proof_digest;
  distinct_references = 10;
  latest_reference = "2026-07-01";
  code_reviewed = true;
  license_verified = true;
  complete_cohort_proven = true;
}

abbrev digests : Digests
digests = record {
  profile_semantic_sha256 = λ other. "profile";
  parser_semantic_sha256 = λ candidate_id. "parser";
}

abbrev approvals : List (String × CandidateApproval)
approvals = ("bcb_sgs:csv:432", approval) ∷ []

-- A row that three failures without a cooldown have opened until 900.
abbrev open_row : AccessRow
open_row = record {
  scope_id = "bcb_sgs:candidate:bcb_sgs:csv:432";
  consecutive_temporary_failures = 3;
  state = open_;
  opened_until = some 900;
  retry_not_before = none;
  probe_lease_until = none;
  updated_at = 600;
  admission_generation = 3;
}

approved_is_ready :
    (candidate_readiness digests profile FallbackMode.canary false approvals none 700).ready ≡ true
unfolding candidate_readiness approval_blocker lookup is_cooling is_hex_text any_where
approved_is_ready = refl

open_circuit_is_ready :
    (candidate_readiness digests profile FallbackMode.canary false approvals
      (some open_row)
      700).ready
    ≡ true
unfolding candidate_readiness approval_blocker lookup is_cooling is_hex_text any_where
open_circuit_is_ready = refl

-- The two reasons against the license, one of the gates and one of the approval, are listed once.
unlicensed_is_blocked_once :
    (candidate_readiness digests
      (record profile { license_status = "unknown" })
      FallbackMode.canary
      false
      approvals
      none
      700).blockers
    ≡ "license_evidence_unverified" ∷ []
unfolding candidate_readiness approval_blocker lookup is_cooling is_hex_text any_where unique_after
unlicensed_is_blocked_once = refl

candidate_readiness-gates_example :
    (candidate_readiness digests profile FallbackMode.canary false approvals
      (some open_row)
      700).ready
    ≡ (not false
        && not (is_off FallbackMode.canary)
        && not (is_none profile.official_evidence_url)
        && is_none (
            approval_blocker digests profile
              (lookup profile.candidate_id approvals)
              (first_contract profile.source_contract_ids)
              approvals)
        && not (is_cooling 700 (some open_row)))
candidate_readiness-gates_example =
    candidate_readiness-gates digests profile FallbackMode.canary false approvals (some open_row)
      700

open_circuit_is_not_cooling_example :
    (admits 700 open_row ≡ false) × (is_cooling 700 (some open_row) ≡ false)
open_circuit_is_not_cooling_example = open_circuit_is_not_cooling open_row 700 refl refl refl
