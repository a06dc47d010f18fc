-- ===== src/Tests/Recoveries.antt =====
-- Runs of the triage, and witnesses for the theorems on it.
use agent_engineering_standa.Base.{◌≡◌, ◌↔◌, refl, true, false, [], ◌∷◌, map, codes, ok, pos, ◌=ᵗ◌}
use agent_engineering_standa.Plain.{
  Value, str, flag, dict, bare, field, get_or, truthy, fields_of, show, show_or_empty, int_of,
}
use agent_engineering_standa.Plain.Findings.{Finding}
use agent_engineering_standa.Recovery.Types.{Report, clean_triage}
use agent_engineering_standa.Recovery.Triage.{normalize, triaged, triage}
use agent_engineering_standa.Recovery.Clean.{IsClean, triaged_iff}
use agent_engineering_standa.Recovery.Routed.{IsRouted, triage-IsRouted}
use agent_engineering_standa.Tests.Leases.{python}

-- A retry without a hypothesis.
abbrev blind : Report
blind = record {
  failure = codes "red";
  filed_class = codes "product-defect";
  true_class = [];
  hypothesis = [];
  retry_proposed = true;
  idempotent = true;
  confirmed = false;
  partially_green = false;
  retries_left = pos 1;
  owning_lane = [];
  evidence_preserved = true;
  mutation_proposed = false;
  historical_match = false;
  infra_signal = false;
}

triaged_iff_example :
    (((triaged python blind).rule ≡ clean_triage) ↔ IsClean blind)
    × (((triaged python blind).rule ≡ clean_triage)
          × (map (λ (f : Finding). f.severity) (triaged python blind).findings ≡ codes "minor" ∷ [])
        ↔ IsClean blind × (blind.evidence_preserved ≡ true))
triaged_iff_example = triaged_iff python blind

abbrev blind_report : Value
blind_report = dict (
    field (codes "failure") (str (codes "red")) (
      field (codes "filed_class") (str (codes "product-defect"))
        (field (codes "retry_proposed") (flag true) bare)))

blind_run : triage python blind_report ≡ ok (triaged python blind)
unfolding triage normalize int_of get_or fields_of ◌=ᵗ◌ show_or_empty truthy show
blind_run = refl

triage-IsRouted_example : IsRouted (triaged python blind)
triage-IsRouted_example = triage-IsRouted python blind_report (triaged python blind) blind_run
