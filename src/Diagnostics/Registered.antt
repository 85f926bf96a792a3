-- ===== src/Diagnostics/Registered.antt =====
-- src/providers.go `scanProviderDiagnostics`: what it registers and what it counts.
use agy_identity_bridge.Scan.{redact_url}
use agy_identity_bridge.Base.{◌+◌, ◌≡◌, not, Option, List, [], ◌∷◌, ◌++◌, map, if_cases, All}
use agy_identity_bridge.Text.{Text}
use mathlib.Core.List.{Permᴰ}
use agy_identity_bridge.Value.{Map}
use agy_identity_bridge.Value.Order.{All-perm}
use agy_identity_bridge.Config.{normalize_settings, PluginSettings}
use agy_identity_bridge.Config.Load.{Decoded}
use agy_identity_bridge.Registry.{MatchedProviderRecord}
use agy_identity_bridge.Discovery.{DiscoveredProvider}
use agy_identity_bridge.Scan.{ParsedUrl, ProviderStatus, Seen, no_scan, scan_items}
use agy_identity_bridge.Scan.Owned.{IsOwned, scan_items-IsOwned}
use agy_identity_bridge.Diagnostics.{ProviderDiagnostics}
use agy_identity_bridge.Diagnostics.Report.{
  ScanInputs, found_in, runtime_of, with_mirror, scan_provider_diagnostics,
}

All-values :
    (P : MatchedProviderRecord → Type 0) (seen : Seen)
    → All (λ entry. P entry.1) seen
    → All P (map (λ entry. entry.1) seen)
All-values P [] h = tt
All-values P ((k, r) ∷ seen) (h, hs) = (h, All-values P seen hs)

-- The records that the scan discovers, those of the configuration first.
abbrev pub discovered :
    (Text → Decoded) → (Text → Option Map) → ScanInputs → List DiscoveredProvider
discovered yaml get_host_auth_json i =
    (found_in yaml i.snapshot).0 ++ (runtime_of get_host_auth_json i.auths).0

-- The mirrored provider has no part in the counts.
mirror-counts :
    (settings : PluginSettings) (i : ScanInputs) (out : ProviderDiagnostics) (url : Text)
    → out.matched_record_count + out.unmatched_record_count ≡ out.scanned_record_count
    → (with_mirror settings i out url).matched_record_count
        + (with_mirror settings i out url).unmatched_record_count
      ≡ (with_mirror settings i out url).scanned_record_count
mirror-counts settings i out url h =
    if_cases
      (λ (d : ProviderDiagnostics).
        d.matched_record_count + d.unmatched_record_count ≡ d.scanned_record_count)
      (not i.mirrored) _ _ (λ _. h) (λ _. h)

-- Every record that a scan registers for later requests belongs to a discovered record of the
-- configuration that the normalised settings match, and its API key is one of that record's keys,
-- or empty where it has none. The report counts every discovered record once, as matched or not.
-- The registered records are kept in some order of the map.
pub scan_provider_diagnostics-IsOwned :
    (yaml : Text → Decoded) (get_host_auth_json : Text → Option Map)
    (parse_url : Text → Option ParsedUrl) (print_url : ParsedUrl → Text)
    (arrange : List MatchedProviderRecord → List MatchedProviderRecord)
    (sort_statuses : List ProviderStatus → List ProviderStatus) (i : ScanInputs)
    → ((records : List MatchedProviderRecord) → Permᴰ records (arrange records))
    → let r =
        scan_provider_diagnostics yaml get_host_auth_json parse_url print_url arrange sort_statuses
          i in
      All
        (IsOwned (normalize_settings i.snapshot.settings) (discovered yaml get_host_auth_json i))
        r.1
      × (r.0.matched_record_count + r.0.unmatched_record_count ≡ r.0.scanned_record_count)
unfolding scan_provider_diagnostics
scan_provider_diagnostics-IsOwned yaml get_host_auth_json parse_url print_url arrange sort_statuses
      i perm =
    let settings = normalize_settings i.snapshot.settings in
    let items = discovered yaml get_host_auth_json i in
    let h = scan_items-IsOwned parse_url print_url settings items in
    (
      All-perm (IsOwned settings items) (perm _) (
          All-values (IsOwned settings items)
            (scan_items parse_url print_url settings items no_scan).seen h.3),
      mirror-counts settings i _ (redact_url parse_url print_url i.spec.base_url) h.0,
    )
