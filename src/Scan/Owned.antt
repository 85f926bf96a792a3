-- ===== src/Scan/Owned.antt =====
-- src/providers.go: what the loop over the discovered records counts and registers.
use agy_identity_bridge.Base.{
  ℕ, suc, ◌+◌, ◌≡◌, refl, ◌∙◌, subst, ◌⊎◌, inl, inr, Bool, true, false, not, Option, List, [], ◌∷◌,
  arith, if_cases, length, is_nil, length-append, All,
}
use agy_identity_bridge.Text.{Text, ◌==◌}
use mathlib.Core.List.{Memᴰ}
use agy_identity_bridge.Value.{put}
use agy_identity_bridge.Config.{PluginSettings}
use agy_identity_bridge.Registry.{MatchedProviderRecord}
use agy_identity_bridge.Discovery.{DiscoveredProvider, match_discovered_provider}
use agy_identity_bridge.Scan.{
  ParsedUrl, ProviderStatus, matched_record, Seen, put_records, is_configured, see_records,
  ScanState, no_scan, listed, count_match, scan_item, scan_items, provider_identity_key,
  provider_status,
}

All-put {ℓ κ} :
    {A : Type ℓ} (P : Text × A → Type κ) (key : Text) (value : A) (out : List (Text × A))
    → ((k : Text) → P (k, value))
    → All P out
    → All P (put key value out)
unfolding put
All-put P key value [] p h = (p key, tt)
All-put P key value ((k, v) ∷ out) p (h, hs) =
    if_cases (All P) (k == key) _ _ (λ _. (p k, hs)) (λ _. (h, All-put P key value out p hs))

nil_of {ℓ} : {A : Type ℓ} (xs : List A) → is_nil xs ≡ true → xs ≡ []
nil_of [] h = refl
nil_of (x ∷ xs) h = ground arith

module _ (settings : PluginSettings) (all_items : List DiscoveredProvider) where
  -- The record was made of a matched item of the configuration, and of a key of that item.
  abbrev pub IsOwned : MatchedProviderRecord → Type 0
  IsOwned r =
      (item : DiscoveredProvider) × Memᴰ item all_items
      × (is_configured item ≡ true)
      × ((match_discovered_provider settings item).0 ≡ true)
      × (r ≡ matched_record item r.api_key)
      × (Memᴰ r.api_key item.api_keys ⊎ ((item.api_keys ≡ []) × (r.api_key ≡ [])))

  abbrev AllOwned : Seen → Type 0
  AllOwned seen = All (λ entry. IsOwned entry.1) seen

  abbrev IsOrigin : DiscoveredProvider → Text → Type 0
  IsOrigin item key = Memᴰ key item.api_keys ⊎ ((item.api_keys ≡ []) × (key ≡ []))

  abbrev IsMatched : DiscoveredProvider → Type 0
  IsMatched item = Memᴰ item all_items × ((match_discovered_provider settings item).0 ≡ true)

  put_records-AllOwned :
      (item : DiscoveredProvider) (keys : List Text) (seen : Seen)
      → IsMatched item
      → is_configured item ≡ true
      → ((key : Text) → Memᴰ key keys → IsOrigin item key)
      → AllOwned seen
      → AllOwned (put_records item keys seen)
  put_records-AllOwned item [] seen (m, h) c o hs = hs
  put_records-AllOwned item (key ∷ keys) seen (m, h) c o hs =
      put_records-AllOwned item keys _ (m, h) c (λ k n. o k (Memᴰ.tail n))
        (All-put (λ entry. IsOwned entry.1) _ _ seen
          (λ k. (item, m, c, h, refl, o key (Memᴰ.head refl))) hs)

  one-origin : (key : Text) → Memᴰ key ([] ∷ []) → key ≡ []
  one-origin key (Memᴰ.head e) = e
  one-origin key (Memᴰ.tail m) = elim m [ ]

  see_records-AllOwned :
      (item : DiscoveredProvider) (seen : Seen)
      → IsMatched item
      → AllOwned seen
      → AllOwned (see_records item seen)
  unfolding see_records
  see_records-AllOwned item seen m hs =
      if_cases AllOwned (not (is_configured item)) _ _ (λ _. hs)
        (λ c.
          let configured : is_configured item ≡ true = ground arith in
          if_cases AllOwned (is_nil item.api_keys) _ _
            (λ n.
              put_records-AllOwned item ([] ∷ []) seen m configured
                (λ k o. inr (nil_of item.api_keys n, one-origin k o)) hs)
            (λ _. put_records-AllOwned item item.api_keys seen m configured (λ k o. inl o) hs))

  -- After `n` items: each was counted once, as matched or not, and every record has an owner.
  record IsScan (n : ℕ) (st : ScanState) : Type 0 where
    total : st.matched + st.unmatched ≡ n
    scanned : length st.scanned_providers ≡ n
    shown : length st.providers ≡ st.matched
    owned : AllOwned st.seen

  count_match-IsScan :
      (b : Bool) (key : Text) (item : DiscoveredProvider) (status : ProviderStatus) (n : ℕ)
      (st : ScanState)
      → Memᴰ item all_items
      → (match_discovered_provider settings item).0 ≡ b
      → IsScan n st
      → IsScan (suc n) (count_match b key item status (listed item status st))
  count_match-IsScan false key item status n st m e h = record {
    total = omega (h.total, arith);
    scanned = length-append st.scanned_providers (status ∷ []) ∙ omega (h.scanned, arith);
    shown = h.shown;
    owned = h.owned;
  }
  count_match-IsScan true key item status n st m e h = record {
    total = omega (h.total, arith);
    scanned = length-append st.scanned_providers (status ∷ []) ∙ omega (h.scanned, arith);
    shown = length-append st.providers (status ∷ []) ∙ omega (h.shown, arith);
    owned = see_records-AllOwned item st.seen (m, e) h.owned;
  }

  module _ (parse_url : Text → Option ParsedUrl) (print_url : ParsedUrl → Text) where
    scan_items-IsScan :
        (items : List DiscoveredProvider) (n : ℕ) (st : ScanState)
        → ((item : DiscoveredProvider) → Memᴰ item items → Memᴰ item all_items)
        → IsScan n st
        → IsScan (n + length items) (scan_items parse_url print_url settings items st)
    unfolding scan_items scan_item
    scan_items-IsScan [] n st m h = let e : n ≡ n + 0 = omega arith in subst (λ k. IsScan k st) e h
    scan_items-IsScan (item ∷ items) n st m h =
        let e : suc n + length items ≡ n + suc (length items) = omega arith in
        let matched = match_discovered_provider settings item in
        let step : IsScan (suc n) (scan_item parse_url print_url settings item st) =
          count_match-IsScan matched.0 (provider_identity_key parse_url print_url item) item
            (provider_status parse_url print_url item matched) n st (m item (Memᴰ.head refl)) refl
            h in
        subst
          (λ k. IsScan k (
            scan_items parse_url print_url settings items
              (scan_item parse_url print_url settings item st)))
          e (scan_items-IsScan items (suc n) _ (λ i k. m i (Memᴰ.tail k)) step)

-- The loop counts every discovered record once, as matched or as unmatched, lists all of them and
-- shows the matched ones. Every record that it registers belongs to a record of the configuration
-- that the settings match, and its API key is one of that record's keys, or empty where it has
-- none.
pub scan_items-IsOwned :
    (parse_url : Text → Option ParsedUrl) (print_url : ParsedUrl → Text) (settings : PluginSettings)
    (items : List DiscoveredProvider)
    → let st = scan_items parse_url print_url settings items no_scan in
      (st.matched + st.unmatched ≡ length items)
      × (length st.scanned_providers ≡ length items)
      × (length st.providers ≡ st.matched)
      × All (λ entry. IsOwned settings items entry.1) st.seen
scan_items-IsOwned parse_url print_url settings items =
    let h =
      scan_items-IsScan settings items parse_url print_url items 0 no_scan (λ item m. m)
        (record { total = refl; scanned = refl; shown = refl; owned = tt }) in
    (h.total ∙ omega arith, h.scanned ∙ omega arith, h.shown, h.owned)
