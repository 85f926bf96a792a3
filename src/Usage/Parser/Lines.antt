-- ===== src/Usage/Parser/Lines.antt =====
-- The totals of an event stream are those of its parts.
use agy_identity_bridge.Value.{Value}
use agy_identity_bridge.Usage.{UsageTotals, merge_usage_totals}
use agy_identity_bridge.Base.{Option, none, some}
use agy_identity_bridge.Text.{Text}

-- The totals of two parts: their sum where both have totals.
unfoldable pub both_totals : Option UsageTotals → Option UsageTotals → Option UsageTotals
both_totals none b = b
both_totals (some a) none = some a
both_totals (some a) (some b) = some (merge_usage_totals a b)
