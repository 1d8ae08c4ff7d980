-- ===== src/ProjectConfig/Metadata.antt =====
-- internal/projectconfig/overlay_metadata.go: the documentation of an overlay, and its check.
use azldev.Prelude.{List, [], ◌∷◌, Bool, ◌&&◌, not, is_nil}
use azldev.Prelude.{Result, context, reject_if, ◌>>◌}
use azldev.Text.{Text, ◌==◌, codes}
use azldev.Text.Order.{contains}

-- OverlayCategory
abbrev pub upstream_backport : Text
upstream_backport = codes "upstream-backport"

abbrev pub all_overlay_categories : List Text
all_overlay_categories =
    upstream_backport
    ∷ codes "azl-pruning"
    ∷ codes "azl-compatibility"
    ∷ codes "azl-temp-workaround"
    ∷ codes "azl-branding-policy"
    ∷ codes "azl-disable-flaky-tests"
    ∷ codes "azl-disable-unsupported-tests"
    ∷ codes "azl-security-compliance"
    ∷ codes "azl-release-management"
    ∷ codes "azl-platform-adaptation"
    ∷ []

-- OverlayCategory.IsValid
unfoldable pub is_overlay_category : Text → Bool
is_overlay_category c = contains all_overlay_categories c

-- OverlayUpstreamStatus
abbrev pub upstreamed : Text
upstreamed = codes "upstreamed"

abbrev pub upstreamable : Text
upstreamable = codes "upstreamable"

abbrev pub all_overlay_upstream_statuses : List Text
all_overlay_upstream_statuses =
    upstreamed
    ∷ upstreamable
    ∷ codes "needs-upstream-hook"
    ∷ codes "inapplicable"
    ∷ codes "unknown"
    ∷ []

-- OverlayUpstreamStatus.IsValid
unfoldable pub is_overlay_upstream_status : Text → Bool
is_overlay_upstream_status s = contains all_overlay_upstream_statuses s

-- OverlayMetadata; an URLRef is its URL.
pub record OverlayMetadata : Type 0 where
  pub category : Text
  pub commits : List Text
  pub bugs : List Text
  pub upstream_status : Text

-- OverlayMetadata.Validate; `validate_struct` is `metadataValidator.Struct`.
unfoldable pub validate_overlay_metadata :
    (OverlayMetadata → Result (Unit {0})) → OverlayMetadata → Result (Unit {0})
validate_overlay_metadata validate_struct m = do
  reject_if (m.category == []) "'metadata' requires 'category'"
  reject_if (not (is_overlay_category m.category)) "unknown overlay category %#q"
  reject_if (m.category == upstream_backport && is_nil m.commits)
      "overlay category %#q requires at least one entry in 'commits'"
  reject_if (m.upstream_status == []) "'metadata' requires 'upstream-status'"
  reject_if (not (is_overlay_upstream_status m.upstream_status))
      "unknown overlay upstream-status %#q"
  reject_if
      (m.category == upstream_backport
        && not (m.upstream_status == upstreamed)
        && not (m.upstream_status == upstreamable))
      "overlay category %#q implies the change is already upstream or upstreamable; 'upstream-status' value %#q is contradictory (allowed: %#q or %#q)"
  context "invalid overlay metadata:\n%w" (validate_struct m)
