-- ===== src/Spec/Edit/PatchWalks.antt =====
-- internal/rpm/spec/edit.go: RemovePatchEntry as passes over the lines.
use azldev.Prelude.{ℕ, ◌+◌, Bool, true, false, Option, some, none, Error, wrap, new}
use azldev.Prelude.{Result}
use azldev.Prelude.{if◌then◌else◌, ◌=?◌}
use azldev.Text.{Text}
use azldev.Spec.Visit.Walk.{Walked, walk}
use azldev.Spec.Edit.Actions.{patchlist_action}
use azldev.Spec.Edit.{Edited, edited}
use azldev.Spec.Edit.PatchVisits.{}

module _ (match : Text → Result Bool) where
  abbrev no_patches : ℕ → Option Error
  no_patches total = if total =? 0 then some (new "no patches matching %#q found in spec") else none

  -- After n tags were removed, the pass over the entries of a %patchlist.
  abbrev pub after_entries : ℕ → Walked ℕ → Edited
  after_entries n (some e, lines, m) =
      edited (some (wrap "failed to remove matching patchlist entries:\n%w" e)) lines
  after_entries n (none, lines, m) = edited (no_patches (n + m)) lines

  -- After the pass over the tags, where it is known whether there is a %patchlist.
  abbrev pub after_tags : Walked ℕ → Bool → Edited
  after_tags (some e, lines, n) found =
      edited (some (wrap "failed to remove matching patch tags:\n%w" e)) lines
  after_tags (none, lines, n) false = edited (no_patches n) lines
  after_tags (none, lines, n) true = after_entries n (walk (patchlist_action match) lines 0)
