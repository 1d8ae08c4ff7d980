-- ===== src/RpmVersion/Tests.antt =====
-- Versions at concrete data.
use azldev.Prelude.{◌≡◌, refl, is_ok, true, false}
use azldev.Text.{codes, ◌==◌}
use azldev.RpmVersion.{is_epoch, atoi, digits_value, new_version_from_evr, has_invalid_char}
use azldev.RpmVersion.Parts.{is_ok-new_version_from_evr}

small_epoch : is_epoch (codes "12") ≡ true
unfolding is_epoch atoi digits_value
small_epoch = refl

negative_epoch : is_epoch (codes "-1") ≡ false
unfolding is_epoch atoi digits_value
negative_epoch = refl

large_epoch : is_epoch (codes "9223372036854775808") ≡ false
unfolding is_epoch atoi digits_value
large_epoch = refl

is_ok-new_version_from_evr_example :
    is_ok (new_version_from_evr (codes "1") (codes "8.5") (codes "2.azl3")) ≡ true
unfolding has_invalid_char is_epoch atoi digits_value ◌==◌
is_ok-new_version_from_evr_example =
    is_ok-new_version_from_evr (codes "1") (codes "8.5") (codes "2.azl3") refl refl refl refl refl
