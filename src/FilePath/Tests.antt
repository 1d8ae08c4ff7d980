-- ===== src/FilePath/Tests.antt =====
-- ValidateRelPath on concrete paths.
use azldev.Prelude.{◌≡◌, true, false, is_ok}
use azldev.Text.{codes, split, ◌==◌, is_space}
use azldev.FilePath.{validate_rel_path}
use azldev.FilePath.Relative.{is_ok-validate_rel_path}

is_ok-validate_rel_path_example : is_ok (validate_rel_path (codes "etc/mock/site.cfg")) ≡ true
unfolding split ◌==◌ is_space
is_ok-validate_rel_path_example = is_ok-validate_rel_path (codes "etc/mock/site.cfg")

traversal_test : is_ok (validate_rel_path (codes "etc/../site.cfg")) ≡ false
unfolding split ◌==◌ is_space
traversal_test = is_ok-validate_rel_path (codes "etc/../site.cfg")

doubled_slash_test : is_ok (validate_rel_path (codes "etc//site.cfg")) ≡ false
unfolding split ◌==◌ is_space
doubled_slash_test = is_ok-validate_rel_path (codes "etc//site.cfg")
