-- ===== src/Text.antt =====
-- Go strings as lists of code points, and what the program uses of the package `strings` on them.
-- The sources are valid UTF-8, so a test for an ASCII byte is a test for its code point.
mod Equality
mod Cut
pub mod Search
pub mod Order
pub mod Dict
unfoldable pub use Equality.*
unfoldable pub use Cut.*
use Prim.Native.Char.{code}
use Prim.Native.String
use azldev.Prelude.{ℕ, ◌+◌, String, List, [], ◌∷◌, ◌++◌, Bool, true, false, ◌||◌, ◌&&◌}
use azldev.Prelude.{if◌then◌else◌, leb, ◌=?◌, reverse}

-- a literal as a text
abbrev pub codes : String → Text
codes String.[] = []
codes (String.◌∷◌ c s) = code c ∷ codes s

-- unicode.IsSpace
unfoldable pub is_space : ℕ → Bool
is_space c =
    leb 9 c && leb c 13
    || c =? 32
    || c =? 0x85
    || c =? 0xa0
    || c =? 0x1680
    || leb 0x2000 c && leb c 0x200a
    || c =? 0x2028
    || c =? 0x2029
    || c =? 0x202f
    || c =? 0x205f
    || c =? 0x3000

-- strings.TrimLeftFunc(s, unicode.IsSpace)
unfoldable pub trim_left_space : Text → Text
unfolding is_space
trim_left_space [] = []
trim_left_space (c ∷ s) = let rest = trim_left_space s in if is_space c then rest else c ∷ s

-- strings.TrimSpace
unfoldable pub trim_space : Text → Text
unfolding trim_left_space
trim_space s = reverse (trim_left_space (reverse (trim_left_space s)))

-- The word that the scan of `fields` is in, put in front of the later ones if it is not empty.
abbrev add_word : Text → List Text → List Text
add_word [] words = words
add_word (c ∷ w) words = (c ∷ w) ∷ words

fields_from : Text → Text → List Text
unfolding is_space
fields_from word [] = add_word word []
fields_from word (c ∷ s) =
    let next = fields_from [] s in
    let longer = fields_from (word ++ (c ∷ [])) s in
    if is_space c then add_word word next else longer

-- strings.Fields
unfoldable pub fields : Text → List Text
unfolding fields_from
fields s = fields_from [] s

-- unicode.ToLower, exact at every code point whose lower case is an ASCII letter (U+0130 and U+212A
-- are the two outside ASCII), which is all that the comparisons with ASCII keywords read.
unfoldable pub to_lower_code : ℕ → ℕ
to_lower_code c =
    if leb b'A' c && leb c b'Z'
    then c + 32
    else if c =? 0x130
    then b'i'
    else if c =? 0x212a
    then b'k'
    else c

-- strings.ToLower
unfoldable pub to_lower : Text → Text
unfolding to_lower_code
to_lower [] = []
to_lower (c ∷ s) = to_lower_code c ∷ to_lower s
