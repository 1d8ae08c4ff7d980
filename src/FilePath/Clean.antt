-- ===== src/FilePath/Clean.antt =====
-- filepath.Clean, filepath.Base and filepath.IsAbs on Unix, by the elements between the slashes.
use azldev.Prelude.{◌∷◌, [], ◌++◌, List, Bool, false, ◌||◌, ◌&&◌, not, ◌=?◌, reverse}
use azldev.Prelude.{if◌then◌else◌, any}
use azldev.Text.{Text, ◌==◌, codes, split}

-- filepath.IsAbs
unfoldable pub is_abs : Text → Bool
is_abs [] = false
is_abs (c ∷ path) = c =? b'/'

-- The elements that a cleaned path keeps, the last one first: empty ones and "." are dropped, and
-- ".." takes back the element before it, or is dropped at the root.
unfoldable pub add_element : Bool → List Text → Text → List Text
add_element rooted [] element =
    if element == [] || element == codes "." || rooted && element == codes ".."
    then []
    else element ∷ []
add_element rooted (last ∷ kept) element =
    if element == [] || element == codes "."
    then last ∷ kept
    else if element == codes ".." && not (last == codes "..")
    then kept
    else element ∷ last ∷ kept

unfoldable pub kept_elements : Bool → List Text → List Text → List Text
unfolding add_element
kept_elements rooted kept [] = kept
kept_elements rooted kept (element ∷ elements) =
    kept_elements rooted (add_element rooted kept element) elements

-- The kept elements joined by slashes.
unfoldable pub render : List Text → Text
render [] = []
render (last ∷ []) = last
render (last ∷ before ∷ kept) = render (before ∷ kept) ++ (b'/' ∷ last)

unfoldable pub or_dot : Text → Text
or_dot [] = codes "."
or_dot (c ∷ path) = c ∷ path

-- filepath.Clean
unfoldable pub clean : Text → Text
unfolding or_dot
clean path =
    let kept = kept_elements (is_abs path) [] (split path b'/') in
    if is_abs path then b'/' ∷ render kept else or_dot (render kept)

-- What follows the last slash.
unfoldable pub after_last_slash : Text → Text
after_last_slash [] = []
after_last_slash (c ∷ path) =
    let rest = after_last_slash path in
    if any (λ d. d =? b'/') path then rest else if c =? b'/' then path else c ∷ path

unfoldable pub trim_left_slashes : Text → Text
trim_left_slashes [] = []
trim_left_slashes (c ∷ path) =
    let rest = trim_left_slashes path in if c =? b'/' then rest else c ∷ path

-- The path without the slashes at its end.
unfoldable pub trim_right_slashes : Text → Text
trim_right_slashes path = reverse (trim_left_slashes (reverse path))

-- filepath.Base
unfoldable pub base : Text → Text
base [] = codes "."
base (c ∷ path) =
    let stripped = trim_right_slashes (c ∷ path) in
    if stripped == [] then codes "/" else after_last_slash stripped

-- The path up to its last slash, which is kept.
up_to_last_slash : Text → Text
up_to_last_slash [] = []
up_to_last_slash (c ∷ path) =
    let rest = up_to_last_slash path in if any (λ d. d =? b'/') (c ∷ path) then c ∷ rest else []

-- filepath.Dir
unfoldable pub dir : Text → Text
unfolding up_to_last_slash
dir path = clean (up_to_last_slash path)
