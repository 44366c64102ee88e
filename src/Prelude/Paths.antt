-- ===== src/Prelude/Paths.antt =====
-- The functions of Go's `path` that the program calls: `Clean` and `Join`.
pub mod Words
use Prim.Native.Nat.{ℕ}
use mathlib.Core.Path.{◌≡◌, refl}
use mathlib.Core.Bool.{Bool, true, false, ◌||◌}
use mathlib.Core.List.{List, [], ◌∷◌, ◌++◌, reverse}
use go2rtc_manager.Prelude.Tests.{◌==◌, if◌then◌else◌}
use go2rtc_manager.Prelude.Text.{Text, codes, text_eq, is_empty}

abbrev pub slash : ℕ
slash = b'/'

-- A character in front of the first word.
unfoldable pub push_char : ℕ → List Text → List Text
push_char c [] = (c ∷ []) ∷ []
push_char c (w ∷ ws) = (c ∷ w) ∷ ws

-- The words between the slashes, empty ones too.
unfoldable pub split_slash : Text → List Text
unfolding push_char
split_slash [] = [] ∷ []
split_slash (c ∷ s) = let ws = split_slash s in if c == slash then [] ∷ ws else push_char c ws

unfoldable pub join_slash : List Text → Text
join_slash [] = []
join_slash (w ∷ []) = w
join_slash (w ∷ v ∷ ws) = w ++ (slash ∷ join_slash (v ∷ ws))

-- A word "..": it takes away the word before it, unless that is itself ".."; at the root it goes.
unfoldable pub go_up : Bool → List Text → List Text
go_up true [] = []
go_up false [] = codes ".." ∷ []
go_up rooted (w ∷ ws) = if text_eq w (codes "..") then codes ".." ∷ w ∷ ws else ws

-- One word of the path; `done` holds the words so far, last first.
unfoldable pub clean_word : Bool → List Text → Text → List Text
unfolding go_up
clean_word rooted done w =
    if is_empty w || text_eq w (codes ".")
    then done
    else if text_eq w (codes "..")
    then go_up rooted done
    else w ∷ done

unfoldable pub clean_words : Bool → List Text → List Text → List Text
unfolding clean_word
clean_words rooted done [] = done
clean_words rooted done (w ∷ ws) = clean_words rooted (clean_word rooted done w) ws

abbrev pub is_rooted : Text → Bool
is_rooted [] = false
is_rooted (c ∷ s) = c == slash

-- The words that are left, as a path.
unfoldable pub rebuild : Bool → List Text → Text
unfolding join_slash
rebuild true ws = slash ∷ join_slash ws
rebuild false [] = codes "."
rebuild false (w ∷ ws) = join_slash (w ∷ ws)

-- `path.Clean`
unfoldable pub clean : Text → Text
unfolding clean_words rebuild split_slash
clean s = rebuild (is_rooted s) (reverse (clean_words (is_rooted s) [] (split_slash s)))

-- The elements with a slash between them, without the empty ones in front.
unfoldable pub join_elements : List Text → Text
unfolding join_slash
join_elements [] = []
join_elements (e ∷ es) = if is_empty e then join_elements es else join_slash (e ∷ es)

-- `path.Join`, and `filepath.Join` on Unix.
unfoldable pub path_join : List Text → Text
unfolding join_elements clean
path_join es = let s = join_elements es in if is_empty s then [] else clean s

clean_tests :
    (path_join (codes "a" ∷ codes "b" ∷ codes "c.mp4" ∷ []) ≡ codes "a/b/c.mp4")
    × (path_join (codes "/v1/" ∷ codes "/api/streams" ∷ []) ≡ codes "/v1/api/streams")
    × (path_join ([] ∷ codes "/api/streams" ∷ []) ≡ codes "/api/streams")
    × (path_join (codes "a" ∷ codes ".." ∷ codes "c" ∷ []) ≡ codes "c")
    × (path_join (codes ".." ∷ codes "b" ∷ codes "c" ∷ []) ≡ codes "../b/c")
    × (path_join ([] ∷ [] ∷ []) ≡ [])
unfolding path_join text_eq
clean_tests = (refl, refl, refl, refl, refl, refl)
