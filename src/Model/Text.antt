-- ===== src/Model/Text.antt =====
-- JavaScript strings as lists of UTF-16 code units, `trim`, and the two ways in which the program
-- measures the text of a closure: src/policy/closure.policy.ts counts code units, the constraint
-- `closed_requires_rca` of prisma/migrations counts characters.
use incident_api.Base.{
  true, false, ℕ, suc, Bool, ◌&&◌, ◌||◌, List, [], ◌∷◌, leb, ltb, ◌==◌, if◌then◌else◌,
}
use mathlib.Core.List.{reverse}

abbrev pub Text : Type 0
Text = List ℕ

-- `===` on strings.
abbrev pub same_text : Text → Text → Bool
same_text [] [] = true
same_text [] (d ∷ t) = false
same_text (c ∷ s) [] = false
same_text (c ∷ s) (d ∷ t) = c == d && same_text s t

-- White space and line ends, as `String.prototype.trim` removes them.
unfoldable pub is_js_space : ℕ → Bool
is_js_space c =
    (leb 9 c && leb c 13)
    || c == 32
    || c == 160
    || c == 5760
    || (leb 8192 c && leb c 8202)
    || c == 8232
    || c == 8233
    || c == 8239
    || c == 8287
    || c == 12288
    || c == 65279

-- The set that the constraint hands to `btrim`: space, tab, carriage return and line feed.
unfoldable pub is_sql_space : ℕ → Bool
is_sql_space c = c == 32 || c == 9 || c == 13 || c == 10

unfoldable pub drop_while : (ℕ → Bool) → Text → Text
drop_while p [] = []
drop_while p (c ∷ s) = if p c then drop_while p s else c ∷ s

-- Both ends.
unfoldable pub trim_by : (ℕ → Bool) → Text → Text
unfolding drop_while
trim_by p s = reverse (drop_while p (reverse (drop_while p s)))

-- A high surrogate and a low one.
unfoldable pub is_pair : ℕ → ℕ → Bool
is_pair c d = leb 55296 c && ltb c 56320 && leb 56320 d && ltb d 57344

-- A high surrogate with the low one that follows is one character.
unfoldable pub char_length : Text → ℕ
char_length [] = 0
char_length (c ∷ []) = 1
char_length (c ∷ d ∷ s) =
    let pair = char_length s in
    let single = char_length (d ∷ s) in if is_pair c d then suc pair else suc single
