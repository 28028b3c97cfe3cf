-- ===== src/Tests/Codecs.antt =====
-- A codec for cursors that meets what the program relies on: texts with their lengths before them.
use incident_api.Base.{
  ℕ, zero, suc, ◌≡◌, refl, ap, Option, none, some, List, [], ◌∷◌, ◌++◌, length, take, drop,
}
use incident_api.Model.Text.{Text}
use incident_api.Pagination.Tokens.{
  Codec, Json, scalar, object, CursorValue, string, number, null, other,
}

take-append : (s rest : Text) → take (length s) (s ++ rest) ≡ s
take-append [] rest = refl
take-append (c ∷ s) rest = ap (◌∷◌ c) (take-append s rest)

drop-append : (s rest : Text) → drop (length s) (s ++ rest) ≡ rest
drop-append [] rest = refl
drop-append (c ∷ s) rest = drop-append s rest

abbrev print_value : CursorValue → Text → Text
print_value (string s) rest = 0 ∷ length s ∷ (s ++ rest)
print_value (number n) rest = 1 ∷ n ∷ rest
print_value null rest = 2 ∷ rest
print_value other rest = 3 ∷ rest

abbrev read_value : Text → CursorValue × Text
read_value (zero ∷ n ∷ s) = (string (take n s), drop n s)
read_value (suc zero ∷ n ∷ s) = (number n, s)
read_value (suc (suc zero) ∷ s) = (null, s)
read_value (c ∷ s) = (other, s)
read_value [] = (other, [])

read-print_value : (v : CursorValue) (rest : Text) → read_value (print_value v rest) ≡ (v, rest)
read-print_value (string s) rest = rw (take-append s rest, drop-append s rest) refl
read-print_value (number n) rest = refl
read-print_value null rest = refl
read-print_value other rest = refl

abbrev print_values : List CursorValue → Text
print_values [] = []
print_values (v ∷ vs) = print_value v (print_values vs)

abbrev read_values : ℕ → Text → List CursorValue
read_values zero s = []
read_values (suc n) s = let (v, rest) = read_value s in v ∷ read_values n rest

read-print_values : (vs : List CursorValue) → read_values (length vs) (print_values vs) ≡ vs
read-print_values [] = refl
read-print_values (v ∷ vs) =
    rw (read-print_value v (print_values vs)) (ap (◌∷◌ v) (read-print_values vs))

abbrev print_array : Option (List CursorValue) → Text
print_array none = 0 ∷ []
print_array (some vs) = 1 ∷ length vs ∷ print_values vs

abbrev read_array : Text → Option (List CursorValue)
read_array (suc zero ∷ n ∷ s) = some (read_values n s)
read_array s = none

read-print_array : (v : Option (List CursorValue)) → read_array (print_array v) ≡ v
read-print_array none = refl
read-print_array (some vs) = ap some (read-print_values vs)

abbrev print : Json → Text
print scalar = 0 ∷ []
print (object none v) = 1 ∷ print_array v
print (object (some k) v) = 2 ∷ length k ∷ (k ++ print_array v)

abbrev parse : Text → Option Json
parse (zero ∷ s) = some scalar
parse (suc zero ∷ s) = some (object none (read_array s))
parse (suc (suc zero) ∷ n ∷ s) = some (object (some (take n s)) (read_array (drop n s)))
parse s = none

pub parse-print : (j : Json) → parse (print j) ≡ some j
parse-print scalar = refl
parse-print (object none v) = ap (λ a. some (object none a)) (read-print_array v)
parse-print (object (some k) v) =
    rw (take-append k (print_array v), drop-append k (print_array v), read-print_array v) refl

pub print_some : (j : Json) → (c : ℕ) × (s : Text) × (print j ≡ c ∷ s)
print_some scalar = (_, _, refl)
print_some (object none v) = (_, _, refl)
print_some (object (some k) v) = (_, _, refl)

abbrev read_date : Text → Option ℕ
read_date (t ∷ []) = some t
read_date s = none

abbrev read_id : Text → ℕ
read_id (i ∷ s) = i
read_id [] = 0

abbrev pub plain_codec : Codec
plain_codec = record {
  encode = print;
  decode = parse;
  to_iso = λ t. t ∷ [];
  parse_date = read_date;
  id_text = λ i. i ∷ [];
  id_place = read_id;
  encode_some = print_some;
  decode-encode = parse-print;
  parse-to_iso = λ t. refl;
  place-id_text = λ i. refl;
}
