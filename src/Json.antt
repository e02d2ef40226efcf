-- ===== src/Json.antt =====
-- The JSON payloads that actions and approvals carry, and `exact_json` of
-- backend/app/services/approvals.py: `json.dumps` with sorted keys, compact separators and ASCII
-- escapes, as the list of code points that it prints. A `dict` is its items in insertion order.
-- Numbers are the naturals: the payloads hold no float, and no negative number.
pub mod Canonical
use Prim.Native.Char.{code}
use relay.Prelude.{
  ℕ, zero, suc, ◌+◌, ◌-◌, ◌*◌, ◌/◌, ◌%◌, Bool, true, false, ◌||◌, ◌&&◌, Option, none, some, List,
  [], ◌∷◌, ◌++◌, String, ltb, leb, ◌==◌, if◌then◌else◌, str_eq, not,
}

mutual
  pub data Json : Type 0 where
    null : Json
    bool : Bool → Json
    num : ℕ → Json
    str : String → Json
    arr : Items → Json
    obj : Fields → Json

  pub data Items : Type 0 where
    nil : Items
    cons : Json → Items → Items

  pub data Fields : Type 0 where
    end : Fields
    field : String → Json → Fields → Fields

abbrev pub codes : String → List ℕ
codes String.[] = []
codes (String.◌∷◌ c s) = code c ∷ codes s

-- Decimal digits, most significant first, with `fuel` above the number of digits.
decimal_from : ℕ → ℕ → List ℕ → List ℕ
decimal_from zero n acc = acc
decimal_from (suc fuel) n acc =
    let rest = decimal_from fuel (n / 10) ((48 + n % 10) ∷ acc) in
    if ltb n 10 then (48 + n) ∷ acc else rest

unfoldable pub decimal : ℕ → List ℕ
unfolding decimal_from
decimal n = decimal_from (suc n) n []

hex_digit : ℕ → ℕ
hex_digit n = if ltb n 10 then 48 + n else 87 + n

-- `\uXXXX`
escape_unit : ℕ → List ℕ
unfolding hex_digit
escape_unit n =
    92
    ∷ 117
    ∷ hex_digit (n / 4096 % 16)
    ∷ hex_digit (n / 256 % 16)
    ∷ hex_digit (n / 16 % 16)
    ∷ hex_digit (n % 16)
    ∷ []

-- A character of a string: the short escapes, the printable ASCII, and UTF-16 units for the rest.
escape_char : ℕ → List ℕ
unfolding escape_unit
escape_char c =
    if c == 34
    then 92 ∷ 34 ∷ []
    else if c == 92
    then 92 ∷ 92 ∷ []
    else if c == 10
    then 92 ∷ 110 ∷ []
    else if c == 13
    then 92 ∷ 114 ∷ []
    else if c == 9
    then 92 ∷ 116 ∷ []
    else if c == 12
    then 92 ∷ 102 ∷ []
    else if c == 8
    then 92 ∷ 98 ∷ []
    else if leb 32 c && leb c 126
    then c ∷ []
    else if ltb c 65536
    then escape_unit c
    else escape_unit (55296 + (c - 65536) / 1024 % 1024) ++ escape_unit (56320 + (c - 65536) % 1024)

escape : List ℕ → List ℕ
unfolding escape_char
escape [] = []
escape (c ∷ cs) = escape_char c ++ escape cs

unfoldable pub quoted : String → List ℕ
unfolding escape
quoted s = 34 ∷ (escape (codes s) ++ 34 ∷ [])

-- Python's order on `str`: by code points, a prefix first.
unfoldable pub codes_before : List ℕ → List ℕ → Bool
codes_before [] [] = false
codes_before [] (c ∷ cs) = true
codes_before (b ∷ bs) [] = false
codes_before (b ∷ bs) (c ∷ cs) =
    let rest = codes_before bs cs in if ltb b c then true else (b == c) && rest

-- The printed items of a dict, sorted by key: a list of keys with the texts of their values.
abbrev pub Printed : Type 0
Printed = List (List ℕ × List ℕ)

-- Stable insertion.
unfoldable pub insert_printed : List ℕ → List ℕ → Printed → Printed
unfolding codes_before
insert_printed k v [] = (k, v) ∷ []
insert_printed k v ((j, w) ∷ rest) =
    let later = insert_printed k v rest in
    if codes_before j k then (j, w) ∷ later else (k, v) ∷ (j, w) ∷ rest

quoted_codes : List ℕ → List ℕ
unfolding escape
quoted_codes k = 34 ∷ (escape k ++ 34 ∷ [])

unfoldable pub print_fields : Printed → List ℕ
unfolding quoted_codes
print_fields [] = []
print_fields ((k, v) ∷ []) = quoted_codes k ++ 58 ∷ v
print_fields ((k, v) ∷ (j, w) ∷ rest) =
    (quoted_codes k ++ 58 ∷ v) ++ 44 ∷ print_fields ((j, w) ∷ rest)

unfoldable mutual
  unfolding quoted decimal insert_printed print_fields

  -- `json.dumps(value, sort_keys=True, separators=(",", ":"))`
  pub exact_json : Json → List ℕ
  exact_json null = 110 ∷ 117 ∷ 108 ∷ 108 ∷ []
  exact_json (bool true) = 116 ∷ 114 ∷ 117 ∷ 101 ∷ []
  exact_json (bool false) = 102 ∷ 97 ∷ 108 ∷ 115 ∷ 101 ∷ []
  exact_json (num n) = decimal n
  exact_json (str s) = quoted s
  exact_json (arr xs) = 91 ∷ (print_items xs ++ 93 ∷ [])
  exact_json (obj fs) = 123 ∷ (print_fields (sort_fields fs) ++ 125 ∷ [])

  pub print_items : Items → List ℕ
  print_items nil = []
  print_items (cons x xs) = exact_json x ++ print_more xs

  pub print_more : Items → List ℕ
  print_more nil = []
  print_more (cons x xs) = 44 ∷ (exact_json x ++ print_more xs)

  pub sort_fields : Fields → Printed
  sort_fields end = []
  sort_fields (field k v fs) = insert_printed (codes k) (exact_json v) (sort_fields fs)

abbrev pub same_codes : List ℕ → List ℕ → Bool
same_codes [] [] = true
same_codes [] (c ∷ cs) = false
same_codes (b ∷ bs) [] = false
same_codes (b ∷ bs) (c ∷ cs) = (b == c) && same_codes bs cs

-- What Python's `==` does not tell apart: `True` is 1 and `False` is 0, at any depth.
unfoldable mutual
  pub numbered : Json → Json
  numbered null = null
  numbered (bool true) = num 1
  numbered (bool false) = num 0
  numbered (num n) = num n
  numbered (str s) = str s
  numbered (arr xs) = arr (numbered_items xs)
  numbered (obj fs) = obj (numbered_fields fs)

  pub numbered_items : Items → Items
  numbered_items nil = nil
  numbered_items (cons x xs) = cons (numbered x) (numbered_items xs)

  pub numbered_fields : Fields → Fields
  numbered_fields end = end
  numbered_fields (field k v fs) = field k (numbered v) (numbered_fields fs)

-- Python's `==`: the order of the items of a dict does not matter.
abbrev pub equal_values : Json → Json → Bool
equal_values a b = same_codes (exact_json (numbered a)) (exact_json (numbered b))

-- `value.get(key)` of a dict
unfoldable pub get_field : String → Fields → Option Json
get_field k end = none
get_field k (field j v fs) = if str_eq j k then some v else get_field k fs

-- `value[key] = item` of a dict
unfoldable pub set_field : String → Json → Fields → Fields
set_field k v end = field k v end
set_field k v (field j w fs) =
    let rest = set_field k v fs in if str_eq j k then field j v fs else field j w rest

-- `bool(value)`
unfoldable pub truthy : Json → Bool
truthy null = false
truthy (bool b) = b
truthy (num n) = not (n == 0)
truthy (str s) = not (str_eq s "")
truthy (arr nil) = false
truthy (arr (cons v vs)) = true
truthy (obj end) = false
truthy (obj (field k v fs)) = true
