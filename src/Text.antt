-- ===== src/Text.antt =====
-- The text operations of Python that the program uses: `str` of a number, `join` and slices.
use Prim.Native.String.{◌++◌, compare}
use text.Mathlib.Text.{starts_with, is_le}
use kafka_order_event_platfo.Prelude.{
  Bool, ◌||◌, ℕ, zero, suc, ◌/◌, ◌%◌, String, List, [], ◌∷◌, ltb, if◌then◌else◌, ◌==◌, string_eq,
  nat_eq,
}

abbrev pub digit : ℕ → String
digit n =
    if n == 0
    then "0"
    else if n == 1
    then "1"
    else if n == 2
    then "2"
    else if n == 3
    then "3"
    else if n == 4
    then "4"
    else if n == 5
    then "5"
    else if n == 6
    then "6"
    else if n == 7
    then "7"
    else if n == 8
    then "8"
    else "9"

-- with a round for each digit
abbrev pub decimal_from : ℕ → ℕ → String
decimal_from zero n = ""
decimal_from (suc fuel) n =
    let rest = decimal_from fuel (n / 10) in if ltb n 10 then digit n else rest ++ digit (n % 10)

-- `str(n)`: a number has no more digits than its value and one
unfoldable pub decimal : ℕ → String
decimal n = decimal_from (suc n) n

-- `separator.join(parts)`
unfoldable pub join : String → List String → String
join separator [] = ""
join separator (p ∷ []) = p
join separator (p ∷ q ∷ ps) = p ++ (separator ++ join separator (q ∷ ps))

-- `s[:n]`, in characters
unfoldable pub take_chars : ℕ → String → String
take_chars zero s = ""
take_chars (suc n) String.[] = ""
take_chars (suc n) (String.◌∷◌ c s) = String.◌∷◌ c (take_chars n s)

-- `s or fallback`
abbrev pub or_text : String → String → String
or_text s fallback = if s == "" then fallback else s

-- `s.endswith(t)`
unfoldable pub ends_with : String → String → Bool
ends_with String.[] t = t == ""
ends_with (String.◌∷◌ c s) t = String.◌∷◌ c s == t || ends_with s t

-- `t in s`
unfoldable pub contains_text : String → String → Bool
contains_text String.[] t = t == ""
contains_text (String.◌∷◌ c s) t = starts_with (String.◌∷◌ c s) t || contains_text s t

-- `s <= t`: texts are ordered by their code points
abbrev pub le_text : String → String → Bool
le_text s t = is_le (compare s t)
