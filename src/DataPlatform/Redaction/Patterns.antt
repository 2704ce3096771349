-- ===== src/DataPlatform/Redaction/Patterns.antt =====
-- The regular expressions of metadata_security.py: SECRET_KEY, CONNECTION and BEARER, all of them
-- without regard to case.
use Prim.Native.Char.{code}
use Prim.Native.String.{◌++◌}
use kafka_order_event_platfo.Prelude.{
  ℕ, zero, suc, ◌+◌, String, Bool, true, false, ◌&&◌, ◌||◌, not, Option, none, some, List, [], ◌∷◌,
  leb, elem, ◌==◌, nat_eq, length, if◌then◌else◌,
}
use kafka_order_event_platfo.DataPlatform.Values.{codes, is_space}

-- a character as `re` compares it with a small letter, where dotted and dotless i, long s and the
-- Kelvin sign are letters as well
abbrev pub fold_case : ℕ → ℕ
fold_case c =
    if leb 65 c && leb c 90
    then c + 32
    else if c == 304 || c == 305
    then 105
    else if c == 383
    then 115
    else if c == 8490
    then 107
    else c

-- what is left of a text after a word in small letters and signs
unfoldable pub after_codes : List ℕ → String → Option String
after_codes [] s = some s
after_codes (c ∷ cs) String.[] = none
after_codes (c ∷ cs) (String.◌∷◌ d s) =
    let rest = after_codes cs s in if fold_case (code d) == c then rest else none

abbrev pub after_word : String → String → Option String
after_word word s = after_codes (codes word) s

abbrev pub is_found {ℓ} : {A : Type ℓ} → Option A → Bool
is_found none = false
is_found (some _) = true

abbrev pub or_else {ℓ} : {A : Type ℓ} → Option A → Option A → Option A
or_else none m = m
or_else (some a) m = some a

-- a match of SECRET_KEY at the start
abbrev pub secret_here : String → Bool
secret_here s =
    is_found (after_word "token" s)
    || is_found (after_word "password" s)
    || is_found (after_word "secret" s)
    || is_found (after_word "privatekey" s)
    || is_found (after_word "private_key" s)
    || is_found (after_word "private-key" s)
    || is_found (after_word "authorization" s)
    || is_found (after_word "credential" s)

-- `SECRET_KEY.search(key)`
unfoldable pub is_secret_key : String → Bool
unfolding after_codes
is_secret_key String.[] = false
is_secret_key (String.◌∷◌ c s) =
    let later = is_secret_key s in secret_here (String.◌∷◌ c s) || later

-- the rest of a text after the longest run of characters of a class
abbrev pub skip : (ℕ → Bool) → String → String
skip p String.[] = ""
skip p (String.◌∷◌ c s) = let rest = skip p s in if p (code c) then rest else String.◌∷◌ c s

-- after one such character at least
abbrev pub skip_some : (ℕ → Bool) → Option String → Option String
skip_some p none = none
skip_some p (some String.[]) = none
skip_some p (some (String.◌∷◌ c s)) = if p (code c) then some (skip p s) else none

-- `[^\s"']`
abbrev pub is_address_char : ℕ → Bool
is_address_char c = not (is_space c || (c == 34 || c == 39))

-- `[a-z0-9._~+/-]`
abbrev pub is_token_char : ℕ → Bool
is_token_char c =
    let d = fold_case c in
    (leb 97 d && leb d 122) || (leb 45 c && leb c 57) || elem c (95 ∷ 126 ∷ 43 ∷ [])

-- the rest after a match of CONNECTION at the start
unfoldable pub after_connection : String → Option String
unfolding after_codes
after_connection s = skip_some is_address_char (
    or_else (after_word "postgresql://" s) (
      or_else (after_word "postgres://" s)
        (or_else (after_word "https://" s) (after_word "http://" s))))

-- the rest after a match of BEARER at the start
unfoldable pub after_bearer : String → Option String
unfolding after_codes
after_bearer s = skip_some is_token_char (skip_some is_space (after_word "bearer" s))

-- `pattern.sub("[REDACTED]", s)`, with a round for each character: a match is not empty
unfoldable pub substitute : (String → Option String) → ℕ → String → String
substitute match zero s = s
substitute match (suc fuel) String.[] = ""
substitute match (suc fuel) (String.◌∷◌ c s) = elim (match (String.◌∷◌ c s)) [
  | none ↦ String.◌∷◌ c (substitute match fuel s)
  | some rest ↦ "[REDACTED]" ++ substitute match fuel rest
]

unfoldable pub scrub : String → String
unfolding after_connection after_bearer substitute
scrub s =
    let shown = substitute after_connection (length (codes s)) s in
    substitute after_bearer (length (codes shown)) shown
