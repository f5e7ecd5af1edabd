-- ===== src/Json/Object.antt =====
-- A reader of JSON objects without nested values, after RFC 8259, sections 4, 6 and 7, against which the
-- messages of the program are judged. It is independent of them. (Numbers with an exponent, which the
-- program never writes, the literals `true`, `false` and `null`, and space between tokens are refused.)
use voice_edge_monitor.Base.{
  ℕ, zero, suc, Bool, true, false, ◌&&◌, Option, none, some, List, [], ◌∷◌, leb, ◌==◌,
  if◌then◌else◌, length,
}
use voice_edge_monitor.Json.{scan}

pub data Value : Type 0 where
  text : List ℕ → Value
  number : List ℕ → Value

-- Where the reader of a number stands: at its beginning, behind the sign, behind a leading zero, in the
-- integer, behind the point, in the fraction.
pub data Place : Type 0 where
  at_start signed leading_zero in_integer at_point in_fraction : Place

abbrev pub is_digit : ℕ → Bool
is_digit c = leb b'0' c && leb c b'9'

abbrev pub is_final : Place → Bool
is_final at_start = false
is_final signed = false
is_final leading_zero = true
is_final in_integer = true
is_final at_point = false
is_final in_fraction = true

-- The place behind one more byte, if the number goes on with it.
abbrev pub move : Place → ℕ → Option Place
move at_start c =
    if c == b'-'
    then some signed
    else if c == b'0'
    then some leading_zero
    else if is_digit c
    then some in_integer
    else none
move signed c =
    if c == b'0' then some leading_zero else if is_digit c then some in_integer else none
move leading_zero c = if c == b'.' then some at_point else none
move in_integer c =
    if is_digit c then some in_integer else if c == b'.' then some at_point else none
move at_point c = if is_digit c then some in_fraction else none
move in_fraction c = if is_digit c then some in_fraction else none

-- The longest number, and what follows it.
unfoldable pub scan_number : Place → List ℕ → Option (List ℕ × List ℕ)
scan_number p [] = if is_final p then some ([], []) else none
scan_number p (c ∷ cs) = elim (move p c) [
  | none ↦ if is_final p then some ([], c ∷ cs) else none
  | some q ↦ elim (scan_number q cs) [ none ↦ none | some (digits, rest) ↦ some (c ∷ digits, rest) ]
]

-- All of it is one number.
abbrev pub ends_at : Option Place → List ℕ → Bool
ends_at none cs = false
ends_at (some p) [] = is_final p
ends_at (some p) (c ∷ cs) = ends_at (move p c) cs

abbrev pub is_number : List ℕ → Bool
is_number cs = ends_at (some at_start) cs

unfoldable pub expect : ℕ → List ℕ → Option (List ℕ)
expect c [] = none
expect c (d ∷ ds) = if d == c then some ds else none

abbrev pub as_text : Option (List ℕ × List ℕ) → Option (Value × List ℕ)
as_text none = none
as_text (some (t, rest)) = some (text t, rest)

abbrev pub as_number : Option (List ℕ × List ℕ) → Option (Value × List ℕ)
as_number none = none
as_number (some (t, rest)) = some (number t, rest)

unfoldable pub read_value : List ℕ → Option (Value × List ℕ)
unfolding scan scan_number
read_value [] = none
read_value (c ∷ cs) =
    if c == b'"' then as_text (scan false cs) else as_number (scan_number at_start (c ∷ cs))

infixl 5 ◌>>=◌
abbrev pub ◌>>=◌ {ℓ κ} : {A : Type ℓ} {B : Type κ} → Option A → (A → Option B) → Option B
none >>= k = none
some a >>= k = k a

abbrev pub Member : Type 0
Member = List ℕ × Value

abbrev pub named_by : List ℕ → Option (Value × List ℕ) → Option (Member × List ℕ)
named_by key none = none
named_by key (some (value, rest)) = some ((key, value), rest)

-- What follows the quote behind a key: a colon and the value.
abbrev pub read_rest : List ℕ × List ℕ → Option (Member × List ℕ)
read_rest (key, cs) = expect b':' cs >>= λ rest. named_by key (read_value rest)

-- `"key":value`.
unfoldable pub read_member : List ℕ → Option (Member × List ℕ)
unfolding expect read_value
read_member cs = expect b'"' cs >>= λ rest. scan false rest >>= read_rest

abbrev pub before_all : Member → Option (List Member) → Option (List Member)
before_all m none = none
before_all m (some ms) = some (m ∷ ms)

-- What follows a member: a comma and what reads more members, or a brace that ends the text.
abbrev pub continue_object :
    (List ℕ → Option (List Member)) → Member × List ℕ → Option (List Member)
continue_object more (m, []) = none
continue_object more (m, c ∷ rest) =
    if c == b','
    then before_all m (more rest)
    else if c == b'}' && (length rest == 0)
    then some (m ∷ [])
    else none

-- The members up to the end, `n` at most.
unfoldable pub read_members : ℕ → List ℕ → Option (List Member)
unfolding read_member
read_members zero cs = none
read_members (suc n) cs = read_member cs >>= continue_object (read_members n)

-- An object of at least one member.
unfoldable pub read_object : List ℕ → Option (List Member)
unfolding expect read_members
read_object cs = expect b'{' cs >>= read_members (length cs)
