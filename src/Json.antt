-- ===== src/Json.antt =====
-- A reader of JSON strings after RFC 8259, section 7, against which the two escaping functions of
-- the program are judged. It is independent of them. (`\u` escapes, which the program never
-- writes, are refused.)
pub mod Decimal
pub mod Object
pub mod Printing
use voice_edge_monitor.Base.{
  ℕ, Bool, true, false, ◌&&◌, Option, none, some, List, [], ◌∷◌, ltb, ◌==◌, if◌then◌else◌,
}

abbrev pub unescape : ℕ → Option ℕ
unescape c =
    if c == b'"'
    then some b'"'
    else if c == b'\\'
    then some b'\\'
    else if c == b'/'
    then some b'/'
    else if c == b'b'
    then some 8
    else if c == b'f'
    then some 12
    else if c == b'n'
    then some 10
    else if c == b'r'
    then some 13
    else if c == b't'
    then some 9
    else none

abbrev pub prepend : Option ℕ → Option (List ℕ × List ℕ) → Option (List ℕ × List ℕ)
prepend none r = none
prepend (some c) none = none
prepend (some c) (some (cs, rest)) = some (c ∷ cs, rest)

-- The text up to the closing quote, and what follows that; `none` if it is no JSON string. The
-- flag says that a backslash has just been read. Control characters must be escaped.
unfoldable pub scan : Bool → List ℕ → Option (List ℕ × List ℕ)
scan escaped [] = none
scan true (c ∷ cs) = prepend (unescape c) (scan false cs)
scan false (c ∷ cs) =
    let after_backslash = scan true cs in
    let after_plain = scan false cs in
    if c == b'"'
    then some ([], cs)
    else if c == b'\\'
    then after_backslash
    else if ltb c 32
    then none
    else prepend (some c) after_plain

-- Every byte passes.
unfoldable pub all_bytes : (ℕ → Bool) → List ℕ → Bool
all_bytes p [] = true
all_bytes p (c ∷ cs) = p c && all_bytes p cs
