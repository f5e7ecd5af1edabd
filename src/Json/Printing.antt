-- ===== src/Json/Printing.antt =====
-- Objects as the program prints them, which the reader reads back.
use voice_edge_monitor.Base.{
  ℕ, zero, suc, ◌≤◌, ◌<◌, ◌≡◌, refl, ap, subst, ◌∙◌, Bool, true, false, ◌&&◌, ◌||◌, not, Option,
  none, some, List, [], ◌∷◌, ◌++◌, ltb, ◌==◌, if◌then◌else◌, length, length-append, arith,
}
use voice_edge_monitor.Json.{scan, all_bytes}
use voice_edge_monitor.Json.Object.{
  Value, text, number, Place, at_start, signed, leading_zero, in_integer, at_point, in_fraction,
  move, scan_number, ends_at, is_number, as_text, as_number, read_value, read_member, read_members,
  read_object, ◌>>=◌, Member, named_by, read_rest, before_all, continue_object,
}

-- A value as it is printed: a number; or a text between quotes, printed as `raw`, which reads as `meaning`
-- if `good` holds, and is no JSON string if not.
pub data Shown : Type 0 where
  numeral : List ℕ → Shown
  quoted : List ℕ → List ℕ → Bool → Shown

abbrev pub value_of : Shown → Value
value_of (numeral v) = number v
value_of (quoted raw meaning good) = text meaning

abbrev pub is_good : Shown → Bool
is_good (numeral v) = true
is_good (quoted raw meaning good) = good

abbrev pub IsShown : Shown → Type 0
IsShown (numeral v) = is_number v ≡ true
IsShown (quoted raw meaning good) =
    (rest : List ℕ)
    → scan false (raw ++ b'"' ∷ rest) ≡ (if good then some (meaning, rest) else none)

-- A text that needs no escapes.
abbrev pub is_plain : ℕ → Bool
is_plain c = not (ltb c 32) && (not (c == b'"') && not (c == b'\\'))

abbrev pub IsPlain : List ℕ → Type 0
IsPlain key = all_bytes is_plain key ≡ true

infixr 5 ◌and◌
pub data AreShown : List (List ℕ × Shown) → Type 0 where
  end : AreShown []
  ◌and◌ :
      {key : List ℕ} {s : Shown} {fields : List (List ℕ × Shown)}
      → IsPlain key × IsShown s
      → AreShown fields
      → AreShown ((key, s) ∷ fields)

abbrev pub put_value : Shown → List ℕ → List ℕ
put_value (numeral v) rest = v ++ rest
put_value (quoted raw meaning good) rest = b'"' ∷ raw ++ b'"' ∷ rest

abbrev pub put : List ℕ → Shown → List ℕ → List ℕ
put key s rest = b'"' ∷ key ++ b'"' ∷ b':' ∷ put_value s rest

-- The object with these members, of which there is one at least.
abbrev pub put_all : List ℕ → Shown → List (List ℕ × Shown) → List ℕ
put_all key s [] = put key s (b'}' ∷ [])
put_all key s ((key', s') ∷ fields) = put key s (b',' ∷ put_all key' s' fields)

abbrev pub print : List ℕ → Shown → List (List ℕ × Shown) → List ℕ
print key s fields = b'{' ∷ put_all key s fields

abbrev pub all_good : List (List ℕ × Shown) → Bool
all_good [] = true
all_good ((key, s) ∷ fields) = is_good s && all_good fields

abbrev pub members : List (List ℕ × Shown) → List (List ℕ × Value)
members [] = []
members ((key, s) ∷ fields) = (key, value_of s) ∷ members fields

pub scan-plain :
    (key rest : List ℕ) → IsPlain key → scan false (key ++ b'"' ∷ rest) ≡ some (key, rest)
unfolding scan all_bytes
scan-plain [] rest h = refl
scan-plain (c ∷ cs) rest h = ground (arith, scan-plain cs rest)

pub and_true : (b : Bool) → (b && true) ≡ b
and_true true = refl
and_true false = refl

untrue : false ≡ true → ⊥
untrue e = cc

abbrev is_stop : ℕ → Bool
is_stop c = c == b',' || c == b'}'

scan_number-stop :
    (p : Place) (v : List ℕ) (c : ℕ) (rest : List ℕ)
    → ends_at (some p) v ≡ true
    → is_stop c ≡ true
    → scan_number p (v ++ c ∷ rest) ≡ some (v, c ∷ rest)
unfolding scan_number
scan_number-stop at_start [] c rest h k = ground arith
scan_number-stop signed [] c rest h k = ground arith
scan_number-stop leading_zero [] c rest h k = ground arith
scan_number-stop in_integer [] c rest h k = ground arith
scan_number-stop at_point [] c rest h k = ground arith
scan_number-stop in_fraction [] c rest h k = ground arith
scan_number-stop p (d ∷ ds) c rest h k =
    go (move p d) refl (λ q e. scan_number-stop q ds c rest e k)
  where
    go :
        (m : Option Place)
        → move p d ≡ m
        → ((q : Place)
            → ends_at (some q) ds ≡ true
            → scan_number q (ds ++ c ∷ rest) ≡ some (ds, c ∷ rest))
        → scan_number p (d ∷ ds ++ c ∷ rest) ≡ some (d ∷ ds, c ∷ rest)
    go none e ih = absurd (untrue (subst (λ m. ends_at m ds ≡ true) e h))
    go (some q) e ih = ground (arith, e, ih q (subst (λ m. ends_at m ds ≡ true) e h))

not_quote : (d : ℕ) (ds : List ℕ) → is_number (d ∷ ds) ≡ true → (d == b'"') ≡ false
not_quote d ds h = ground arith

read_value-number :
    (d : ℕ) (ds : List ℕ)
    → (d == b'"') ≡ false
    → read_value (d ∷ ds) ≡ as_number (scan_number at_start (d ∷ ds))
unfolding read_value
read_value-number d ds e = rw e refl

read_value-put :
    (s : Shown) (c : ℕ) (rest : List ℕ)
    → IsShown s
    → is_stop c ≡ true
    → read_value (put_value s (c ∷ rest))
      ≡ (if is_good s then some (value_of s, c ∷ rest) else none)
read_value-put (numeral []) c rest h k = absurd (untrue h)
read_value-put (numeral (d ∷ ds)) c rest h k =
    read_value-number d (ds ++ c ∷ rest) (not_quote d ds h)
    ∙ ap as_number (scan_number-stop at_start (d ∷ ds) c rest h k)
read_value-put (quoted raw meaning good) c rest h k =
    unfold read_value in (ap as_text (h (c ∷ rest)) ∙ go good)
  where
    go :
        (b : Bool)
        → as_text (if b then some (meaning, c ∷ rest) else none)
          ≡ (if b then some (text meaning, c ∷ rest) else none)
    go true = refl
    go false = refl

named_by-chosen :
    (key : List ℕ) (b : Bool) (v : Value) (rest : List ℕ)
    → named_by key (if b then some (v, rest) else none)
      ≡ (if b then some ((key, v), rest) else none)
named_by-chosen key true v rest = refl
named_by-chosen key false v rest = refl

read_member-put :
    (key : List ℕ) (s : Shown) (c : ℕ) (rest : List ℕ)
    → IsPlain key
    → IsShown s
    → is_stop c ≡ true
    → read_member (put key s (c ∷ rest))
      ≡ (if is_good s then some ((key, value_of s), c ∷ rest) else none)
read_member-put key s c rest l h k =
    unfold read_member in
    (ap (λ r. r >>= read_rest) (scan-plain key (b':' ∷ put_value s (c ∷ rest)) l)
      ∙ ap (named_by key) (read_value-put s c rest h k)
      ∙ named_by-chosen key (is_good s) (value_of s) (c ∷ rest))

last_member :
    (b : Bool) (m : Member) (more : List ℕ → Option (List Member))
    → ((if b then some (m, b'}' ∷ []) else none) >>= continue_object more)
      ≡ (if b && true then some (m ∷ []) else none)
last_member true m more = refl
last_member false m more = refl

inner_member :
    (b d : Bool) (m : Member) (ms : List Member) (more : List ℕ → Option (List Member))
    (rest : List ℕ)
    → more rest ≡ (if d then some ms else none)
    → ((if b then some (m, b',' ∷ rest) else none) >>= continue_object more)
      ≡ (if b && d then some (m ∷ ms) else none)
inner_member false d m ms more rest e = refl
inner_member true true m ms more rest e = ap (before_all m) e
inner_member true false m ms more rest e = ap (before_all m) e

read_members-put_all :
    (n : ℕ) (key : List ℕ) (s : Shown) (fields : List (List ℕ × Shown))
    → length fields < n
    → AreShown ((key, s) ∷ fields)
    → read_members n (put_all key s fields)
      ≡ (if all_good ((key, s) ∷ fields) then some (members ((key, s) ∷ fields)) else none)
unfolding read_members
read_members-put_all zero key s fields l h = absurd (omega (arith, l))
read_members-put_all (suc n) key s [] l ((a, b) and t) =
    ap (λ r. r >>= continue_object (read_members n)) (read_member-put key s b'}' [] a b refl)
    ∙ last_member (is_good s) (key, value_of s) (read_members n)
read_members-put_all (suc n) key s ((key', s') ∷ fields) l ((a, b) and t) =
    ap (λ r. r >>= continue_object (read_members n))
      (read_member-put key s b',' (put_all key' s' fields) a b refl)
    ∙ inner_member (is_good s) (all_good ((key', s') ∷ fields)) (key, value_of s)
        (members ((key', s') ∷ fields)) (read_members n) (put_all key' s' fields)
        (read_members-put_all n key' s' fields (omega (arith, l)) t)

length-put_value : (s : Shown) (rest : List ℕ) → length rest ≤ length (put_value s rest)
length-put_value (numeral v) rest = rw (length-append v rest) (omega arith)
length-put_value (quoted raw meaning good) rest = rw (length-append raw (b'"' ∷ rest)) (omega arith)

length-put :
    (key : List ℕ) (s : Shown) (rest : List ℕ) → suc (length rest) ≤ length (put key s rest)
length-put key s rest =
    rw (length-append key (b'"' ∷ b':' ∷ put_value s rest)) (omega (arith, length-put_value s rest))

length-put_all :
    (key : List ℕ) (s : Shown) (fields : List (List ℕ × Shown))
    → length fields < length (put_all key s fields)
length-put_all key s [] = omega (arith, length-put key s (b'}' ∷ []))
length-put_all key s ((key', s') ∷ fields) =
    omega (arith, length-put key s (b',' ∷ put_all key' s' fields), length-put_all key' s' fields)

-- What is printed reads back as the members meant, if every text of it is good, and is refused if not.
pub read_object-print :
    (key : List ℕ) (s : Shown) (fields : List (List ℕ × Shown))
    → AreShown ((key, s) ∷ fields)
    → read_object (print key s fields)
      ≡ (if all_good ((key, s) ∷ fields) then some (members ((key, s) ∷ fields)) else none)
read_object-print key s fields h =
    unfold read_object in
    read_members-put_all (length (print key s fields)) key s fields
      (omega (arith, length-put_all key s fields)) h
