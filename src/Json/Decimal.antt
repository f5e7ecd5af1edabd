-- ===== src/Json/Decimal.antt =====
-- How an output stream prints an unsigned integer in decimal (`std::ostream::operator<<`).
use voice_edge_monitor.Base.{
  ℕ, zero, suc, ◌+◌, ◌/◌, ◌%◌, ◌≤◌, ◌<◌, ◌≡◌, refl, ap, ◌∙◌, Bool, true, false, Option, none, some,
  List, [], ◌∷◌, ◌++◌, ltb, if◌then◌else◌, if_elim, arith,
}
use voice_edge_monitor.Json.Object.{Place, at_start, in_integer, is_final, move, ends_at, is_number}

-- Its digits; the first argument bounds their number, and the number itself is bound enough.
unfoldable pub digits : ℕ → ℕ → List ℕ
digits zero n = []
digits (suc k) n =
    let rest = digits k (n / 10) in
    if ltb n 10 then (b'0' + n) ∷ [] else rest ++ (b'0' + n % 10) ∷ []

unfoldable pub decimal : ℕ → List ℕ
unfolding digits
decimal n = digits (suc n) n

-- Where a reader stands behind the bytes.
abbrev place_after : Option Place → List ℕ → Option Place
place_after p [] = p
place_after none (c ∷ cs) = none
place_after (some p) (c ∷ cs) = place_after (move p c) cs

abbrev is_end : Option Place → Bool
is_end none = false
is_end (some p) = is_final p

ends_at-place_after : (p : Option Place) (cs : List ℕ) → ends_at p cs ≡ is_end (place_after p cs)
ends_at-place_after none [] = refl
ends_at-place_after none (c ∷ cs) = refl
ends_at-place_after (some p) [] = refl
ends_at-place_after (some p) (c ∷ cs) = ends_at-place_after (move p c) cs

abbrev after_one : Option Place → ℕ → Option Place
after_one none c = none
after_one (some p) c = move p c

place_after-append :
    (p : Option Place) (cs : List ℕ) (c : ℕ)
    → place_after p (cs ++ c ∷ []) ≡ after_one (place_after p cs) c
place_after-append none [] c = refl
place_after-append none (d ∷ ds) c = refl
place_after-append (some p) [] c = refl
place_after-append (some p) (d ∷ ds) c = place_after-append (move p d) ds c

first_digit : (n : ℕ) → 0 < n → n < 10 → move at_start (b'0' + n) ≡ some in_integer
first_digit n l h = ground arith

next_digit : (n : ℕ) → n < 10 → move in_integer (b'0' + n) ≡ some in_integer
next_digit n h = ground arith

digits-in_integer :
    (k n : ℕ) → 0 < n → n ≤ k → place_after (some at_start) (digits k n) ≡ some in_integer
unfolding digits
digits-in_integer zero n l h = absurd (omega (arith, l, h))
digits-in_integer (suc k) n l h =
    if_elim (λ ds. place_after (some at_start) ds ≡ some in_integer) (ltb n 10)
      (λ e. first_digit n l (ground (arith, e)))
      (λ e.
        place_after-append (some at_start) (digits k (n / 10)) (b'0' + n % 10)
        ∙ ap (λ p. after_one p (b'0' + n % 10))
            (digits-in_integer k (n / 10) (ground (arith, e)) (omega (arith, h)))
        ∙ next_digit (n % 10) (omega arith))

decimal-in_integer : (n : ℕ) → 0 < n → place_after (some at_start) (decimal n) ≡ some in_integer
unfolding decimal
decimal-in_integer n l = digits-in_integer (suc n) n l (omega arith)

pub decimal-is_number : (n : ℕ) → is_number (decimal n) ≡ true
unfolding decimal digits
decimal-is_number zero = refl
decimal-is_number (suc n) =
    ends_at-place_after (some at_start) (decimal (suc n))
    ∙ ap is_end (decimal-in_integer (suc n) (omega arith))

-- A number of tenths to one decimal place.
unfoldable pub tenths : ℕ → List ℕ
tenths n = (decimal (n / 10) ++ b'.' ∷ []) ++ (b'0' + n % 10) ∷ []

fraction_digit :
    (n d : ℕ)
    → d < 10
    → is_end (after_one (after_one (place_after (some at_start) (decimal n)) b'.') (b'0' + d))
      ≡ true
unfolding decimal digits
fraction_digit zero d h = ground arith
fraction_digit (suc n) d h =
    ap (λ p. is_end (after_one (after_one p b'.') (b'0' + d)))
      (decimal-in_integer (suc n) (omega arith))
    ∙ ground arith

pub tenths-is_number : (n : ℕ) → is_number (tenths n) ≡ true
unfolding tenths
tenths-is_number n =
    let d = decimal (n / 10) in
    ends_at-place_after (some at_start) ((d ++ b'.' ∷ []) ++ (b'0' + n % 10) ∷ [])
    ∙ ap is_end (place_after-append (some at_start) (d ++ b'.' ∷ []) (b'0' + n % 10))
    ∙ ap (λ p. is_end (after_one p (b'0' + n % 10))) (place_after-append (some at_start) d b'.')
    ∙ fraction_digit (n / 10) (n % 10) (omega arith)
