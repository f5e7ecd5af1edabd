-- ===== src/Cli.antt =====
-- The command lines of the five programs: the argument loop that their `parse_options` share, over
-- a table of settings, `option_value`, and the number parsers. Each program's table is in a file of
-- Cli/. A text is a list of bytes; `unsigned long`, `size_t` and `uint64_t` have 64 bits.
pub mod Keeping
pub mod Spelling
pub mod Ranges
pub mod Server
pub mod Pipeline
pub mod Capture
pub mod AsrProbe
pub mod WsCli
mod Tests
use Prim.Native.String.{String}
use Prim.Native.Char.{code}
use voice_edge_monitor.Base.{
  ℕ, zero, suc, ◌+◌, ◌%◌, ◌^◌, Bool, true, false, ◌||◌, ◌&&◌, not, Option, none, some, List, [],
  ◌∷◌, ◌++◌, ltb, leb, ◌==◌, if◌then◌else◌, length, bytes_eq, drop, Error, Result, ok, err,
}
use voice_edge_monitor.Base.Int.{ℤ, pos, negsuc}
use voice_edge_monitor.Audio.{Floats}

abbrev pub Text : Type 0
Text = List ℕ

-- The bytes of an ASCII text.
abbrev pub bytes : String → Text
bytes String.[] = []
bytes (String.◌∷◌ c s) = code c ∷ bytes s

-- `argument.rfind(prefix, 0) == 0`.
unfoldable pub starts_with : Text → Text → Bool
starts_with [] argument = true
starts_with (p ∷ ps) [] = false
starts_with (p ∷ ps) (c ∷ cs) = p == c && starts_with ps cs

unfoldable pub is_empty : Text → Bool
is_empty [] = true
is_empty (c ∷ cs) = false

next_argument : List Text → Result (Text × Bool)
next_argument [] = err Error.invalid_argument
next_argument (value ∷ args) = ok (value, true)

-- The value, and whether the index has been advanced to the following argument.
unfoldable pub option_value : Text → Text → List Text → Result (Text × Bool)
unfolding starts_with next_argument
option_value name argument args =
    let prefix = name ++ b'=' ∷ [] in
    if starts_with prefix argument
    then ok (drop (length prefix) argument, false)
    else if bytes_eq argument name
    then next_argument args
    else err Error.invalid_argument

-- A branch of the chain in `parse_options`: one that tests for a prefix and takes a value, or one
-- that tests for the whole argument.
pub data Setting (O : Type 0) : Type 0 where
  valued : Text → (Text → O → Result O) → Setting O
  flag : Text → (O → O) → Setting O

-- How `parse_options` ends; `helped` is `std::exit(0)`.
pub data Parsed (O : Type 0) : Type 0 where
  returned : O → Parsed O
  refused : Error → Parsed O
  helped : Parsed O

-- One round of the loop: the options that it leaves, and whether it has used the next argument.
pub data Round (O : Type 0) : Type 0 where
  goes : Bool → O → Round O
  stops : Error → Round O
  exits : Round O

module _ {O : Type 0} where
  unfoldable pub matches : Setting O → Text → Bool
  unfolding starts_with
  matches (valued name take_value) argument = starts_with name argument
  matches (flag name set) argument = bytes_eq argument name

  unfoldable pub first_match : List (Setting O) → Text → Option (Setting O)
  unfolding matches
  first_match [] argument = none
  first_match (s ∷ settings) argument =
      let later = first_match settings argument in if matches s argument then some s else later

  unfoldable pub after_value : Bool → Result O → Round O
  after_value advanced (err e) = stops e
  after_value advanced (ok o) = goes advanced o

  unfoldable pub use_value : (Text → O → Result O) → O → Result (Text × Bool) → Round O
  unfolding after_value
  use_value take_value o (err e) = stops e
  use_value take_value o (ok (value, advanced)) = after_value advanced (take_value value o)

  unfoldable pub apply_setting : Option (Setting O) → Text → List Text → O → Round O
  unfolding use_value option_value
  apply_setting none argument args o = stops Error.invalid_argument
  apply_setting (some (flag name set)) argument args o = goes false (set o)
  apply_setting (some (valued name take_value)) argument args o =
      use_value take_value o (option_value name argument args)

  unfoldable pub round : List (Setting O) → Text → List Text → O → Round O
  unfolding first_match apply_setting
  round settings argument args o =
      if bytes_eq argument (bytes "--help") || bytes_eq argument (bytes "-h")
      then exits
      else apply_setting (first_match settings argument) argument args o

  -- The loop over the arguments behind the program's name. The flag says that the first one has
  -- been used as a value.
  unfoldable pub parse : List (Setting O) → Bool → List Text → O → Parsed O
  unfolding round
  parse settings used [] o = returned o
  parse settings true (argument ∷ args) o = parse settings false args o
  parse settings false (argument ∷ args) o = elim (round settings argument args o) [
    | exits ↦ helped
    | stops e ↦ refused e
    | goes advanced o' ↦ parse settings advanced args o'
  ]

-- `std::stoull`, `std::stod` and `std::stoi`, which return the number and how many characters they
-- have read, or throw; `std::isfinite`; and the two literals of `VadConfig`.
pub record Numbers (F : Floats) : Type 0 where
  pub stoull : Text → Option (ℕ × ℕ)
  pub stod : Text → Option (F.Double × ℕ)
  pub stoi : Text → Option (ℤ × ℕ)
  pub is_finite : F.Double → Bool
  pub double_0_015 : F.Double
  pub double_0_012 : F.Double

unfoldable pub is_positive : ℤ → Bool
is_positive (pos zero) = false
is_positive (pos (suc n)) = true
is_positive (negsuc n) = false

accept_uint64 : Text → Option (ℕ × ℕ) → Result ℕ
accept_uint64 value none = err Error.invalid_argument
accept_uint64 value (some (parsed, consumed)) =
    if not (consumed == length value) then err Error.invalid_argument else ok (parsed % 2 ^ 64)

unfoldable pub accept_int : Text → Option (ℤ × ℕ) → Result ℤ
unfolding is_positive
accept_int value none = err Error.invalid_argument
accept_int value (some (parsed, consumed)) =
    if not (consumed == length value) || not (is_positive parsed)
    then err Error.invalid_argument
    else ok parsed

module _ {F : Floats} (N : Numbers F) where
  accept_double : Text → Option (F.Double × ℕ) → Result F.Double
  accept_double value none = err Error.invalid_argument
  accept_double value (some (parsed, consumed)) =
      if not (consumed == length value) || not (N.is_finite parsed)
      then err Error.invalid_argument
      else ok parsed

  unfoldable pub parse_uint64 : Text → Result ℕ
  unfolding accept_uint64
  parse_uint64 value = accept_uint64 value (N.stoull value)

  unfoldable pub parse_int : Text → Result ℤ
  unfolding accept_int
  parse_int value = accept_int value (N.stoi value)

  unfoldable pub parse_double : Text → Result F.Double
  unfolding accept_double
  parse_double value = accept_double value (N.stod value)

-- What the branches do with a value: store it, or refuse it.
module _ {O : Type 0} {V : Type 0} where
  unfoldable pub store : (V → Bool) → (V → O → O) → O → Result V → Result O
  store allowed set o (err e) = err e
  store allowed set o (ok v) = if allowed v then ok (set v o) else err Error.invalid_argument

module _ {V : Type 0} where
  unfoldable pub any_value : V → Bool
  any_value v = true

unfoldable pub is_nonzero : ℕ → Bool
is_nonzero v = not (v == 0)

-- `value == 0 || value > most` is refused.
unfoldable pub is_between_1_and : ℕ → ℕ → Bool
is_between_1_and most v = not (v == 0 || ltb most v)

unfoldable pub starts_with_slash : Text → Bool
starts_with_slash [] = false
starts_with_slash (c ∷ cs) = c == b'/'

-- `default_device` of three of the programs; the argument is the environment's value.
unfoldable pub default_device : Option Text → Text
unfolding is_empty
default_device none = bytes "hw:CARD=U0x46d0x81b,DEV=0"
default_device (some t) = if is_empty t then bytes "hw:CARD=U0x46d0x81b,DEV=0" else t
