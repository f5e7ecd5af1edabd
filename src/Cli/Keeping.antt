-- ===== src/Cli/Keeping.antt =====
-- What every setting of a table keeps, the whole argument loop keeps.
use voice_edge_monitor.Base.{
  Bool, true, false, ◌||◌, Option, none, some, List, [], ◌∷◌, if_elim, Result, ok, err, bytes_eq,
}
use voice_edge_monitor.Cli.{
  Text, Setting, valued, flag, Parsed, returned, refused, helped, Round, goes, stops, exits, bytes,
  matches, first_match, after_value, use_value, apply_setting, option_value, round, parse,
}

module _ {O : Type 0} (I : O → Type 0) where
  -- A result keeps `I` if it is an exception or an `O` with `I`.
  unfoldable pub Yields : Result O → Type 0
  Yields (err e) = Unit
  Yields (ok o) = I o

  abbrev pub RoundYields : Round O → Type 0
  RoundYields (goes advanced o) = I o
  RoundYields (stops e) = Unit
  RoundYields exits = Unit

  abbrev pub Keeps : Setting O → Type 0
  Keeps (valued name take_value) = (v : Text) (o : O) → I o → Yields (take_value v o)
  Keeps (flag name set) = (o : O) → I o → I (set o)

  infixr 5 ◌and◌
  pub data Kept : List (Setting O) → Type 0 where
    all_kept : Kept []
    ◌and◌ :
        {s : Setting O} {settings : List (Setting O)}
        → Keeps s
        → Kept settings
        → Kept (s ∷ settings)

  abbrev pub FoundKeeps : Option (Setting O) → Type 0
  FoundKeeps none = Unit
  FoundKeeps (some s) = Keeps s

  first_match-Keeps :
      (settings : List (Setting O)) (a : Text) → Kept settings → FoundKeeps (first_match settings a)
  unfolding first_match
  first_match-Keeps [] a all_kept = tt
  first_match-Keeps (s ∷ settings) a (hs and h) =
      if_elim FoundKeeps (matches s a) (λ _. hs) (λ _. first_match-Keeps settings a h)

  after_value-Keeps :
      (advanced : Bool) (r : Result O) → Yields r → RoundYields (after_value advanced r)
  unfolding after_value Yields
  after_value-Keeps advanced (err e) h = tt
  after_value-Keeps advanced (ok o) h = h

  use_value-Keeps :
      (take_value : Text → O → Result O) (o : O) (r : Result (Text × Bool))
      → ((v : Text) → Yields (take_value v o))
      → RoundYields (use_value take_value o r)
  unfolding use_value
  use_value-Keeps take_value o (err e) h = tt
  use_value-Keeps take_value o (ok (v, advanced)) h =
      after_value-Keeps advanced (take_value v o) (h v)

  apply_setting-Keeps :
      (s : Option (Setting O)) (a : Text) (args : List Text) (o : O)
      → FoundKeeps s
      → I o
      → RoundYields (apply_setting s a args o)
  unfolding apply_setting
  apply_setting-Keeps none a args o hs h = tt
  apply_setting-Keeps (some (flag name set)) a args o hs h = hs o h
  apply_setting-Keeps (some (valued name take_value)) a args o hs h =
      use_value-Keeps take_value o (option_value name a args) (λ v. hs v o h)

  round-Keeps :
      (settings : List (Setting O)) (a : Text) (args : List Text) (o : O)
      → Kept settings
      → I o
      → RoundYields (round settings a args o)
  unfolding round
  round-Keeps settings a args o hs h =
      if_elim RoundYields (bytes_eq a (bytes "--help") || bytes_eq a (bytes "-h")) (λ _. tt)
        (λ _.
          apply_setting-Keeps (first_match settings a) a args o (first_match-Keeps settings a hs) h)

  -- If every setting keeps `I`, so do the options that the loop returns.
  abbrev pub ParsedYields : Parsed O → Type 0
  ParsedYields (returned o) = I o
  ParsedYields (refused e) = Unit
  ParsedYields helped = Unit

  pub parse-Keeps :
      (settings : List (Setting O))
      → Kept settings
      → (used : Bool) (args : List Text) (o : O) → I o
      → ParsedYields (parse settings used args o)
  unfolding parse
  parse-Keeps settings hs used [] o h = h
  parse-Keeps settings hs true (a ∷ args) o h = parse-Keeps settings hs false args o h
  parse-Keeps settings hs false (a ∷ args) o h =
      go (round settings a args o) (round-Keeps settings a args o hs h)
        (λ advanced o'. parse-Keeps settings hs advanced args o')
    where
      go :
          (r : Round O)
          → RoundYields r
          → ((advanced : Bool) (o' : O) → I o' → ParsedYields (parse settings advanced args o'))
          → ParsedYields (elim r [
            | exits ↦ helped
            | stops e ↦ refused e
            | goes advanced o' ↦ parse settings advanced args o'
          ])
      go exits k rest = tt
      go (stops e) k rest = tt
      go (goes advanced o') k rest = rest advanced o' k
