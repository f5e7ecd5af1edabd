-- ===== src/Cli/Spelling.antt =====
-- The two spellings of an option with a value, in any table of settings.
use voice_edge_monitor.Base.{
  ◌≡◌, refl, sym, true, false, List, [], ◌∷◌, ◌++◌, All, Result, ok, err, ◌∙◌, ap,
}
use voice_edge_monitor.Cli.{
  Text, Setting, valued, flag, Round, goes, stops, exits, Parsed, refused, helped, parse, round,
  after_value,
}

module _ {O : Type 0} (settings : List (Setting O)) where
  -- `--name=value` and `--name value` parse alike.
  abbrev pub Agrees : Setting O → Type 0
  Agrees (valued name take_value) =
      (v : Text) (args : List Text) (o : O)
      → parse settings false ((name ++ b'=' ∷ v) ∷ args) o
        ≡ parse settings false (name ∷ v ∷ args) o
  Agrees (flag name set) = Unit

  -- The table sends both spellings to this setting.
  abbrev pub RoundsAgree : Setting O → Type 0
  RoundsAgree (valued name take_value) =
      (v : Text) (args : List Text) (o : O)
      → (round settings (name ++ b'=' ∷ v) args o ≡ after_value false (take_value v o))
        × (round settings name (v ∷ args) o ≡ after_value true (take_value v o))
  RoundsAgree (flag name set) = Unit

  abbrev proceed : Round O → List Text → Parsed O
  proceed r args = elim r [
    | exits ↦ helped
    | stops e ↦ refused e
    | goes advanced o' ↦ parse settings advanced args o'
  ]

  parse-proceed :
      (a : Text) (args : List Text) (o : O)
      → parse settings false (a ∷ args) o ≡ proceed (round settings a args o) args
  unfolding parse
  parse-proceed a args o = refl

  proceed-after_value :
      (r : Result O) (v : Text) (args : List Text)
      → proceed (after_value false r) args ≡ proceed (after_value true r) (v ∷ args)
  unfolding parse after_value
  proceed-after_value (err e) v args = refl
  proceed-after_value (ok o) v args = refl

  setting-Agrees : (s : Setting O) → RoundsAgree s → Agrees s
  setting-Agrees (flag name set) h = tt
  setting-Agrees (valued name take_value) h = λ v args o.
      parse-proceed (name ++ b'=' ∷ v) args o
      ∙ ap (λ r. proceed r args) (h v args o).0
      ∙ proceed-after_value (take_value v o) v args
      ∙ sym (ap (λ r. proceed r (v ∷ args)) (h v args o).1)
      ∙ sym (parse-proceed name (v ∷ args) o)

  infixr 5 ◌and◌
  pub data Spelled : List (Setting O) → Type 0 where
    all_spelled : Spelled []
    ◌and◌ :
        {s : Setting O} {some_settings : List (Setting O)}
        → RoundsAgree s
        → Spelled some_settings
        → Spelled (s ∷ some_settings)

  pub settings-Agree :
      (some_settings : List (Setting O)) → Spelled some_settings → All Agrees some_settings
  settings-Agree [] all_spelled = tt
  settings-Agree (s ∷ rest) (h and hs) = (setting-Agrees s h, settings-Agree rest hs)
