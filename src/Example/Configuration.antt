-- ===== src/Example/Configuration.antt =====
-- `parse_configuration` of modules/example/src/lib.rs. `serde_yaml::from_value` at the type of the
-- configuration, which a derive macro writes, is an argument.
use better_commerce.Prelude.{
  ◌≡◌, refl, ◌↔◌, Bool, true, false, not, ◌&&◌, ◌||◌, ℕ, Text, text, [], ◌∷◌, Result, ok, err,
  arith, leb, ◌==◌, if◌then◌else◌,
}
use better_commerce.Prelude.Results.{map_err, ensure, ◌>>=◌, ◌>>◌}
use better_commerce.Prelude.Chars.{is_empty}
use better_commerce.Example.Types.{
  ExampleConfiguration, ExampleConfigurationError, invalid, empty_label,
}

-- `char::is_whitespace`: Unicode's White_Space.
unfoldable pub is_whitespace : ℕ → Bool
is_whitespace c =
    (leb 0x9 c && leb c 0xd)
    || (c == 0x20
        || (c == 0x85
            || (c == 0xa0
                || (c == 0x1680
                    || ((leb 0x2000 c && leb c 0x200a)
                        || (c == 0x2028
                            || (c == 0x2029 || (c == 0x202f || (c == 0x205f || c == 0x3000)))))))))

unfoldable pub trim_start : Text → Text
trim_start [] = []
trim_start (c ∷ s) = let rest = trim_start s in if is_whitespace c then rest else c ∷ s

unfoldable pub trim_end : Text → Text
trim_end [] = []
trim_end (c ∷ s) =
    let rest = trim_end s in if is_whitespace c && is_empty rest then [] else c ∷ rest

-- `str::trim`.
abbrev pub trim : Text → Text
trim s = trim_end (trim_start s)

abbrev pub show_configuration_error : ExampleConfigurationError → Text
show_configuration_error (invalid error) = error
show_configuration_error empty_label = text "configuration.label must not be empty"

module _ {Value : Type 0} (from_value : Value → Result Text ExampleConfiguration) where
  unfoldable pub parse_configuration : Value → Result ExampleConfigurationError ExampleConfiguration
  parse_configuration value = do
    configuration ← map_err invalid (from_value value)
    ensure (not (is_empty (trim configuration.label))) empty_label
    ok configuration

-- Some character is not white space.
unfoldable pub is_shown : Text → Bool
is_shown [] = false
is_shown (c ∷ s) = not (is_whitespace c) || is_shown s

is_empty-trim_end : (s : Text) → is_empty (trim_end s) ≡ not (is_shown s)
unfolding trim_end is_shown
is_empty-trim_end [] = refl
is_empty-trim_end (c ∷ s) = ground (arith, is_empty-trim_end s)

is_shown-trim_start : (s : Text) → is_shown (trim_start s) ≡ is_shown s
unfolding trim_start is_shown
is_shown-trim_start [] = refl
is_shown-trim_start (c ∷ s) = ground (arith, is_shown-trim_start s)

is_empty-trim : (s : Text) → is_empty (trim s) ≡ not (is_shown s)
is_empty-trim s = rw (is_empty-trim_end (trim_start s), is_shown-trim_start s) refl

module _ {Value : Type 0} (from_value : Value → Result Text ExampleConfiguration) where
  -- Parsing gives the deserialized configuration exactly if its label has a character that is not
  -- white space.
  pub parse_configuration_iff :
      (value : Value) (c : ExampleConfiguration)
      → (parse_configuration from_value value ≡ ok c)
        ↔ ((from_value value ≡ ok c) × (is_shown c.label ≡ true))
  unfolding parse_configuration
  parse_configuration_iff value c = parsed (from_value value)
    where
      parsed :
          (r : Result Text ExampleConfiguration)
          → ((map_err invalid r >>= λ configuration.
                ensure (not (is_empty (trim configuration.label))) empty_label >> ok configuration)
              ≡ ok c)
            ↔ ((r ≡ ok c) × (is_shown c.label ≡ true))
      parsed (ok d) = ground (arith, is_empty-trim d.label)
      parsed (err e) = ground arith
