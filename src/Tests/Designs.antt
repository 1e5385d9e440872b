-- ===== src/Tests/Designs.antt =====
-- qcrl_campaign.py: the parameters and the expansion of a design with one case.
use quantconnect.Prelude.{◌*◌, ◌^◌, ◌≡◌, refl, none, [], ◌∷◌, String, ok, Ensures}
use quantconnect.Prelude.Int.{pos, div_ℤ}
use quantconnect.Campaign.{Scalar, number, string, Dict}
use quantconnect.Campaign.Parameters.{Reader, validate_parameters}
use quantconnect.Campaign.Expansion.{Naming, Design, expand_cases}
use quantconnect.Campaign.Expansion.Distinct.{IsExpansion, expand_cases-IsExpansion}

abbrev lower : Scalar → String
lower (string s) = s
lower _ = ""

-- A reader of the texts of these parameters.
abbrev reader : Reader
reader = record { parse_int = λ s. none; parse_float = λ s. none; lower_text = lower }

abbrev previous : Dict
previous =
    ("entry_model", string "previous_candle")
    ∷ ("stake_mode", string "flat")
    ∷ ("start_year", number (pos (2021 * 10 ^ 12)))
    ∷ ("end_year", number (pos (2022 * 10 ^ 12)))
    ∷ []

previous_accepted : validate_parameters reader previous ≡ ok tt
unfolding validate_parameters div_ℤ
previous_accepted = refl

abbrev naming : Naming
naming = record { canonical_hash = λ parameters. "hash"; case_id = λ labels hash. hash }

abbrev design : Design
design = record {
  base_parameters = previous;
  variants = [];
  matrix = [];
  case_name_fields = "start_year" ∷ [];
}

expand_cases-IsExpansion_example :
    Ensures (IsExpansion naming reader design) (expand_cases naming reader design)
expand_cases-IsExpansion_example = expand_cases-IsExpansion naming reader design
