-- ===== src/Campaign/Expansion.antt =====
-- qcrl_campaign.py: `expand_cases`. The keys of the matrix come sorted; the name of a case is made of
-- the values of its labels and of the hash of its parameters by the functions of `Naming`.
pub mod Distinct
use quantconnect.Prelude.{
  Bool, true, false, not, Option, none, some, List, [], ◌∷◌, ◌++◌, map, String, str_eq, lookup,
  insert, mem_text, is_empty, if◌then◌else◌, Result, ok, err, campaign_error, raise_if, ◌>>=◌, ◌>>◌,
}
use quantconnect.Campaign.{Scalar, Dict, Case}
use quantconnect.Campaign.Parameters.{Reader, validate_parameters}

-- `canonical_hash` of parameters, and the `slug` of the labels and of the hash.
pub record Naming : Type 0 where
  pub canonical_hash : Dict → String
  pub case_id : List Scalar → String → String

-- An entry of `variants`, and one of `matrix`.
pub data Variant : Type 0 where
  an_object : Dict → Variant
  no_object : Variant

pub data Axis : Type 0 where
  an_array : List Scalar → Axis
  no_array : Axis

pub record Design : Type 0 where
  pub base_parameters : Dict
  pub variants : List Variant
  pub matrix : List (String × Axis)
  pub case_name_fields : List String

-- `d.update(items)`
abbrev pub update : Dict → Dict → Dict
update d [] = d
update d ((key, value) ∷ items) = update (insert key value d) items

abbrev pub axis_values : Axis → Result (List Scalar)
axis_values no_array = err campaign_error
axis_values (an_array values) = raise_if (is_empty values) campaign_error >> ok values

abbrev pub matrix_values : List (String × Axis) → Result (List (String × List Scalar))
matrix_values [] = ok []
matrix_values ((key, axis) ∷ axes) = do
  values ← axis_values axis
  rest ← matrix_values axes
  ok ((key, values) ∷ rest)

abbrev pub with_values : String → List Scalar → List Dict → List Dict
with_values key [] rests = []
with_values key (value ∷ values) rests =
    map (λ rest. (key, value) ∷ rest) rests ++ with_values key values rests

-- `itertools.product`, of which the last key varies first.
abbrev pub combinations : List (String × List Scalar) → List Dict
combinations [] = [] ∷ []
combinations ((key, values) ∷ axes) = with_values key values (combinations axes)

abbrev pub add_label : Option Scalar → List Scalar → List Scalar
add_label none labels = labels
add_label (some value) labels = value ∷ labels

abbrev pub labels_of : List String → Dict → List Scalar
labels_of [] parameters = []
labels_of (field ∷ fields) parameters =
    add_label (lookup field parameters) (labels_of fields parameters)

abbrev pub is_repeated : (Case → String) → String → List Case → Bool
is_repeated name value cases = mem_text value (map name cases)

-- `variants` or `[{}]`
abbrev pub variants_of : List Variant → List Variant
variants_of [] = an_object [] ∷ []
variants_of (variant ∷ variants) = variant ∷ variants

module _ (N : Naming) (R : Reader) (design : Design) where
  abbrev pub case_of : Dict → Case
  case_of parameters = record {
    case_id =
        N.case_id (labels_of design.case_name_fields parameters) (N.canonical_hash parameters);
    parameter_hash = N.canonical_hash parameters;
    parameters = parameters;
  }

  -- One combination; what was seen is what the cases so far have.
  unfoldable pub add_parameters : List Case → Dict → Result (List Case)
  unfolding validate_parameters
  add_parameters cases parameters =
      let c = case_of parameters in
      validate_parameters R parameters
      >> (raise_if (is_repeated (λ d. d.parameter_hash) c.parameter_hash cases) campaign_error
          >> (raise_if (is_repeated (λ d. d.case_id) c.case_id cases) campaign_error
              >> ok (cases ++ c ∷ [])))

  abbrev pub add_all : List Case → List Dict → Result (List Case)
  add_all cases [] = ok cases
  add_all cases (parameters ∷ rest) = add_parameters cases parameters >>= λ more. add_all more rest

  abbrev pub add_variant : List Dict → List Case → Variant → Result (List Case)
  add_variant combos cases no_object = err campaign_error
  add_variant combos cases (an_object variant) =
      add_all cases (map (λ values. update (update design.base_parameters variant) values) combos)

  abbrev pub add_variants : List Dict → List Case → List Variant → Result (List Case)
  add_variants combos cases [] = ok cases
  add_variants combos cases (variant ∷ variants) =
      add_variant combos cases variant >>= λ more. add_variants combos more variants

  unfoldable pub expand_cases : Result (List Case)
  unfolding add_parameters
  expand_cases = matrix_values design.matrix >>= λ axes.
      add_variants (combinations axes) [] (variants_of design.variants)
