-- ===== src/Lake/Schema.antt =====
-- libs/schema/parquet_schemas.py: the schemas of the files, and the check of a row against one.
use agentic_data_engineering.Base.{
  String, Bool, true, false, not, ◌&&◌, Option, none, some, List, [], ◌∷◌, ◌++◌, if◌then◌else◌,
  is_some,
}
use agentic_data_engineering.Base.Equality.{nat_eq, string_eq, option_eq}
use agentic_data_engineering.Base.Dict.{Dict, get, put}

-- the classes of Python that the check tells apart
pub data PyValue : Type 0 where
  none_value int_value bool_value float_value datetime_value timedelta_value : PyValue
  other_value : PyValue
  str_value : String → PyValue

-- the kinds of `pa.DataType` that the check tells apart
pub data DataType : Type 0 where
  string large_string integer floating boolean timestamp duration other_type : DataType

pub record Field : Type 0 where
  pub name : String
  pub type : DataType
  pub nullable : Bool

pub data SchemaError : Type 0 where
  required_field_is_null type_mismatch missing_required_field : String → SchemaError

unfoldable pub is_str : PyValue → Bool
is_str (str_value s) = true
is_str v = false

unfoldable pub is_int : PyValue → Bool
is_int int_value = true
is_int v = false

-- `_check_type_compatible`
unfoldable pub check_type_compatible : PyValue → DataType → Bool
unfolding is_str is_int
check_type_compatible none_value t = true
check_type_compatible v string = is_str v
check_type_compatible v large_string = is_str v
check_type_compatible v integer = is_int v
check_type_compatible float_value floating = true
check_type_compatible v floating = is_int v
check_type_compatible bool_value boolean = true
check_type_compatible v boolean = false
check_type_compatible datetime_value timestamp = true
check_type_compatible v timestamp = is_str v
check_type_compatible timedelta_value duration = true
check_type_compatible bool_value duration = true
check_type_compatible v duration = is_int v
check_type_compatible v other_type = true

unfoldable pub is_none : PyValue → Bool
is_none none_value = true
is_none v = false

-- `{f.name: f for f in schema}`
unfoldable pub schema_fields : List Field → Dict String Field → Dict String Field
unfolding put
schema_fields [] d = d
schema_fields (f ∷ fs) d = schema_fields fs (put f.name f d)

-- the errors of one value of the row
unfoldable pub value_errors : String → PyValue → Option Field → List SchemaError
unfolding check_type_compatible is_none
value_errors name v none = []
value_errors name v (some f) =
    (if not f.nullable && is_none v then required_field_is_null name ∷ [] else [])
    ++ (if not (is_none v) && not (check_type_compatible v f.type)
        then type_mismatch name ∷ []
        else [])

unfoldable pub row_errors : Dict String Field → Dict String PyValue → List SchemaError
unfolding value_errors get
row_errors fields [] = []
row_errors fields ((name, v) ∷ row) = value_errors name v (get name fields) ++ row_errors fields row

unfoldable pub missing_errors : List Field → Dict String PyValue → List SchemaError
unfolding get
missing_errors [] row = []
missing_errors (f ∷ fs) row =
    let rest = missing_errors fs row in
    if not f.nullable && not (is_some (get f.name row))
    then missing_required_field f.name ∷ rest
    else rest

unfoldable pub validate_row_against_schema : Dict String PyValue → List Field → List SchemaError
unfolding schema_fields row_errors missing_errors
validate_row_against_schema row schema =
    row_errors (schema_fields schema []) row ++ missing_errors schema row

abbrev field : String → DataType → Bool → Field
field name type nullable = record { name = name; type = type; nullable = nullable }

unfoldable pub bronze_schema : List Field
bronze_schema =
    field "event_id" string false
    ∷ field "event_type" string false
    ∷ field "schema_version" string false
    ∷ field "source" string false
    ∷ field "produced_at" timestamp false
    ∷ field "external_id" string false
    ∷ field "name" string true
    ∷ field "url" string true
    ∷ field "price" string true
    ∷ field "currency" string true
    ∷ field "availability" string false
    ∷ field "category" string true
    ∷ field "collected_at" timestamp false
    ∷ []

-- The Silver schema repeats the fields of the Bronze one.
unfoldable pub silver_schema : List Field
silver_schema =
    field "event_id" string false
    ∷ field "event_type" string false
    ∷ field "schema_version" string false
    ∷ field "source" string false
    ∷ field "produced_at" timestamp false
    ∷ field "external_id" string false
    ∷ field "name" string true
    ∷ field "url" string true
    ∷ field "price" string true
    ∷ field "currency" string true
    ∷ field "availability" string false
    ∷ field "category" string true
    ∷ field "collected_at" timestamp false
    ∷ []
