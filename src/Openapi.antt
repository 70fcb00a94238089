-- ===== src/Openapi.antt =====
-- openapi/spec_model.go: the parts of an OpenAPI document, and what openapi/schema.go asks of the
-- package `reflect` and of `strconv`. A floating-point number is a value that the parser makes.
pub mod Validate
pub mod Schemas
pub mod Spec
mod Examples
use fibr.Prelude.{
  Bool, true, false, ℕ, Option, none, some, List, [], ◌∷◌, ◌++◌, if◌then◌else◌, ◌==◌,
}
use fibr.Prelude.Int.{ℤ}
use fibr.Prelude.Bytes.{Bytes, codes, bytes_cmp}

-- `reflect.Kind`
pub data Kind : Type 0 where
  bool_kind int_kind int8_kind int16_kind int32_kind int64_kind : Kind
  uint_kind uint8_kind uint16_kind uint32_kind uint64_kind uintptr_kind : Kind
  float32_kind float64_kind complex_kind : Kind
  array_kind chan_kind func_kind interface_kind map_kind pointer_kind slice_kind : Kind
  string_kind struct_kind unsafe_pointer_kind : Kind

-- `reflect.StructField`, with the two tags that are read.
pub record Field (T : Type 0) : Type 0 where
  pub name : Bytes
  pub pkg_path : Bytes
  pub anonymous : Bool
  pub type_of : T
  pub json : Bytes
  pub validate : Bytes

pub record Reflection : Type 1 where
  pub GoType : Type 0
  pub kind : GoType → Kind
  pub elem_of : GoType → GoType
  pub name : GoType → Bytes
  pub fields : GoType → List (Field GoType)
  pub is_time : GoType → Bool
  pub Float : Type 0
  pub parse_float : Bytes → Option Float

module _ (R : Reflection) where
  pub data EnumItem : Type 0 where
    text : Bytes → EnumItem
    number : R.Float → EnumItem

  -- The fields of a schema but for the schemas inside it.
  pub record Attrs : Type 0 where
    pub ref : Bytes
    pub type_name : Bytes
    pub format : Bytes
    pub nullable : Bool
    pub required : List Bytes
    pub enum : List EnumItem
    pub minimum : Option R.Float
    pub maximum : Option R.Float
    pub min_length : Option ℤ
    pub max_length : Option ℤ
    pub min_items : Option ℤ
    pub max_items : Option ℤ

  abbrev pub no_attrs : Attrs
  no_attrs = record {
    ref = [];
    type_name = [];
    format = [];
    nullable = false;
    required = [];
    enum = [];
    minimum = none;
    maximum = none;
    min_length = none;
    max_length = none;
    min_items = none;
    max_items = none;
  }

  -- A schema: its own fields, `Properties`, `Items` and `AdditionalProperties`.
  mutual
    pub data Schema : Type 0 where
      node : Attrs → Properties → Child → Child → Schema

    pub data Properties : Type 0 where
      no_property : Properties
      property : Bytes → Schema → Properties → Properties

    pub data Child : Type 0 where
      no_child : Child
      child : Schema → Child

  pub record Parameter : Type 0 where
    pub name : Bytes
    pub in_path : Bool
    pub required : Bool
    pub schema : Schema

  pub record Response : Type 0 where
    pub status : ℕ
    pub description : Bytes
    pub content : Option Schema

  pub record Operation : Type 0 where
    pub summary : Bytes
    pub description : Bytes
    pub tags : List Bytes
    pub parameters : List Parameter
    pub request_body : Option Schema
    pub response : Response
    pub security : List Bytes

  pub record PathItem : Type 0 where
    pub get : Option Operation
    pub post : Option Operation
    pub put : Option Operation
    pub patch : Option Operation
    pub delete : Option Operation
    pub head : Option Operation
    pub options : Option Operation

  abbrev pub no_operation : PathItem
  no_operation = record {
    get = none;
    post = none;
    put = none;
    patch = none;
    delete = none;
    head = none;
    options = none;
  }

pub record Info : Type 0 where
  pub title : Bytes
  pub version : Bytes
  pub description : Bytes

pub record SecurityScheme : Type 0 where
  pub type_name : Bytes
  pub scheme : Bytes
  pub bearer_format : Bytes
