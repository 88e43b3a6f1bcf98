-- ===== src/Integrations/WrenTypes.antt =====
-- The pydantic models of integrations/business/wren.py, and their `model_dump`.
use nextbos_ai.Prelude.{ℕ, String, Bool, Option, List, map}
use nextbos_ai.Value.{Value, str, obj, Fields, end, field, opt_str, str_list, list_value}

pub record WrenContextFilter : Type 0 where
  pub on : String
  pub value : String

pub record WrenContextRequest : Type 0 where
  pub question : String
  pub tenant_id : Option String
  pub user_id : Option String
  pub metrics : List String
  pub dimensions : List String
  pub filters : List WrenContextFilter
  pub time_range : Option String

pub record WrenProjectConfig : Type 0 where
  pub project_path : String
  pub profile : Option String
  pub context_limit : ℕ
  pub recall_limit : ℕ
  pub include_memory_write : Bool
  pub raise_on_error : Bool

pub record WrenModel : Type 0 where
  pub name : String
  pub description : Option String

pub record WrenField : Type 0 where
  pub model : String
  pub name : String
  pub data_type : Option String
  pub description : Option String

pub record WrenMetric : Type 0 where
  pub name : String
  pub expression : Option String
  pub description : Option String

pub record WrenJoin : Type 0 where
  pub left_model : String
  pub right_model : String
  pub condition : String
  pub description : Option String

pub record WrenBusinessRule : Type 0 where
  pub name : String
  pub description : String

pub record WrenSqlExample : Type 0 where
  pub question : String
  pub sql : String
  pub note : Option String

pub record WrenContextResult : Type 0 where
  pub models : List WrenModel
  pub fields : List WrenField
  pub metrics : List WrenMetric
  pub joins : List WrenJoin
  pub business_rules : List WrenBusinessRule
  pub historical_sql : List WrenSqlExample
  pub raw : Fields

abbrev pub dump_context_filter : WrenContextFilter → Value
dump_context_filter f = obj (field "field" (str f.on) (field "value" (str f.value) end))

abbrev pub dump_request : WrenContextRequest → Value
dump_request r = obj (
    field "question" (str r.question) (
      field "tenant_id" (opt_str r.tenant_id) (
        field "user_id" (opt_str r.user_id) (
          field "metrics" (str_list r.metrics) (
            field "dimensions" (str_list r.dimensions) (
              field "filters" (list_value (map dump_context_filter r.filters))
                (field "time_range" (opt_str r.time_range) end)))))))

abbrev pub dump_model : WrenModel → Value
dump_model m = obj (field "name" (str m.name) (field "description" (opt_str m.description) end))

abbrev pub dump_field : WrenField → Value
dump_field f = obj (
    field "model" (str f.model) (
      field "name" (str f.name) (
        field "data_type" (opt_str f.data_type) (field "description" (opt_str f.description) end))))

abbrev pub dump_metric : WrenMetric → Value
dump_metric m = obj (
    field "name" (str m.name)
      (field "expression" (opt_str m.expression) (field "description" (opt_str m.description) end)))

abbrev pub dump_join : WrenJoin → Value
dump_join j = obj (
    field "left_model" (str j.left_model) (
      field "right_model" (str j.right_model)
        (field "condition" (str j.condition) (field "description" (opt_str j.description) end))))

abbrev pub dump_rule : WrenBusinessRule → Value
dump_rule r = obj (field "name" (str r.name) (field "description" (str r.description) end))

abbrev pub dump_example : WrenSqlExample → Value
dump_example e = obj (
    field "question" (str e.question) (field "sql" (str e.sql) (field "note" (opt_str e.note) end)))

abbrev pub dump_context : WrenContextResult → Value
dump_context c = obj (
    field "models" (list_value (map dump_model c.models)) (
      field "fields" (list_value (map dump_field c.fields)) (
        field "metrics" (list_value (map dump_metric c.metrics)) (
          field "joins" (list_value (map dump_join c.joins)) (
            field "business_rules" (list_value (map dump_rule c.business_rules)) (
              field "historical_sql" (list_value (map dump_example c.historical_sql))
                (field "raw" (obj c.raw) end)))))))
