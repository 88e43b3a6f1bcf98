-- ===== src/Integrations/Wren/Payload.antt =====
-- integrations/business/wren.py: the payloads of the tools as the agent's context.
use nextbos_ai.Prelude.{
  String, Bool, true, List, [], ◌++◌, ◌&&◌, map, keep, filter_map, traverse, Outcome, ok, ◌>>=◌,
  if◌then◌else◌,
}
use nextbos_ai.Value.{
  Value, null, str, obj, arr, nil, Fields, end, field, get, get_or, truthy, or_else, as_dict,
  list_of, list_value, is_str, is_null,
}
use nextbos_ai.Schemas.Model.{Schema, validated}
use nextbos_ai.Agent.World.{World, text_of, iterate}
use nextbos_ai.Integrations.WrenTypes.{
  WrenModel, WrenField, WrenJoin, WrenSqlExample, WrenContextResult, dump_model, dump_field,
  dump_join, dump_example,
}

abbrev pub any_model : WrenModel → Bool
any_model m = true

abbrev pub any_field : WrenField → Bool
any_field f = true

abbrev pub any_join : WrenJoin → Bool
any_join j = true

abbrev pub any_example : WrenSqlExample → Bool
any_example e = true

-- The models of pydantic that the payloads are read with; a constructor with keyword arguments
-- reads the dictionary of these.
pub record Schemas : Type 0 where
  pub models : Schema WrenModel dump_model any_model
  pub fields : Schema WrenField dump_field any_field
  pub joins : Schema WrenJoin dump_join any_join
  pub examples : Schema WrenSqlExample dump_example any_example

-- `_tool_data_results`, and the dictionaries among the elements of a list.
unfoldable pub tool_data_results : Fields → List Fields
tool_data_results payload = filter_map as_dict (list_of (get "results" payload))

-- `_context_items`.
unfoldable pub context_items : Fields → String → List Fields
context_items payload item_type =
    keep (λ item. is_str item_type (get "item_type" item))
      (filter_map as_dict (list_of (get "results" payload)))

-- `_context_item_description`.
unfoldable pub context_item_description : World → Fields → Value
context_item_description w item =
    let value = or_else (get "summary" item) (or_else (get "description" item) (get "text" item)) in
    if is_null value then null else str (text_of w value)

module _ (w : World) (schemas : Schemas) where
  new_model : Value → Value → Outcome WrenModel
  new_model name description = validated (
      schemas.models.model_validate (obj (field "name" name (field "description" description end))))

  -- `_models_from_context`.
  unfoldable pub models_from_context : Fields → Outcome (List WrenModel)
  unfolding context_items context_item_description new_model
  models_from_context payload = do
    found ←
        traverse (λ item. new_model (get "name" item) (context_item_description w item))
          (keep (λ item. truthy (get "name" item)) (context_items payload "model"))
    listed ← iterate (get_or "models" (arr nil) payload)
    read ← traverse (λ item. validated (schemas.models.model_validate item)) listed
    ok (found ++ read)

  -- `_models_from_list_models`.
  unfoldable pub models_from_list_models : Fields → Outcome (List WrenModel)
  unfolding new_model
  models_from_list_models payload =
      traverse (λ item. new_model (get "name" item) (get "description" item))
        (keep (λ item. truthy (get "name" item))
          (filter_map as_dict (list_of (get "models" payload))))

  -- The model that a column belongs to.
  owner : Fields → Value
  owner item = or_else (get "model" item) (or_else (get "model_name" item) (get "parent_name" item))

  new_field : Fields → Outcome WrenField
  unfolding context_item_description owner
  new_field item = validated (
      schemas.fields.model_validate (
        obj (
          field "model" (owner item) (
            field "name" (get "name" item) (
              field "data_type" (get "data_type" item)
                (field "description" (context_item_description w item) end))))))

  -- `_fields_from_context`.
  unfoldable pub fields_from_context : Fields → Outcome (List WrenField)
  unfolding context_items owner new_field
  fields_from_context payload = do
    found ← traverse new_field (
        keep (λ item. truthy (owner item) && truthy (get "name" item))
          (context_items payload "column"))
    listed ← iterate (get_or "fields" (arr nil) payload)
    read ← traverse (λ item. validated (schemas.fields.model_validate item)) listed
    ok (found ++ read)

  left_model : Fields → Value
  left_model item = or_else (get "left_model" item) (get "left" item)

  right_model : Fields → Value
  right_model item = or_else (get "right_model" item) (get "right" item)

  condition : Fields → Value
  condition item = or_else (get "condition" item) (or_else (get "text" item) (get "summary" item))

  new_join : Fields → Outcome WrenJoin
  unfolding left_model right_model condition context_item_description
  new_join item = validated (
      schemas.joins.model_validate (
        obj (
          field "left_model" (left_model item) (
            field "right_model" (right_model item) (
              field "condition" (condition item)
                (field "description" (context_item_description w item) end))))))

  -- `_joins_from_context`.
  unfoldable pub joins_from_context : Fields → Outcome (List WrenJoin)
  unfolding context_items left_model right_model condition new_join
  joins_from_context payload = do
    found ← traverse new_join (
        keep
          (λ item. truthy (left_model item) && truthy (right_model item) && truthy (condition item))
          (context_items payload "relationship"))
    listed ← iterate (get_or "joins" (arr nil) payload)
    read ← traverse (λ item. validated (schemas.joins.model_validate item)) listed
    ok (found ++ read)

  asked : Fields → Value
  asked row = or_else (get "nl_query" row) (or_else (get "nl" row) (get "question" row))

  answered : Fields → Value
  answered row = or_else (get "sql_query" row) (get "sql" row)

  new_example : Fields → Outcome WrenSqlExample
  unfolding asked answered
  new_example row = validated (
      schemas.examples.model_validate (
        obj (
          field "question" (str (text_of w (asked row)))
            (field "sql" (str (text_of w (answered row))) (field "note" (get "note" row) end)))))

  -- `_sql_examples_from_recalled_queries`.
  unfoldable pub sql_examples_from_recalled_queries : List Fields → Outcome (List WrenSqlExample)
  unfolding asked answered new_example
  sql_examples_from_recalled_queries rows =
      traverse new_example (keep (λ row. truthy (asked row) && truthy (answered row)) rows)

  -- `_context_result_from_wren_payload`.
  unfoldable pub context_result_from_wren_payload :
      Fields → Fields → List Fields → Outcome WrenContextResult
  unfolding models_from_context models_from_list_models fields_from_context joins_from_context
      sql_examples_from_recalled_queries
  context_result_from_wren_payload context_payload list_models_payload recalled_queries = do
    context_models ← models_from_context context_payload
    listed_models ← models_from_list_models list_models_payload
    fields ← fields_from_context context_payload
    joins ← joins_from_context context_payload
    examples ← sql_examples_from_recalled_queries recalled_queries
    ok (record {
      models = context_models ++ listed_models;
      fields = fields;
      metrics = [];
      joins = joins;
      business_rules = [];
      historical_sql = examples;
      raw = field "context" (obj context_payload) (
          field "list_models" (obj list_models_payload)
            (field "recalled_queries" (list_value (map obj recalled_queries)) end));
    })
