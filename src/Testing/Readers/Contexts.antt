-- ===== src/Testing/Readers/Contexts.antt =====
-- Readers of the models of a Wren context.
use nextbos_ai.Prelude.{Option, some, ◌≡◌}
use nextbos_ai.Value.{Value, get}
use nextbos_ai.Integrations.WrenTypes.{
  WrenModel, WrenField, WrenJoin, WrenSqlExample, dump_model, dump_field, dump_join, dump_example,
}
use nextbos_ai.Integrations.Wren.Payload.{Schemas, any_model, any_field, any_join, any_example}
use nextbos_ai.Testing.Readers.Base.{
  ◌>>=◌, read_str, read_opt_str, read_dict, read_opt_str-opt_str, schema_of,
}

abbrev pub read_model : Value → Option WrenModel
read_model v = do
  d ← read_dict v
  name ← read_str (get "name" d)
  description ← read_opt_str (get "description" d)
  some (record { name = name; description = description })

pub read_model-dump_model : (m : WrenModel) → read_model (dump_model m) ≡ some m
read_model-dump_model m = rw (read_opt_str-opt_str m.description)

abbrev pub read_field : Value → Option WrenField
read_field v = do
  d ← read_dict v
  model ← read_str (get "model" d)
  name ← read_str (get "name" d)
  data_type ← read_opt_str (get "data_type" d)
  description ← read_opt_str (get "description" d)
  some (record { model = model; name = name; data_type = data_type; description = description })

pub read_field-dump_field : (f : WrenField) → read_field (dump_field f) ≡ some f
read_field-dump_field f =
    rw (read_opt_str-opt_str f.data_type) (rw (read_opt_str-opt_str f.description))

abbrev pub read_join : Value → Option WrenJoin
read_join v = do
  d ← read_dict v
  left ← read_str (get "left_model" d)
  right ← read_str (get "right_model" d)
  condition ← read_str (get "condition" d)
  description ← read_opt_str (get "description" d)
  some (record {
    left_model = left;
    right_model = right;
    condition = condition;
    description = description;
  })

pub read_join-dump_join : (j : WrenJoin) → read_join (dump_join j) ≡ some j
read_join-dump_join j = rw (read_opt_str-opt_str j.description)

abbrev pub read_example : Value → Option WrenSqlExample
read_example v = do
  d ← read_dict v
  question ← read_str (get "question" d)
  sql ← read_str (get "sql" d)
  note ← read_opt_str (get "note" d)
  some (record { question = question; sql = sql; note = note })

pub read_example-dump_example : (e : WrenSqlExample) → read_example (dump_example e) ≡ some e
read_example-dump_example e = rw (read_opt_str-opt_str e.note)

abbrev pub context_schemas : Schemas
context_schemas = record {
  models = schema_of dump_model any_model read_model read_model-dump_model;
  fields = schema_of dump_field any_field read_field read_field-dump_field;
  joins = schema_of dump_join any_join read_join read_join-dump_join;
  examples = schema_of dump_example any_example read_example read_example-dump_example;
}
