-- ===== src/Agent/Nodes/Respond/Compaction.antt =====
-- How much of a result the prompts carry.
use Prim.Native.Nat.{◌<◌}
use nextbos_ai.Prelude.{
  ℕ, String, true, false, List, ◌≡◌, ◌≤◌, ap, arith, ltb, Bool-cases, inl, inr, ◌==◌, length, take,
  length-take,
}
use nextbos_ai.Value.{
  Value, bool, Fields, get, get_or, items, of_list, list_of, truthy, or_else, dict_or_empty, end,
  field,
}
use nextbos_ai.Value.Laws.{items-of_list}
use nextbos_ai.Agent.Nodes.Respond as Answer
use nextbos_ai.Agent.Nodes.ChartPlan as Chart

-- A compacted result: at most `n` rows, the first ones, and marked as truncated where there were more.
pub record IsCompact (n : ℕ) (result compact : Fields) : Type 0 where
  pub bounded : length (list_of (get "rows" compact)) ≤ n
  pub first : list_of (get "rows" compact) ≡ take n (list_of (get "rows" result))
  pub marked : n < length (list_of (get "rows" result)) → truthy (get "truncated" compact) ≡ true
  pub kept : truthy (get "truncated" result) ≡ true → truthy (get "truncated" compact) ≡ true

take_bounded : (n : ℕ) (vs : List Value) → length (items (of_list (take n vs))) ≤ n
take_bounded n vs = omega (arith, length-take n vs, ap length (items-of_list (take n vs)))

or_else_marked : (v : Value) (m n : ℕ) → m < n → truthy (or_else v (bool (ltb m n))) ≡ true
or_else_marked v m n h = elim (Bool-cases (truthy v)) [
  | inl e ↦ ground arith
  | inr e ↦ ground arith
]

or_else_kept : (v w : Value) → truthy v ≡ true → truthy (or_else v w) ≡ true
or_else_kept v w h = ground arith

get_or-truthy :
    (k : String) (d : Value) (r : Fields) → truthy (get k r) ≡ true → truthy (get_or k d r) ≡ true
get_or-truthy k d end h = cc
get_or-truthy k d (field j v r) h = elim (Bool-cases (j == k)) [
  | inl e ↦ ground arith
  | inr e ↦ ground (arith, get_or-truthy k d r (ground arith))
]

-- The results that the final answer and the chart plan are asked with carry at most 20 rows, the first
-- of the result; where rows were left out, or the result was truncated already, they say so.
pub compact_sql_execution_result-IsCompact :
    (r : Fields)
    → IsCompact 20 r (dict_or_empty (Answer.compact_sql_execution_result r))
      × IsCompact 20 r (dict_or_empty (Chart.compact_sql_execution_result r))
unfolding Answer.compact_sql_execution_result Chart.compact_sql_execution_result
compact_sql_execution_result-IsCompact r =
    let rows = list_of (get "rows" r) in
    let v = get_or "truncated" (bool false) r in
    (
      record {
        bounded = take_bounded 20 rows;
        first = items-of_list (take 20 rows);
        marked = or_else_marked v 20 (length rows);
        kept = λ h.
            or_else_kept v (bool (ltb 20 (length rows)))
              (get_or-truthy "truncated" (bool false) r h);
      },
      record {
        bounded = take_bounded 20 rows;
        first = items-of_list (take 20 rows);
        marked = or_else_marked v 20 (length rows);
        kept = λ h.
            or_else_kept v (bool (ltb 20 (length rows)))
              (get_or-truthy "truncated" (bool false) r h);
      },
    )
