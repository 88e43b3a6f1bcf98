-- ===== src/Agent/Graph/Termination.antt =====
-- The graph has no cycle: a rank falls along every edge, so ten rounds of fuel are enough.
use nextbos_ai.Prelude.{
  ℕ, zero, suc, ◌<◌, some, List, [], ◌∷◌, ◌≡◌, refl, arith, Outcome, ok, raise, All,
}
use nextbos_ai.Agent.State.{AgentState, Write, apply_writes}
use nextbos_ai.Agent.Graph.{
  NodeName, summarize, intent, wren_context, sql_plan, sql_validate, sql_execute, chart_plan,
  chart_spec, clarify, respond, tools, final_respond, Target, node, stop, Dependencies, GraphRun,
  run_node, next_node, continue, merge, run, invoke,
}

-- A number that falls along every edge.
abbrev pub rank : NodeName → ℕ
rank summarize = 9
rank intent = 8
rank wren_context = 7
rank sql_plan = 6
rank sql_validate = 5
rank sql_execute = 4
rank chart_plan = 3
rank chart_spec = 2
rank respond = 3
rank tools = 2
rank clarify = 1
rank final_respond = 1

module _ (d : Dependencies) where
  next_node-rank : (n m : NodeName) (s : AgentState) → next_node d n s ≡ node m → rank m < rank n
  unfolding next_node
  next_node-rank summarize m s h = ground arith
  next_node-rank intent m s h = ground arith
  next_node-rank sql_plan m s h = ground arith
  next_node-rank sql_execute m s h = ground arith
  next_node-rank respond m s h = ground arith
  next_node-rank _ m s h = ground arith

  continue_total :
      (rest : NodeName → AgentState → GraphRun) (t : Target) (s : AgentState)
      → ((m : NodeName) → t ≡ node m → (o : Outcome AgentState) × ((rest m s).result ≡ some o))
      → (o : Outcome AgentState) × ((continue rest t s).result ≡ some o)
  unfolding continue
  continue_total rest stop s h = (ok s, refl)
  continue_total rest (node m) s h = h m refl

  merge_total :
      (rest : NodeName → AgentState → GraphRun) (n : NodeName) (s : AgentState)
      (r : Outcome (List Write))
      → ((m : NodeName) (s' : AgentState)
          → rank m < rank n
          → (o : Outcome AgentState) × ((rest m s').result ≡ some o))
      → (o : Outcome AgentState) × ((merge d rest n s r).result ≡ some o)
  unfolding merge
  merge_total rest n s (raise e) h = (raise e, refl)
  merge_total rest n s (ok ws) h =
      let s' = apply_writes d.add_messages s ws in
      continue_total rest (next_node d n s') s' (λ m e. h m s' (next_node-rank n m s' e))

  run_total :
      (fuel : ℕ) (n : NodeName) (s : AgentState)
      → rank n < fuel
      → (o : Outcome AgentState) × ((run d fuel n s).result ≡ some o)
  unfolding run
  run_total zero n s h = absurd (omega arith)
  run_total (suc fuel) n s h =
      merge_total (run d fuel) n s (run_node d n s).result
        (λ m s' lower. run_total fuel m s' (omega arith))

  -- Whatever the nodes return or raise, a run of the graph comes to its end within the ten rounds:
  -- with a final state or with the exception of a node.
  pub invoke_total : (s : AgentState) → (o : Outcome AgentState) × ((invoke d s).result ≡ some o)
  unfolding invoke
  invoke_total s = run_total 10 summarize s (omega arith)

-- Each rank is above all that follow.
abbrev pub IsDescending : List NodeName → Type 0
IsDescending [] = Unit
IsDescending (n ∷ ns) = All (λ m. rank m < rank n) ns × IsDescending ns

All-lower :
    (a b : ℕ) (ns : List NodeName) → a < b → All (λ m. rank m < a) ns → All (λ m. rank m < b) ns
All-lower a b [] h l = tt
All-lower a b (n ∷ ns) h l = (omega arith, All-lower a b ns h l.1)

-- What a run from a node below `k` shows: its visits descend, from below `k` on.
abbrev DescendsBelow : ℕ → List NodeName → Type 0
DescendsBelow k ns = All (λ m. rank m < k) ns × IsDescending ns

module _ (d : Dependencies) where
  continue-Descends :
      (rest : NodeName → AgentState → GraphRun) (k : ℕ) (t : Target) (s : AgentState)
      → ((m : NodeName) → t ≡ node m → DescendsBelow k (rest m s).visited)
      → DescendsBelow k (continue rest t s).visited
  unfolding continue
  continue-Descends rest k stop s h = (tt, tt)
  continue-Descends rest k (node m) s h = h m refl

  merge-Descends :
      (rest : NodeName → AgentState → GraphRun) (n : NodeName) (s : AgentState)
      (r : Outcome (List Write))
      → ((m : NodeName) (s' : AgentState)
          → rank m < rank n
          → DescendsBelow (rank n) (rest m s').visited)
      → DescendsBelow (rank n) (merge d rest n s r).visited
  unfolding merge
  merge-Descends rest n s (raise e) h = (tt, tt)
  merge-Descends rest n s (ok ws) h =
      let s' = apply_writes d.add_messages s ws in
      continue-Descends rest (rank n) (next_node d n s') s'
        (λ m e. h m s' (next_node-rank d n m s' e))

  run-Descends :
      (fuel : ℕ) (n : NodeName) (s : AgentState) (k : ℕ)
      → rank n < k
      → DescendsBelow k (run d fuel n s).visited
  unfolding run
  run-Descends zero n s k h = (tt, tt)
  run-Descends (suc fuel) n s k h =
      let (lower, sorted) =
        merge-Descends (run d fuel) n s (run_node d n s).result
          (λ m s' l. run-Descends fuel m s' (rank n) l) in
      ((h, All-lower (rank n) k _ h lower), (lower, sorted))

  -- No run visits a node twice: the ranks of the visited nodes fall strictly, whatever the nodes
  -- return.
  pub invoke-IsDescending : (s : AgentState) → IsDescending (invoke d s).visited
  unfolding invoke
  invoke-IsDescending s = (run-Descends 10 summarize s 10 (omega arith)).1
