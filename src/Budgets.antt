-- ===== src/Budgets.antt =====
-- agent_bench/runner/budgets.py. The clock is read by the caller.
use tracecore.Prelude.{ℕ, ◌-◌, Bool, false, ◌||◌, Option, none, some, ltb}
use tracecore.Prelude.Int.{ℤ, pos, ◌-ℤ◌, ltb_ℤ}

pub record Budgets : Type 0 where
  pub steps_remaining : ℤ
  pub tool_calls_remaining : ℤ
  pub timeout_s : Option ℕ
  pub start_time : ℕ

-- `Budgets.__init__`, at the reading `now` of the clock.
abbrev pub new_budgets : ℤ → ℤ → Option ℕ → ℕ → Budgets
new_budgets steps tool_calls timeout now = record {
  steps_remaining = steps;
  tool_calls_remaining = tool_calls;
  timeout_s = timeout;
  start_time = now;
}

unfoldable pub consume_step : Budgets → Budgets
consume_step b = record b { steps_remaining = b.steps_remaining -ℤ pos 1 }

unfoldable pub consume_tool_call : Budgets → Budgets
consume_tool_call b = record b { tool_calls_remaining = b.tool_calls_remaining -ℤ pos 1 }

unfoldable pub timed_out : ℕ → Budgets → Bool
timed_out now b = elim b.timeout_s [ none ↦ false | some t ↦ ltb t (now - b.start_time) ]

unfoldable pub exhausted : ℕ → Budgets → Bool
unfolding timed_out
exhausted now b =
    ltb_ℤ b.steps_remaining (pos 0) || ltb_ℤ b.tool_calls_remaining (pos 0) || timed_out now b
