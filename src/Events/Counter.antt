-- ===== src/Events/Counter.antt =====
-- dancex11/scheduler/completion_counter_base.{h,cpp}: `Completion_Counter_Base`. The counters are
-- `uint32_t`. The operations run one at a time, under the lock; `notified` logs the calls of
-- `on_all_completed` (true) and `on_all_completed_with_failure` (false).
use dancex.Prelude.{
  ℕ, ◌+◌, ◌-◌, ◌%◌, List, [], ◌∷◌, ◌++◌, Bool, true, false, String, if◌then◌else◌, ltb, ◌==◌,
}

abbrev pub u32_mod : ℕ
u32_mod = 4294967296

pub record Counter : Type 0 where
  pub exec_count : ℕ
  pub fail_count : ℕ
  pub errors : List String
  pub notified : List Bool

abbrev pub new_counter : ℕ → ℕ → Counter
new_counter exec_count fail_count = record {
  exec_count = exec_count;
  fail_count = fail_count;
  errors = [];
  notified = [];
}

unfoldable pub increment_exec_count : Counter → Counter
increment_exec_count c = record c { exec_count = (c.exec_count + 1) % u32_mod }

unfoldable pub decrement_exec_count : Counter → Counter
decrement_exec_count c =
    let count = (c.exec_count + u32_mod - 1) % u32_mod in
    if count == 0
    then record c {
      exec_count = count;
      notified = c.notified ++ (if ltb 0 c.fail_count then false else true) ∷ [];
    }
    else record c { exec_count = count }

unfoldable pub increment_fail_count : String → Counter → Counter
increment_fail_count error c = record c {
  fail_count = (c.fail_count + 1) % u32_mod;
  errors = c.errors ++ error ∷ [];
}

unfoldable pub all_completed : Counter → Bool
all_completed c = c.exec_count == 0
