-- ===== src/Search/Config.antt =====
-- rust/src/search/config.rs: the environment's settings and the choice of the execution mode.
use flist_walker.Prelude.{
  ℕ, ◌+◌, ◌-◌, ◌*◌, ◌/◌, ◌^◌, ◌≤◌, ◌<◌, min, max, ◌≡◌, ◌≢◌, ◌&&◌, Option, none, some, arith, ltb,
  leb, if◌then◌else◌,
}

-- `usize` is taken to be 64 bits wide.
abbrev pub usize_max : ℕ
usize_max = 2 ^ 64 - 1

unfoldable pub saturating_add : ℕ → ℕ → ℕ
saturating_add a b = min (a + b) usize_max

unfoldable pub saturating_mul : ℕ → ℕ → ℕ
saturating_mul a b = min (a * b) usize_max

abbrev pub search_parallel_threshold_default : ℕ
search_parallel_threshold_default = 25000

abbrev pub search_parallel_chunk_min : ℕ
search_parallel_chunk_min = 1024

abbrev pub search_parallel_chunk_max : ℕ
search_parallel_chunk_max = 16384

abbrev pub search_threads_max : ℕ
search_threads_max = 32

pub data SearchExecutionMode : Type 0 where
  auto sequential parallel : SearchExecutionMode

-- What the functions read from the process: the two variables, parsed, and the number of cores.
pub record Environment : Type 0 where
  pub parallel_threshold : Option ℕ
  pub threads : Option ℕ
  pub available_parallelism : Option ℕ

-- `.filter(|value| *value > 0).unwrap_or(default)`
abbrev pub positive_or : Option ℕ → ℕ → ℕ
positive_or none default = default
positive_or (some value) default = if ltb 0 value then value else default

abbrev value_or : Option ℕ → ℕ → ℕ
value_or none default = default
value_or (some value) _ = value

unfoldable pub search_parallel_threshold : Environment → ℕ
search_parallel_threshold env = positive_or env.parallel_threshold search_parallel_threshold_default

unfoldable pub search_threads : Environment → ℕ
search_threads env =
    min (positive_or env.threads (value_or env.available_parallelism 1)) search_threads_max

-- `Ord::clamp`
abbrev pub clamp : ℕ → ℕ → ℕ → ℕ
clamp x lo hi = if ltb x lo then lo else if ltb hi x then hi else x

unfoldable pub search_parallel_chunk_size : Environment → ℕ → ℕ
unfolding search_threads saturating_mul
search_parallel_chunk_size env candidate_count =
    let threads = max (search_threads env) 1 in
    let target = candidate_count / max (saturating_mul threads 8) 1 in
    clamp target search_parallel_chunk_min search_parallel_chunk_max

unfoldable pub resolve_execution_mode : Environment → SearchExecutionMode → ℕ → SearchExecutionMode
unfolding search_parallel_threshold search_threads
resolve_execution_mode env auto candidate_count =
    if leb (search_parallel_threshold env) candidate_count && ltb 1 (search_threads env)
    then parallel
    else sequential
resolve_execution_mode env sequential candidate_count = sequential
resolve_execution_mode env parallel candidate_count = parallel

clamp_bounds : (x lo hi : ℕ) → lo ≤ hi → (lo ≤ clamp x lo hi) × (clamp x lo hi ≤ hi)
clamp_bounds x lo hi h = ground arith

chunk_size_bounds :
    (env : Environment) (n : ℕ)
    → (search_parallel_chunk_min ≤ search_parallel_chunk_size env n)
      × (search_parallel_chunk_size env n ≤ search_parallel_chunk_max)
unfolding search_parallel_chunk_size
chunk_size_bounds env n =
    clamp_bounds (n / max (saturating_mul (max (search_threads env) 1) 8) 1)
      search_parallel_chunk_min search_parallel_chunk_max (omega arith)

search_threads-le : (env : Environment) → search_threads env ≤ search_threads_max
unfolding search_threads
search_threads-le env = omega arith

resolved_mode :
    (env : Environment) (mode : SearchExecutionMode) (n : ℕ)
    → resolve_execution_mode env mode n ≢ auto
unfolding resolve_execution_mode
resolved_mode env auto n = ground arith
resolved_mode env sequential n = ground arith
resolved_mode env parallel n = ground arith

parallel_only_if :
    (env : Environment) (n : ℕ)
    → resolve_execution_mode env auto n ≡ parallel
    → (1 < search_threads env) × (search_parallel_threshold env ≤ n)
unfolding resolve_execution_mode
parallel_only_if env n = ground arith

-- Whatever the environment says, a chunk holds 1024 to 16384 candidates and at most 32 threads are
-- used; the resolved mode is never the automatic one; and parallel execution is chosen only from
-- the threshold on and with more than one thread.
pub search_config_bounds :
    (env : Environment) (mode : SearchExecutionMode) (n : ℕ)
    → (search_parallel_chunk_min ≤ search_parallel_chunk_size env n)
      × (search_parallel_chunk_size env n ≤ search_parallel_chunk_max)
      × (search_threads env ≤ search_threads_max)
      × (resolve_execution_mode env mode n ≢ auto)
      × (resolve_execution_mode env auto n ≡ parallel
          → (1 < search_threads env) × (search_parallel_threshold env ≤ n))
search_config_bounds env mode n =
    let (lo, hi) = chunk_size_bounds env n in
    (lo, hi, search_threads-le env, resolved_mode env mode n, parallel_only_if env n)
