-- ===== src/Usage/Cost.antt =====
-- src/ports/usage.py: the count and the estimate over several calls.
use app_generation_microserv.Base.{ℕ, ◌+◌, String, ◌≡◌, ap, ◌∙◌, List, [], ◌∷◌, length, arith}
use app_generation_microserv.Usage.{
  Rates, Usage, Block, or_zero, add, total_tokens, cost_at, accumulated,
}

-- what one response adds
abbrev pub block_tokens : Block → ℕ
block_tokens b =
    or_zero b.input_tokens
    + or_zero b.output_tokens
    + or_zero b.cache_read_input_tokens
    + or_zero b.cache_creation_input_tokens

abbrev pub blocks_tokens : List (Block × String) → ℕ
blocks_tokens [] = 0
blocks_tokens ((b, model) ∷ bs) = block_tokens b + blocks_tokens bs

-- the cost of a block alone, at a rate
abbrev pub block_cost : Rates → Block → ℕ
block_cost r b =
    cost_at
      (record {
        model = "";
        calls = 1;
        input_tokens = or_zero b.input_tokens;
        output_tokens = or_zero b.output_tokens;
        cache_read_tokens = or_zero b.cache_read_input_tokens;
        cache_write_tokens = or_zero b.cache_creation_input_tokens;
      })
      r

abbrev pub blocks_cost : Rates → List (Block × String) → ℕ
blocks_cost r [] = 0
blocks_cost r ((b, model) ∷ bs) = block_cost r b + blocks_cost r bs

add-cost :
    (b : Block) (model : String) (u : Usage) (r : Rates)
    → cost_at (add b model u) r ≡ cost_at u r + block_cost r b
unfolding add cost_at
add-cost b model u r = grind arith

-- Over any number of calls, each call is counted once, no token is lost or counted twice, and at a
-- fixed rate the estimate is the sum of the estimates of the calls.
pub accumulated-totals :
    (bs : List (Block × String)) (u : Usage) (r : Rates)
    → ((accumulated bs u).calls ≡ u.calls + length bs)
      × (total_tokens (accumulated bs u) ≡ total_tokens u + blocks_tokens bs)
      × (cost_at (accumulated bs u) r ≡ cost_at u r + blocks_cost r bs)
unfolding accumulated add total_tokens
accumulated-totals [] u r = (omega arith, omega arith, omega arith)
accumulated-totals ((b, model) ∷ bs) u r =
    let (calls, tokens, cost) = accumulated-totals bs (add b model u) r in
    (
      omega (arith, calls),
      omega (arith, tokens),
      cost ∙ ap (λ n. n + blocks_cost r bs) (add-cost b model u r) ∙ omega arith,
    )
