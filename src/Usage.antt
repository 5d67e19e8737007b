-- ===== src/Usage.antt =====
-- src/ports/usage.py: the token count of a build and the estimate of its cost. Rates are in cents per
-- million tokens and the multipliers in hundredths, so that the estimate is a number of units of
-- 10 ^ -10 dollars; the code has the same number as a float of dollars.
pub mod Cost
use app_generation_microserv.Base.{
  ℕ, ◌+◌, ◌*◌, String, ◌==◌, Bool, true, false, not, ◌||◌, Option, none, some, List, [], ◌∷◌,
  if◌then◌else◌,
}
use app_generation_microserv.Base.Dict.{Dict, lookup}
use app_generation_microserv.Base.Text.{before}

pub record Rates : Type 0 where
  pub input : ℕ
  pub output : ℕ

-- The introductory rates, with the last day of them.
pub record Price : Type 0 where
  pub standard : Rates
  pub intro : Option (Rates × String)

abbrev pub prices : Dict Price
prices =
    ("claude-opus-5", record { standard = record { input = 500; output = 2500 }; intro = none })
    ∷ ("claude-opus-4-8", record { standard = record { input = 500; output = 2500 }; intro = none })
    ∷ (
      "claude-sonnet-5",
      record {
        standard = record { input = 300; output = 1500 };
        intro = some (record { input = 200; output = 1000 }, "2026-08-31");
      },
    )
    ∷ ("claude-haiku-4-5", record { standard = record { input = 100; output = 500 }; intro = none })
    ∷ []

pub record Usage : Type 0 where
  pub model : String
  pub calls : ℕ
  pub input_tokens : ℕ
  pub output_tokens : ℕ
  pub cache_read_tokens : ℕ
  pub cache_write_tokens : ℕ

abbrev pub no_usage : Usage
no_usage = record {
  model = "";
  calls = 0;
  input_tokens = 0;
  output_tokens = 0;
  cache_read_tokens = 0;
  cache_write_tokens = 0;
}

-- A response's `usage` block; a counter that is missing or None is none.
pub record Block : Type 0 where
  pub input_tokens : Option ℕ
  pub output_tokens : Option ℕ
  pub cache_read_input_tokens : Option ℕ
  pub cache_creation_input_tokens : Option ℕ

abbrev pub or_zero : Option ℕ → ℕ
or_zero none = 0
or_zero (some n) = n

unfoldable pub add : Block → String → Usage → Usage
add b model u = record {
  model = if model == "" then u.model else model;
  calls = u.calls + 1;
  input_tokens = u.input_tokens + or_zero b.input_tokens;
  output_tokens = u.output_tokens + or_zero b.output_tokens;
  cache_read_tokens = u.cache_read_tokens + or_zero b.cache_read_input_tokens;
  cache_write_tokens = u.cache_write_tokens + or_zero b.cache_creation_input_tokens;
}

unfoldable pub total_tokens : Usage → ℕ
total_tokens u = u.input_tokens + u.output_tokens + u.cache_read_tokens + u.cache_write_tokens

-- `not on_date or on_date <= intro_until`
abbrev pub rates_on : String → Price → Option (Rates × String) → Rates
rates_on on_date p none = p.standard
rates_on on_date p (some (rates, intro_until)) =
    if on_date == "" || before on_date intro_until then rates else p.standard

-- cents times hundredths for each million tokens: cache reads at a tenth, writes at 1.25
unfoldable pub cost_at : Usage → Rates → ℕ
cost_at u r =
    u.input_tokens * r.input * 100
    + u.output_tokens * r.output * 100
    + u.cache_read_tokens * r.input * 10
    + u.cache_write_tokens * r.input * 125

abbrev pub cost_of : Usage → String → Option Price → Option ℕ
cost_of u on_date none = none
cost_of u on_date (some p) = some (cost_at u (rates_on on_date p p.intro))

unfoldable pub cost : Usage → String → Option ℕ
unfolding cost_at
cost u on_date = cost_of u on_date (lookup u.model prices)

-- the usage blocks of a build, call by call
unfoldable pub accumulated : List (Block × String) → Usage → Usage
unfolding add
accumulated [] u = u
accumulated ((b, model) ∷ bs) u = accumulated bs (add b model u)
