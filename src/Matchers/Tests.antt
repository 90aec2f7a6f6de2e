-- ===== src/Matchers/Tests.antt =====
-- The ensemble on edges of two matchers, and the theorem about it applied there.
use mathlib.Core.List.Permᴰ
use linker_agent.Prelude.{
  ℕ, ◌+◌, ◌-◌, ◌*◌, ◌/◌, ◌≡◌, refl, Text, List, [], ◌∷◌, codes, eq_text, lookup, to_ℕ, show_ℕ, ◌==◌,
  ltb,
}
use linker_agent.Crypto.{Hashes}
use linker_agent.Matchers.{Float, LinkEdge, no_meta, Recipe}
use linker_agent.Matchers.Ensemble.{
  Shuffles, key_of, combine, calculate_weighted_score, scores, raise_score, total, matcher_name,
  has_slash, before_slash,
}
use linker_agent.Matchers.Ensemble.Group.{matching}
use linker_agent.Matchers.Ensemble.Laws.{expected, combine_lem}

-- Numbers in hundredths.
abbrev pub percent : Float
percent = record {
  F = ℕ;
  nought = 0;
  one = 100;
  tenths = λ n. n * 10;
  of_i64 = λ z. to_ℕ z * 100;
  add = λ a b. a + b;
  sub = λ a b. a - b;
  mul = λ a b. a * b / 100;
  div = λ a b. a * 100 / b;
  less = λ a b. ltb a b;
  same = λ a b. a == b;
  show2 = show_ℕ;
}

abbrev pub in_order : Shuffles percent
in_order = record { candidates = λ cs. cs; recipe_scores = λ m. m }

abbrev pub toy : Hashes
toy = record { hmac_sha256 = λ key raw. 1 ∷ []; sha256 = λ raw. 1 ∷ [] }

abbrev recipe : Recipe ℕ
recipe = record {
  name = codes "default";
  version = codes "v1";
  weights = (codes "temporal_proximity", 50) ∷ (codes "sku_overlap", 50) ∷ [];
  threshold = 60;
  temporal_window_sec = 3600;
  sku_overlap_min = 50;
}

abbrev edge : ℕ → Text → LinkEdge ℕ
edge c by = record {
  meta = no_meta;
  from = codes "syn_u";
  to = codes "syn_s";
  kind = codes "user->subscription";
  confidence = c;
  proof = codes "01";
  recipe = by;
  at = 5;
  notes = [];
}

abbrev raw : List (LinkEdge ℕ)
raw =
    edge 60 (codes "temporal_proximity/v1")
    ∷ edge 80 (codes "sku_overlap/v1")
    ∷ edge 40 (codes "temporal_proximity/v1")
    ∷ []

-- The two matchers count once each: half of 60 and half of 80.
scored : calculate_weighted_score percent toy in_order recipe (codes "salt") raw ≡ 70
unfolding calculate_weighted_score scores raise_score total matcher_name has_slash before_slash
    eq_text lookup
scored = refl

combine_lem_example :
    matching percent (key_of (edge 60 [])) (combine percent toy in_order recipe (codes "salt") raw)
    ≡ expected percent toy in_order recipe (codes "salt") raw (key_of (edge 60 []))
combine_lem_example =
    combine_lem percent toy in_order recipe (codes "salt") Permᴰ.refl raw (key_of (edge 60 []))
