-- ===== src/Lb/Tests.antt =====
-- Runs of the load balancer, and its theorems at them.
use tiki.Base.{ℕ, ◌≡◌, refl, List, [], ◌∷◌, some, Str, codes, str_eq, ok, arith}
use tiki.Go.Maps.{Map, get}
use tiki.Go.Strings.{index, split}
use tiki.Go.Strconv.{atoi, itoa}
use tiki.Lb.Weight.{weight, tags_weight, tag_weight, weight_tag}
use tiki.Lb.Select.{select, build, choose, total, roulette, select-roulette}
use tiki.Lb.Share.{count_below, goes_to, select-share}

abbrev node_a : Str
node_a = codes "10.0.0.1:80"

abbrev node_b : Str
node_b = codes "10.0.0.2:80"

abbrev tags : Map (List Str)
tags = (node_b, codes "dc1" ∷ weight_tag 25 ∷ []) ∷ []

abbrev nodes : Map ℕ
nodes = (node_a, 1) ∷ (node_b, 2) ∷ []

weight_b : weight tags node_b ≡ 25
unfolding weight tags_weight tag_weight index split atoi itoa get str_eq
weight_b = refl

select_b : select tags (λ _. 100) (codes "/u") (codes "GET") nodes ≡ ok (some 2, node_b)
unfolding select build choose weight tags_weight tag_weight index split atoi itoa get str_eq
select_b = refl

select-roulette_example :
    select tags (λ _. 100) (codes "/u") (codes "GET") nodes ≡ ok (some 2, node_b)
unfolding roulette weight tags_weight tag_weight index split atoi itoa get str_eq
select-roulette_example =
    select-roulette tags (λ _. 100) (codes "/u") (codes "GET") nodes node_b 2 (refl, (refl, tt))
      (omega arith) (omega arith) refl

select-share_example :
    count_below
      (total tags nodes)
      (λ n. goes_to node_b (select tags (λ _. n) (codes "/u") (codes "GET") nodes))
    ≡ weight tags node_b
unfolding get str_eq
select-share_example =
    select-share tags (codes "/u") (codes "GET") nodes node_b 2 (refl, (refl, tt)) (omega arith)
      refl
