-- ===== src/Pool/Schedule/Once.antt =====
-- proxypool.go: the pools of all shards together come to each block once in a cycle.
use native.Mathlib.Nat
use mathlib.Core.Path.{subst}
use proxykit_go.Base.{ℕ, ◌+◌, ◌*◌, ◌/◌, ◌%◌, ◌≤◌, ◌<◌, false, ◌==◌, ◌≡◌, refl, arith, sym, ap, ◌∙◌}
use proxykit_go.Base.Word.{u64, xor64}
use proxykit_go.Pool.Sizes.{mode_sequential}
use proxykit_go.Pool.Shards.{shard_item_count_iff, ceiling_quotient_iff, digits_unique}
use proxykit_go.Pool.Open.{Geometry}
use proxykit_go.Pool.Modular.{add_modulo}
use proxykit_go.Pool.Modular.Laws.{add_modulo_lem}
use proxykit_go.Pool.Permutation.{Params, visit, mix64}
use proxykit_go.Pool.Permutation.Coprime.{AreParams, gcd-one, permutation_params-AreParams}
use proxykit_go.Pool.Permutation.Visits.{visit-lt, visit_lem, visit-once, visit-permutation_params}
use proxykit_go.Pool.Walk.{region_length}
use proxykit_go.Pool.Schedule.{
  IsGeometry, of_shard, scheduled, scheduled_steps, scheduled_lem, place, region_of, params_of,
  cycle_seed_of,
}

-- A rotation comes to each step once.
rotation-once :
    (len rotated x : ℕ)
    → len < u64
    → rotated < len
    → x < len
    → (n : ℕ) × (n < len)
      × (add_modulo rotated n len ≡ x)
      × ((j : ℕ) → j < len → add_modulo rotated j len ≡ x → j ≡ n)
rotation-once len rotated x bound hr hx =
    let p = turns in
    let fit : AreParams len p = record {
      coprime = gcd-one len;
      step_le = omega arith;
      start_lt = hr;
    } in
    let (n, below, hit, once) = visit-once len p fit x hx in
    (n, below, same fit n below ∙ hit, λ j hj e. once j hj (sym (same fit j hj) ∙ e))
  where
    turns : Params
    turns = record { step = 1; start = rotated }

    same :
        (fit : AreParams len turns) (k : ℕ) → k < len → add_modulo rotated k len ≡ visit len turns k
    same fit k hk =
        let unit : rotated + k ≡ rotated + k * 1 = omega arith in
        add_modulo_lem rotated k len hr hk bound
        ∙ ap (λ t. t % len) unit
        ∙ sym (visit_lem len turns fit k)

region_length-bounds :
    (g : Geometry) (r : ℕ)
    → IsGeometry g
    → r < g.region_count
    → (0 < region_length g r)
      × (region_length g r ≤ g.blocks_per_region)
      × (region_length g r < u64)
region_length-bounds g r fit h =
    let begins = (ceiling_quotient_iff g.block_count g.blocks_per_region r fit.blocks_positive).0 in
    let inside = begins (subst (◌<◌ r) fit.regions_count h) in
    (omega (arith, inside, fit.blocks_positive), omega arith, omega (arith, fit.blocks_bound))

abbrev turn_of : Geometry → ℕ → ℕ → ℕ
turn_of g c r = mix64 (xor64 (cycle_seed_of g c) r) % region_length g r

-- Where a block stands: its region and its step there.
place-once :
    (g : Geometry) (c b : ℕ)
    → IsGeometry g
    → b < g.block_count
    → (r n : ℕ) × (r < g.region_count)
      × (n < region_length g r)
      × (place g c r n ≡ b)
      × ((r' n' : ℕ)
          → r' < g.region_count
          → n' < region_length g r'
          → place g c r' n' ≡ b
          → (r' ≡ r) × (n' ≡ n))
place-once g c b fit h =
    let size = g.blocks_per_region in
    let r = b / size in
    let x = b % size in
    let split : x + r * size ≡ b = omega (arith, Nat.div-add-mod b size, Nat.mul_comm size r) in
    let small : x < size = Nat.mod-lt b fit.blocks_positive in
    let begins : r * size < g.block_count = omega (arith, split) in
    let counted = (ceiling_quotient_iff g.block_count size r fit.blocks_positive).1 begins in
    let region : r < g.region_count = rw fit.regions_count counted in
    let (some_blocks, few, bound) = region_length-bounds g r fit region in
    let inside : x < region_length g r = omega (arith, split, small) in
    let turned = Nat.mod-lt (mix64 (xor64 (cycle_seed_of g c) r)) some_blocks in
    let (n, below, hit, once) = rotation-once (region_length g r) _ x bound turned inside in
    (
      r,
      n,
      region,
      below,
      omega (arith, hit, split),
      λ r' n' hr hn e.
          let (blocks', few', bound') = region_length-bounds g r' fit hr in
          let turned' = Nat.mod-lt (mix64 (xor64 (cycle_seed_of g c) r')) blocks' in
          let y = add_modulo (turn_of g c r') n' (region_length g r') in
          let sum = add_modulo_lem (turn_of g c r') n' (region_length g r') turned' hn bound' in
          let low = Nat.mod-lt (turn_of g c r' + n') blocks' in
          let (offset, same) =
            digits_unique size y r' x r (omega (arith, sum, low, few')) small
              (omega (arith, e, split)) in
          (
            same,
            once n' (subst (λ q. n' < region_length g q) same hn)
                (subst (λ q. add_modulo (turn_of g c q) n' (region_length g q) ≡ x) same offset),
          ),
    )

pub shard-IsGeometry :
    (g : Geometry) (i : ℕ) → IsGeometry g → i < g.shard_count → IsGeometry (of_shard g i)
shard-IsGeometry g i fit h = record {
  block_positive = fit.block_positive;
  blocks_positive = fit.blocks_positive;
  blocks_bound = fit.blocks_bound;
  blocks_count = fit.blocks_count;
  regions_count = fit.regions_count;
  shards_positive = fit.shards_positive;
  shards_bound = fit.shards_bound;
  shard_lt = h;
  regions_shard = refl;
}

-- The pools of all shards of a shuffled geometry, with one seed, come to each block of the file
-- exactly once in a cycle: at one step of one region of one shard.
pub scheduled-once :
    (g : Geometry) (c b : ℕ)
    → IsGeometry g
    → (g.mode == mode_sequential) ≡ false
    → b < g.block_count
    → (i k n : ℕ) × (i < g.shard_count)
      × (k < (of_shard g i).regions_for_shard)
      × (n < scheduled_steps (of_shard g i) c k)
      × (scheduled (of_shard g i) c k n ≡ b)
      × ((i' k' n' : ℕ)
          → i' < g.shard_count
          → k' < (of_shard g i').regions_for_shard
          → n' < scheduled_steps (of_shard g i') c k'
          → scheduled (of_shard g i') c k' n' ≡ b
          → (i' ≡ i) × (k' ≡ k) × (n' ≡ n))
scheduled-once g c b fit m h =
    let (r, n, region, below, hit, once) = place-once g c b fit h in
    let shards = g.shard_count in
    let (at, at_lt, at_hit, at_once) =
      visit-permutation_params g.region_count (cycle_seed_of g c) r region in
    let i = at % shards in
    let k = at / shards in
    let split : i + k * shards ≡ at =
      omega (arith, Nat.div-add-mod at shards, Nat.mul_comm shards k) in
    let shard = Nat.mod-lt at fit.shards_positive in
    let arrives : region_of (of_shard g i) c k ≡ r =
      ap (visit g.region_count (params_of g c)) split ∙ at_hit in
    let (block, steps) =
      scheduled_lem (of_shard g i) c k n (shard-IsGeometry g i fit shard) m
        (omega (arith, region)) in
    (
      i,
      k,
      n,
      shard,
      (shard_item_count_iff g.region_count shards i k fit.shards_positive).1
          (omega (arith, split, at_lt)),
      rw (steps, arrives) below,
      block ∙ ap (λ q. place g c q n) arrives ∙ hit,
      λ i' k' n' hi hk hn e.
          let (block', steps') =
            scheduled_lem (of_shard g i') c k' n' (shard-IsGeometry g i' fit hi) m
              (omega (arith, region)) in
          let place' =
            (shard_item_count_iff g.region_count shards i' k' fit.shards_positive).0 hk in
          let r' = region_of (of_shard g i') c k' in
          let ready =
            permutation_params-AreParams g.region_count (cycle_seed_of g c)
              (omega (arith, region)) in
          let r_lt = visit-lt g.region_count (params_of g c) ready (i' + k' * shards) in
          let (same, step) = once r' n' r_lt (subst (◌<◌ n') steps' hn) (sym block' ∙ e) in
          let met = at_once (i' + k' * shards) place' same in
          let (shard', turn) = digits_unique shards i' k' i k hi shard (met ∙ sym split) in
          (shard', turn, step),
    )
