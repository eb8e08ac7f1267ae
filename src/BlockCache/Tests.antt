-- ===== src/BlockCache/Tests.antt =====
-- A cache of two blocks.
use mini_lsm_cpp.Prelude.{◌≡◌, refl, zero, suc, [], ◌∷◌, Option, some, none, arith}
use mini_lsm_cpp.Block.{Block}
use mini_lsm_cpp.BlockCache.{CacheKey, BlockCache, find_node, get, try_get_with}
use mini_lsm_cpp.BlockCache.Coherent.{IsCoherent, try_get_with-loads}
use mini_lsm_cpp.BlockCache.Bounded.{
  HasOneEach, IsBounded, try_get_with-IsBounded, get-try_get_with,
}

abbrev block : Block
block = record { contents = 7 ∷ []; offsets = 0 ∷ [] }

abbrev other : Block
other = record { contents = 8 ∷ []; offsets = 0 ∷ [] }

abbrev full_cache : BlockCache
full_cache = record { capacity = 2; nodes = ((1, 0), block) ∷ ((1, 1), block) ∷ [] }

full_cache-HasOneEach : HasOneEach full_cache.nodes
unfolding find_node
full_cache-HasOneEach = (refl, (refl, tt))

full_cache-IsBounded : IsBounded full_cache
full_cache-IsBounded = record { size = omega arith; one_each = full_cache-HasOneEach }

try_get_with-IsBounded_example : IsBounded (try_get_with full_cache (2, 0) (some other)).1
try_get_with-IsBounded_example =
    try_get_with-IsBounded full_cache (2, 0) (some other) full_cache-IsBounded

loads : (try_get_with full_cache (2, 0) (some other)).0 ≡ some other
unfolding try_get_with get find_node
loads = refl

get-try_get_with_example :
    (get (try_get_with full_cache (2, 0) (some other)).1 (2, 0)).0 ≡ some other
get-try_get_with_example = get-try_get_with full_cache (2, 0) (some other) other (omega arith) loads

abbrev answer : CacheKey → Option Block
answer (zero, i) = none
answer (suc zero, i) = some block
answer (suc (suc t), i) = some other

try_get_with-loads_example :
    ((try_get_with full_cache (2, 0) (answer (2, 0))).0 ≡ answer (2, 0))
    × IsCoherent answer (try_get_with full_cache (2, 0) (answer (2, 0))).1
try_get_with-loads_example = try_get_with-loads answer full_cache (2, 0) (refl, (refl, tt))
