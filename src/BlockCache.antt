-- ===== src/BlockCache.antt =====
-- include/mini_lsm/block_cache.h and src/block_cache.cpp: the cache of decoded blocks, which evicts
-- the least recently used one. Calls are made one after another.
-- `nodes` is list_ from its front on. map_ has an iterator to the node of each key and no other
-- entry, so a search in it is a search for the node, and its size is the number of nodes. A null
-- block is `none`.
pub mod Bounded
pub mod Coherent
mod Tests
use mini_lsm_cpp.Prelude.{
  ℕ, Bool, true, false, ◌&&◌, ◌||◌, List, [], ◌∷◌, Option, none, some, length, leb, ◌==◌,
  if◌then◌else◌,
}
use mini_lsm_cpp.Block.{Block}

-- The table's identifier and the block's index in it.
abbrev pub CacheKey : Type 0
CacheKey = ℕ × ℕ

abbrev pub ListEntry : Type 0
ListEntry = CacheKey × Block

pub record BlockCache : Type 0 where
  pub capacity : ℕ
  pub nodes : List ListEntry

unfoldable pub new : ℕ → BlockCache
new capacity = record { capacity = capacity; nodes = [] }

abbrev pub same_key : CacheKey → CacheKey → Bool
same_key k j = k.0 == j.0 && k.1 == j.1

unfoldable pub find_node : CacheKey → List ListEntry → Option Block
find_node k [] = none
find_node k ((j, block) ∷ nodes) =
    let rest = find_node k nodes in if same_key k j then some block else rest

-- The other nodes, once the key's node is taken out of the list.
unfoldable pub without : CacheKey → List ListEntry → List ListEntry
without k [] = []
without k ((j, block) ∷ nodes) =
    let rest = without k nodes in if same_key k j then nodes else (j, block) ∷ rest

-- list_.pop_back()
unfoldable pub pop_back : List ListEntry → List ListEntry
pop_back [] = []
pop_back (n ∷ []) = []
pop_back (n ∷ m ∷ nodes) = n ∷ pop_back (m ∷ nodes)

-- list_.splice(list_.begin(), list_, it->second), with the block that the node then has.
unfoldable pub move_to_front : BlockCache → CacheKey → Block → BlockCache
move_to_front c k block = record c { nodes = (k, block) ∷ without k c.nodes }

unfoldable pub get : BlockCache → CacheKey → Option Block × BlockCache
unfolding move_to_front
get c k = elim (find_node k c.nodes) [
  | none ↦ (none, c)
  | some block ↦ (some block, move_to_front c k block)
]

-- A key that is not there: the last node makes room if the cache is full.
unfoldable pub add_node : BlockCache → CacheKey → Block → BlockCache
add_node c k block =
    if leb c.capacity (length c.nodes)
    then record c { nodes = (k, block) ∷ pop_back c.nodes }
    else record c { nodes = (k, block) ∷ c.nodes }

unfoldable pub insert_block : BlockCache → CacheKey → Block → BlockCache
unfolding add_node move_to_front
insert_block c k block = elim (find_node k c.nodes) [
  | none ↦ add_node c k block
  | some _ ↦ move_to_front c k block
]

unfoldable pub insert : BlockCache → CacheKey → Option Block → BlockCache
unfolding insert_block
insert c k none = c
insert c k (some block) = if c.capacity == 0 then c else insert_block c k block

-- `loaded` is what the loader answers if it is called. The code takes the lock for `get` and again
-- for `insert`; what other threads do between the two is left out.
unfoldable pub try_get_with : BlockCache → CacheKey → Option Block → Option Block × BlockCache
unfolding get insert
try_get_with c k loaded = elim (get c k).0 [
  | some block ↦ (some block, (get c k).1)
  | none ↦ (loaded, insert (get c k).1 k loaded)
]

unfoldable pub size : BlockCache → ℕ
size c = length c.nodes
