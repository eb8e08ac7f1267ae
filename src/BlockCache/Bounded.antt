-- ===== src/BlockCache/Bounded.antt =====
-- src/block_cache.cpp: how many nodes the cache holds, and what a lookup answers after another.
use mini_lsm_cpp.Prelude.{
  ◌+◌, ◌≤◌, ◌<◌, ◌≡◌, refl, sym, inl, inr, true, false, List, [], ◌∷◌, Option, none, some,
  some-injective, arith, length, leb, leb→le, ◌==◌, Bool-cases, Option-cases, ==_ne, ==_refl,
}
use mini_lsm_cpp.Block.{Block}
use mini_lsm_cpp.BlockCache.{
  CacheKey, ListEntry, BlockCache, same_key, find_node, without, pop_back, move_to_front, get,
  add_node, insert_block, insert, try_get_with,
}

abbrev pub HasOneEach : List ListEntry → Type 0
HasOneEach [] = Unit {0}
HasOneEach ((k, block) ∷ nodes) = (find_node k nodes ≡ none) × HasOneEach nodes

-- At most `capacity` nodes, none of them for the key of another one.
pub record IsBounded (c : BlockCache) : Type 0 where
  pub size : length c.nodes ≤ c.capacity
  pub one_each : HasOneEach c.nodes

length-without :
    (k : CacheKey) (nodes : List ListEntry) (block : Block)
    → find_node k nodes ≡ some block
    → length (without k nodes) + 1 ≡ length nodes
unfolding find_node without
length-without k [] block h = cc
length-without k ((j, b) ∷ nodes) block h = ground (arith, length-without k nodes block)

length-pop_back :
    (nodes : List ListEntry) → 0 < length nodes → length (pop_back nodes) + 1 ≡ length nodes
unfolding pop_back
length-pop_back [] h = absurd (omega arith)
length-pop_back (n ∷ []) h = refl
length-pop_back (n ∷ m ∷ nodes) h = omega (arith, length-pop_back (m ∷ nodes))

without_absent :
    (k j : CacheKey) (nodes : List ListEntry)
    → find_node j nodes ≡ none
    → find_node j (without k nodes) ≡ none
unfolding find_node without
without_absent k j [] h = refl
without_absent k j ((i, b) ∷ nodes) h = ground (arith, without_absent k j nodes)

pop_back_absent :
    (j : CacheKey) (nodes : List ListEntry)
    → find_node j nodes ≡ none
    → find_node j (pop_back nodes) ≡ none
unfolding find_node pop_back
pop_back_absent j [] h = refl
pop_back_absent j (n ∷ []) h = refl
pop_back_absent j (n ∷ m ∷ nodes) h = ground (arith, pop_back_absent j (m ∷ nodes))

find_node_same :
    (k j : CacheKey) (nodes : List ListEntry)
    → same_key k j ≡ true
    → find_node k nodes ≡ find_node j nodes
unfolding find_node
find_node_same k j [] h = refl
find_node_same k j ((i, b) ∷ nodes) h = ground (arith, find_node_same k j nodes)

without_self :
    (k : CacheKey) (nodes : List ListEntry)
    → HasOneEach nodes
    → find_node k (without k nodes) ≡ none
unfolding find_node without
without_self k [] one = refl
without_self k ((j, b) ∷ nodes) one =
    ground (arith, find_node_same k j nodes, without_self k nodes one.1, one.0)

without-HasOneEach :
    (k : CacheKey) (nodes : List ListEntry) → HasOneEach nodes → HasOneEach (without k nodes)
unfolding without
without-HasOneEach k [] one = tt
without-HasOneEach k ((j, b) ∷ nodes) one = elim (Bool-cases (same_key k j)) [
  | inl e ↦ rw (e, without) one.1
  | inr e ↦ rw (e, without) (without_absent k j nodes one.0, without-HasOneEach k nodes one.1)
]

pop_back-HasOneEach : (nodes : List ListEntry) → HasOneEach nodes → HasOneEach (pop_back nodes)
unfolding pop_back
pop_back-HasOneEach [] one = tt
pop_back-HasOneEach (n ∷ []) one = tt
pop_back-HasOneEach ((k, b) ∷ m ∷ nodes) one =
    (pop_back_absent k (m ∷ nodes) one.0, pop_back-HasOneEach (m ∷ nodes) one.1)

move_to_front-IsBounded :
    (c : BlockCache) (k : CacheKey) (old block : Block)
    → find_node k c.nodes ≡ some old
    → IsBounded c
    → IsBounded (move_to_front c k block)
unfolding move_to_front
move_to_front-IsBounded c k old block e b = record {
  size = let s = b.size in omega (arith, length-without k c.nodes old e);
  one_each = (without_self k c.nodes b.one_each, without-HasOneEach k c.nodes b.one_each);
}

add_node-IsBounded :
    (c : BlockCache) (k : CacheKey) (block : Block)
    → 0 < c.capacity
    → find_node k c.nodes ≡ none
    → IsBounded c
    → IsBounded (add_node c k block)
unfolding add_node
add_node-IsBounded c k block some_room e b =
    let s = b.size in
    elim (Bool-cases (leb c.capacity (length c.nodes))) [
      | inl full ↦
          let many : c.capacity ≤ length c.nodes = leb→le _ _ full in
          rw full (record {
            size = omega (arith, length-pop_back c.nodes);
            one_each = (pop_back_absent k c.nodes e, pop_back-HasOneEach c.nodes b.one_each);
          })
      | inr room ↦ rw room (record { size = ground arith; one_each = (e, b.one_each) })
    ]

insert_block-IsBounded :
    (c : BlockCache) (k : CacheKey) (block : Block)
    → 0 < c.capacity
    → IsBounded c
    → IsBounded (insert_block c k block)
unfolding insert_block
insert_block-IsBounded c k block some_room b = elim (Option-cases (find_node k c.nodes)) [
  | inl absent ↦ rw (absent, insert_block) (add_node-IsBounded c k block some_room absent b)
  | inr (old, there) ↦ rw (there, insert_block) (move_to_front-IsBounded c k old block there b)
]

insert-IsBounded :
    (c : BlockCache) (k : CacheKey) (block : Option Block)
    → IsBounded c
    → IsBounded (insert c k block)
unfolding insert
insert-IsBounded c k none b = b
insert-IsBounded c k (some block) b = elim (Bool-cases (c.capacity == 0)) [
  | inl e ↦ rw e b
  | inr e ↦ rw e (insert_block-IsBounded c k block (ground arith) b)
]

get-IsBounded : (c : BlockCache) (k : CacheKey) → IsBounded c → IsBounded (get c k).1
unfolding get
get-IsBounded c k b = elim (Option-cases (find_node k c.nodes)) [
  | inl absent ↦ rw (absent, get) b
  | inr (block, there) ↦ rw (there, get) (move_to_front-IsBounded c k block block there b)
]

-- Every lookup through the loader, whatever the loader answers, keeps the nodes of the cache at
-- most as many as its capacity, with one node for each key.
pub try_get_with-IsBounded :
    (c : BlockCache) (k : CacheKey) (loaded : Option Block)
    → IsBounded c
    → IsBounded (try_get_with c k loaded).1
unfolding try_get_with
try_get_with-IsBounded c k loaded b = elim (Option-cases (get c k).0) [
  | inl miss ↦ rw (miss, try_get_with) (insert-IsBounded (get c k).1 k loaded (get-IsBounded c k b))
  | inr (block, hit) ↦ rw (hit, try_get_with) (get-IsBounded c k b)
]

get_front :
    (c : BlockCache) (k : CacheKey) (block : Block) (nodes : List ListEntry)
    → c.nodes ≡ (k, block) ∷ nodes
    → (get c k).0 ≡ some block
unfolding get find_node
get_front c k block nodes e =
    let found : find_node k c.nodes ≡ some block = rw (e, ==_refl k.0, ==_refl k.1) in
    rw (found, get)

insert_block_front :
    (c : BlockCache) (k : CacheKey) (block : Block)
    → (nodes : List ListEntry) × ((insert_block c k block).nodes ≡ (k, block) ∷ nodes)
unfolding insert_block add_node move_to_front
insert_block_front c k block = elim (Option-cases (find_node k c.nodes)) [
  | inl absent ↦ elim (Bool-cases (leb c.capacity (length c.nodes))) [
    | inl full ↦ (pop_back c.nodes, rw (absent, insert_block, full))
    | inr room ↦ (c.nodes, rw (absent, insert_block, room))
  ]
  | inr (old, there) ↦ (without k c.nodes, rw (there, insert_block))
]

get_hit :
    (c : BlockCache) (k : CacheKey) (block : Block)
    → (get c k).0 ≡ some block
    → (nodes : List ListEntry) × ((get c k).1.nodes ≡ (k, block) ∷ nodes)
unfolding get move_to_front
get_hit c k block h = elim (Option-cases (find_node k c.nodes)) [
  | inl absent ↦ absurd (cc (rw (absent, get) at h))
  | inr (b, there) ↦
      let same : b ≡ block = some-injective _ _ (rw (there, get) at h) in
      (without k c.nodes, rw (there, get, same))
]

get_miss : (c : BlockCache) (k : CacheKey) → (get c k).0 ≡ none → (get c k).1 ≡ c
unfolding get
get_miss c k h = elim (Option-cases (find_node k c.nodes)) [
  | inl absent ↦ rw (absent, get)
  | inr (b, there) ↦ absurd (cc (rw (there, get) at h))
]

-- In a block cache with room for a block, whatever block a lookup through the loader answers,
-- loaded or cached, is the block that the next get of the key answers.
pub get-try_get_with :
    (c : BlockCache) (k : CacheKey) (loaded : Option Block) (block : Block)
    → 0 < c.capacity
    → (try_get_with c k loaded).0 ≡ some block
    → (get (try_get_with c k loaded).1 k).0 ≡ some block
unfolding try_get_with insert
get-try_get_with c k loaded block some_room h = elim (Option-cases (get c k).0) [
  | inl miss ↦
      let answer : loaded ≡ some block = rw (miss, try_get_with) at h in
      let same = get_miss c k miss in
      let room : (c.capacity == 0) ≡ false = ==_ne _ _ (omega arith) in
      let (nodes, e) = insert_block_front c k block in
      rw (miss, try_get_with, answer, same, room)
        (get_front (insert_block c k block) k block nodes e)
  | inr (b, hit) ↦
      let answer : b ≡ block = some-injective _ _ (rw (hit, try_get_with) at h) in
      let (nodes, e) = get_hit c k b hit in
      rw (hit, try_get_with, sym answer) (get_front (get c k).1 k b nodes e)
]
