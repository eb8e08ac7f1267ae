-- ===== src/BlockCache/Coherent.antt =====
-- src/block_cache.cpp: a cache that holds for each key the block that its loader answers.
use mini_lsm_cpp.Prelude.{
  ℕ, ◌≡◌, refl, sym, ap₂, ap, ◌∙◌, subst, inl, inr, true, ◌==◌, List, [], ◌∷◌, Option, none, some,
  All, arith, Bool-cases, Option-cases, leb, length,
}
use mini_lsm_cpp.Block.{Block}
use mini_lsm_cpp.BlockCache.{
  CacheKey, ListEntry, BlockCache, same_key, find_node, without, pop_back, move_to_front, get,
  add_node, insert_block, insert, try_get_with,
}

same_key_eq : (k j : CacheKey) → same_key k j ≡ true → k ≡ j
same_key_eq (a, b) (c, d) h = ap₂ (λ (x : ℕ) (y : ℕ). (x, y)) (first a c b d h) (second a c b d h)
  where
    first : (a c b d : ℕ) → same_key (a, b) (c, d) ≡ true → a ≡ c
    first a c b d h = ground arith

    second : (a c b d : ℕ) → same_key (a, b) (c, d) ≡ true → b ≡ d
    second a c b d h = ground arith

module _ (loads : CacheKey → Option Block) where
  -- Each node has the block that the loader answers for its key.
  abbrev pub IsCoherent : BlockCache → Type 0
  IsCoherent c = All (λ n. loads n.0 ≡ some n.1) c.nodes

  without-All :
      (k : CacheKey) (nodes : List ListEntry)
      → All (λ n. loads n.0 ≡ some n.1) nodes
      → All (λ n. loads n.0 ≡ some n.1) (without k nodes)
  unfolding without
  without-All k [] h = tt
  without-All k ((j, b) ∷ nodes) h = elim (Bool-cases (same_key k j)) [
    | inl e ↦ rw e h.1
    | inr e ↦ rw e (h.0, without-All k nodes h.1)
  ]

  pop_back-All :
      (nodes : List ListEntry)
      → All (λ n. loads n.0 ≡ some n.1) nodes
      → All (λ n. loads n.0 ≡ some n.1) (pop_back nodes)
  unfolding pop_back
  pop_back-All [] h = tt
  pop_back-All (n ∷ []) h = tt
  pop_back-All (n ∷ m ∷ nodes) h = (h.0, pop_back-All (m ∷ nodes) h.1)

  find_node-loads :
      (k : CacheKey) (nodes : List ListEntry) (block : Block)
      → All (λ n. loads n.0 ≡ some n.1) nodes
      → find_node k nodes ≡ some block
      → loads k ≡ some block
  unfolding find_node
  find_node-loads k [] block h e = cc
  find_node-loads k ((j, b) ∷ nodes) block h e = elim (Bool-cases (same_key k j)) [
    | inl s ↦ ap loads (same_key_eq k j s) ∙ h.0 ∙ rw s at e
    | inr s ↦ find_node-loads k nodes block h.1 (rw s at e)
  ]

  move_to_front-IsCoherent :
      (c : BlockCache) (k : CacheKey) (block : Block)
      → loads k ≡ some block
      → IsCoherent c
      → IsCoherent (move_to_front c k block)
  unfolding move_to_front
  move_to_front-IsCoherent c k block e h = (e, without-All k c.nodes h)

  insert_block-IsCoherent :
      (c : BlockCache) (k : CacheKey) (block : Block)
      → loads k ≡ some block
      → IsCoherent c
      → IsCoherent (insert_block c k block)
  unfolding insert_block add_node
  insert_block-IsCoherent c k block e h = elim (Option-cases (find_node k c.nodes)) [
    | inr (b, f) ↦ rw (f, insert_block) (move_to_front-IsCoherent c k block e h)
    | inl f ↦ elim (Bool-cases (leb c.capacity (length c.nodes))) [
      | inl full ↦ rw (f, insert_block, full) (e, pop_back-All c.nodes h)
      | inr room ↦ rw (f, insert_block, room) (e, h)
    ]
  ]

  insert-IsCoherent :
      (c : BlockCache) (k : CacheKey) (o : Option Block)
      → loads k ≡ o
      → IsCoherent c
      → IsCoherent (insert c k o)
  unfolding insert
  insert-IsCoherent c k none e h = h
  insert-IsCoherent c k (some block) e h = elim (Bool-cases (c.capacity == 0)) [
    | inl z ↦ rw z h
    | inr z ↦ rw z (insert_block-IsCoherent c k block e h)
  ]

  get_missing : (c : BlockCache) (k : CacheKey) → find_node k c.nodes ≡ none → get c k ≡ (none, c)
  unfolding get
  get_missing c k f = rw (f, get)

  get_found :
      (c : BlockCache) (k : CacheKey) (block : Block)
      → find_node k c.nodes ≡ some block
      → get c k ≡ (some block, move_to_front c k block)
  unfolding get
  get_found c k block f = rw (f, get)

  Looked : (c : BlockCache) (k : CacheKey) → Option Block × BlockCache → Type 0
  Looked c k g =
      let r : Option Block × BlockCache = elim g.0 [
        | some block ↦ (some block, g.1)
        | none ↦ (loads k, insert g.1 k (loads k))
      ] in
      (r.0 ≡ loads k) × IsCoherent r.1

  -- In a block cache whose nodes have the blocks that the loader answers for their keys, a
  -- lookup through the loader answers what the loader answers, and leaves such a cache.
  pub try_get_with-loads :
      (c : BlockCache) (k : CacheKey)
      → IsCoherent c
      → ((try_get_with c k (loads k)).0 ≡ loads k) × IsCoherent (try_get_with c k (loads k)).1
  unfolding try_get_with Looked
  try_get_with-loads c k h = elim (Option-cases (find_node k c.nodes)) [
    | inl f ↦
        subst (Looked c k) (sym (get_missing c k f)) (refl, insert-IsCoherent c k (loads k) refl h)
    | inr (block, f) ↦
        let e = find_node-loads k c.nodes block h f in
        subst (Looked c k) (sym (get_found c k block f))
          (sym e, move_to_front-IsCoherent c k block e h)
  ]
