-- ===== src/Searcher/Take.antt =====
-- searcher.py: the greedy loop over the ranked chunks, and the list of those that pass its tests.
use longctx.Base.{
  ℕ, zero, suc, ◌+◌, ◌-◌, ◌≤◌, ◌<◌, max, ◌≡◌, refl, ap, true, false, ◌&&◌, ◌||◌, Bool-cases, Option,
  none, some, Option-cases, ◌⊎◌, inl, inr, List, [], ◌∷◌, map, arith, ltb, if◌then◌else◌, contains,
  length, take,
}
use longctx.Chunker.{Text}
use longctx.ChunkStore.{Chunk}
use longctx.ChunkStore.{ChunkStore}
use longctx.Searcher.{Floats, SearcherConfig, dense_cosines}
use longctx.Searcher.Results.{
  Taking, SearchChunk, is_seen, see, is_full, take_chunks, chunk_token_count,
}
use longctx.Searcher.Search.{Found, Request, taking, ranked_chunks, search}

module _ {F : Type 0} (t : Taking F) where
  abbrev pub key_of : Chunk → Option Text
  key_of chunk = if t.dedup then t.key chunk else none

  -- The ranked chunks that the tests of the loop let through.
  abbrev pub eligible : List Text → List (Chunk × F) → List (Chunk × F)
  eligible seen [] = []
  eligible seen ((chunk, score) ∷ ranked) =
      let skipped = eligible seen ranked in
      let rest = eligible (see (key_of chunk) seen) ranked in
      if contains chunk.id t.suppress_ids || is_seen (key_of chunk) seen
      then skipped
      else (chunk, score) ∷ rest

  abbrev pub spent : List (Chunk × F) → ℕ
  spent [] = 0
  spent ((chunk, score) ∷ rest) = t.tokens chunk + spent rest

  -- Where `kept` results came before, the results are the first `n` of the eligible chunks `es`, for
  -- the largest `n` that the budget and the number of results allow.
  pub record IsGreedy (es : List (Chunk × F)) (budget kept n : ℕ) (out : List (SearchChunk F))
      : Type 0 where
    pub shown : out ≡ map (λ e. t.shown e.0 e.1) (take n es)
    pub count : n ≤ length es
    pub within : (spent (take n es) ≤ budget) ⊎ ((kept ≡ 0) × (n ≤ 1))
    pub few : (m : ℕ) → t.max_results ≡ some m → n + kept ≤ max m (kept + 1)
    pub stopped :
        (n ≡ length es)
        ⊎ ((0 < n + kept) × (budget < spent (take (suc n) es)))
        ⊎ ((0 < n) × (m : ℕ) × (t.max_results ≡ some m) × (m ≤ n + kept))

  spent-length :
      ((c : Chunk) → 0 < t.tokens c)
      → (es : List (Chunk × F)) (n : ℕ) → n ≤ length es
      → n ≤ spent (take n es)
  spent-length pos es zero le = omega arith
  spent-length pos [] (suc n) le = absurd (omega arith)
  spent-length pos ((c, s) ∷ es) (suc n) le =
      omega (arith, pos c, spent-length pos es n (omega arith))

  is_full_at :
      (n : ℕ) → is_full t.max_results n ≡ true → (m : ℕ) × (t.max_results ≡ some m) × (m ≤ n)
  is_full_at n h = elim (Option-cases t.max_results) [
    | inl free ↦ absurd (ground (arith, free, h))
    | inr (m, e) ↦ (m, e, ground (arith, ap (λ o. is_full o n) e))
  ]

  not_full : (n m : ℕ) → is_full t.max_results n ≡ false → t.max_results ≡ some m → n < m
  not_full n m h e = ground (arith, ap (λ o. is_full o n) e)

  IsGreedy-nil : (budget kept : ℕ) → IsGreedy [] budget kept 0 []
  IsGreedy-nil budget kept = record {
    shown = refl;
    count = omega arith;
    within = inl (omega arith);
    few = λ m e. omega arith;
    stopped = inl refl;
  }

  IsGreedy-cons :
      ((c : Chunk) → 0 < t.tokens c)
      → (chunk : Chunk) (score : F) (es : List (Chunk × F)) (budget kept n : ℕ)
        (out : List (SearchChunk F))
      → (ltb budget (t.tokens chunk) && ltb 0 kept) ≡ false
      → is_full t.max_results (kept + 1) ≡ false
      → IsGreedy es (budget - t.tokens chunk) (kept + 1) n out
      → IsGreedy ((chunk, score) ∷ es) budget kept (suc n) (t.shown chunk score ∷ out)
  IsGreedy-cons pos chunk score es budget kept n out fits free g =
      let least = spent-length pos es n g.count in
      record {
        shown = ap (◌∷◌ (t.shown chunk score)) g.shown;
        count = omega (arith, g.count);
        within = elim g.within [
          | inl le ↦ elim (Bool-cases (ltb budget (t.tokens chunk))) [
            | inl over ↦ inr (ground (arith, fits), ground (arith, least, le))
            | inr under ↦ inl (ground (arith, le))
          ]
          | inr (e, le) ↦ absurd (omega (arith, e))
        ];
        few = λ m e. omega (arith, g.few m e, not_full (kept + 1) m free e);
        stopped = elim g.stopped [
          | inl e ↦ inl (ap suc e)
          | inr (inl (some_kept, over)) ↦ inr (inl (omega arith, omega (arith, over)))
          | inr (inr (_, m, e, le)) ↦ inr (inr (omega arith, m, e, omega (arith, le)))
        ];
      }

  IsGreedy-stop :
      (chunk : Chunk) (score : F) (es : List (Chunk × F)) (budget kept : ℕ)
      → (ltb budget (t.tokens chunk) && ltb 0 kept) ≡ true
      → IsGreedy ((chunk, score) ∷ es) budget kept 0 []
  IsGreedy-stop chunk score es budget kept over = record {
    shown = refl;
    count = omega arith;
    within = inl (omega arith);
    few = λ m e. omega arith;
    stopped = inr (inl (ground (arith, over), ground (arith, over)));
  }

  IsGreedy-full :
      (chunk : Chunk) (score : F) (es : List (Chunk × F)) (budget kept : ℕ)
      → (ltb budget (t.tokens chunk) && ltb 0 kept) ≡ false
      → is_full t.max_results (kept + 1) ≡ true
      → IsGreedy ((chunk, score) ∷ es) budget kept 1 (t.shown chunk score ∷ [])
  IsGreedy-full chunk score es budget kept fits full = record {
    shown = refl;
    count = omega arith;
    within = elim (Bool-cases (ltb budget (t.tokens chunk))) [
      | inl over ↦ inr (ground (arith, fits), omega arith)
      | inr under ↦ inl (ground arith)
    ];
    few = λ m e. omega arith;
    stopped =
        let (m, e, le) = is_full_at (kept + 1) full in
        inr (inr (omega arith, m, e, omega (arith, le)));
  }

  pub take_chunks-IsGreedy :
      ((c : Chunk) → 0 < t.tokens c)
      → (ranked : List (Chunk × F)) (budget : ℕ) (seen : List Text) (kept : ℕ)
      → (n : ℕ) × IsGreedy
          (eligible seen ranked)
          budget
          kept
          n
          (take_chunks t ranked budget seen kept)
  unfolding take_chunks
  take_chunks-IsGreedy pos [] budget seen kept = (0, IsGreedy-nil budget kept)
  take_chunks-IsGreedy pos ((chunk, score) ∷ ranked) budget seen kept =
      elim (Bool-cases (contains chunk.id t.suppress_ids)) [
        | inl gone ↦ rw gone (take_chunks-IsGreedy pos ranked budget seen kept)
        | inr shows ↦ elim (Bool-cases (is_seen (key_of chunk) seen)) [
          | inl twice ↦ rw (shows, twice) (take_chunks-IsGreedy pos ranked budget seen kept)
          | inr first ↦ elim (Bool-cases (ltb budget (t.tokens chunk) && ltb 0 kept)) [
            | inl over ↦ rw (shows, first, over) (0, IsGreedy-stop chunk score _ budget kept over)
            | inr fits ↦ elim (Bool-cases (is_full t.max_results (kept + 1))) [
              | inl full ↦
                  rw (shows, first, fits, full)
                    (1, IsGreedy-full chunk score _ budget kept fits full)
              | inr free ↦
                  let (n, g) =
                    take_chunks-IsGreedy pos ranked (budget - t.tokens chunk)
                      (see (key_of chunk) seen) (kept + 1) in
                  rw (shows, first, fits, free)
                    (suc n, IsGreedy-cons pos chunk score _ budget kept n _ fits free g)
            ]
          ]
        ]
      ]

chunk_token_count-pos :
    (chars_per_token : ℕ) (chunk : Chunk) → 0 < chunk_token_count chars_per_token chunk
unfolding chunk_token_count
chunk_token_count-pos chars_per_token chunk = elim (Bool-cases (ltb 0 chunk.token_count)) [
  | inl recorded ↦ rw recorded (ground arith)
  | inr missing ↦ rw missing (omega arith)
]

module _ {F : Type 0} (fl : Floats F) (config : SearcherConfig F) (st : ChunkStore) where
  abbrev pub taking_of : Request F → Found F → Option (List ℕ) → Taking F
  taking_of r found suppress_ids =
      taking fl config st r (dense_cosines fl found.dense_rankings []) suppress_ids

  taking-pos :
      (r : Request F) (found : Found F) (suppress_ids : Option (List ℕ)) (c : Chunk)
      → 0 < (taking_of r found suppress_ids).tokens c
  unfolding taking
  taking-pos r found suppress_ids c = chunk_token_count-pos config.chars_per_token c

  -- Out of the chunks that the loop's own tests let through.
  pub search-take :
      (r : Request F) (found : Found F) (suppress_ids : Option (List ℕ))
      → (search fl config st r found suppress_ids).no_relevant_results ≡ false
      → (n : ℕ) × IsGreedy
          (taking_of r found suppress_ids)
          (eligible
            (taking_of r found suppress_ids)
            []
            (ranked_chunks fl config st r found suppress_ids))
          r.max_tokens
          0
          n
          (search fl config st r found suppress_ids).chunks
  unfolding search
  search-take r found suppress_ids relevant = rw relevant (
      take_chunks-IsGreedy (taking_of r found suppress_ids) (taking-pos r found suppress_ids)
        (ranked_chunks fl config st r found suppress_ids) r.max_tokens [] 0)
