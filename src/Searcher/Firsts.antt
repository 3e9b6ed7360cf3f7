-- ===== src/Searcher/Firsts.antt =====
-- searcher.py: the deduplication of the greedy loop, by the document keys of the chunks.
use longctx.Base.{
  ℕ, ◌≡◌, refl, ap, ◌∙◌, true, false, Bool-cases, Option, some, Option-cases, inl, inr, ◌⊎◌, List,
  [], ◌∷◌, arith, contains, In,
}
use mathlib.Core.Path.{subst}
use longctx.Chunker.{Text}
use longctx.ChunkStore.{ChunkStore, Chunk}
use longctx.Searcher.{Floats, SearcherConfig}
use longctx.Searcher.Results.{Taking, text_eq, contains_text, is_seen, see}
use longctx.Searcher.Search.{Found, Request, ranked_chunks, search}
use longctx.Searcher.Take.{key_of, eligible, IsGreedy, taking_of, search-take}

text_eq_sound : (s t : Text) → text_eq s t ≡ true → s ≡ t
text_eq_sound [] [] h = refl
text_eq_sound [] (d ∷ t) h = absurd (ground (arith, h))
text_eq_sound (c ∷ s) [] h = absurd (ground (arith, h))
text_eq_sound (c ∷ s) (d ∷ t) h =
    let first : c ≡ d = ground (arith, h) in
    ap (λ k. k ∷ s) first ∙ ap (◌∷◌ d) (text_eq_sound s t (ground (arith, h)))

text_eq_refl : (s : Text) → text_eq s s ≡ true
text_eq_refl [] = refl
text_eq_refl (c ∷ s) = ground (arith, text_eq_refl s)

module _ {F : Type 0} (t : Taking F) where
  -- The two chunks have one document key, and the deduplication is on.
  abbrev pub IsSameDocument : Chunk → Chunk → Type 0
  IsSameDocument d c = (t.dedup ≡ true) × (key : Text) × (t.key d ≡ some key) × (t.key c ≡ some key)

  -- The chunk is suppressed, or one of those before is of its document.
  abbrev pub IsOut : List Chunk → Chunk → Type 0
  IsOut before c =
      (contains c.id t.suppress_ids ≡ true) ⊎ (d : Chunk) × In d before × IsSameDocument d c

  -- `es` are the ranked chunks that are not out, in their order, where those before were taken.
  abbrev pub AreFirsts : List Chunk → List (Chunk × F) → List (Chunk × F) → Type 0
  AreFirsts before [] es = es ≡ []
  AreFirsts before ((c, score) ∷ ranked) es =
      (IsOut before c × AreFirsts before ranked es)
      ⊎ (¬ IsOut before c)
        × (rest : List (Chunk × F)) × (es ≡ (c, score) ∷ rest)
        × AreFirsts (c ∷ before) ranked rest

  -- The keys that were seen are those of the chunks before.
  record AreKeys (before : List Chunk) (seen : List Text) : Type 0 where
    of_seen :
        (key : Text)
        → contains_text key seen ≡ true
        → (d : Chunk) × In d before × (t.dedup ≡ true) × (t.key d ≡ some key)
    of_before :
        (key : Text) (d : Chunk)
        → In d before
        → t.dedup ≡ true
        → t.key d ≡ some key
        → contains_text key seen ≡ true

  key_of-some :
      (c : Chunk) (key : Text) → key_of t c ≡ some key → (t.dedup ≡ true) × (t.key c ≡ some key)
  key_of-some c key h = elim (Bool-cases t.dedup) [
    | inl on ↦ (on, rw on at h)
    | inr off ↦ absurd (ground (arith, off, h))
  ]

  some-key_of :
      (c : Chunk) (key : Text) → t.dedup ≡ true → t.key c ≡ some key → key_of t c ≡ some key
  some-key_of c key on h = rw on h

  seen-IsOut :
      (before : List Chunk) (seen : List Text) (c : Chunk)
      → AreKeys before seen
      → is_seen (key_of t c) seen ≡ true
      → IsOut before c
  unfolding is_seen
  seen-IsOut before seen c keys twice = elim (Option-cases (key_of t c)) [
    | inl bare ↦ absurd (ground (arith, bare, twice))
    | inr (key, has) ↦
        let (d, m, on, of_d) = keys.of_seen key (rw has at twice) in
        inr (d, m, (on, key, of_d, (key_of-some c key has).1))
  ]

  unseen-stays :
      (before : List Chunk) (seen : List Text) (c : Chunk)
      → AreKeys before seen
      → contains c.id t.suppress_ids ≡ false
      → is_seen (key_of t c) seen ≡ false
      → ¬ IsOut before c
  unfolding is_seen
  unseen-stays before seen c keys shows first (inl gone) = ground (arith, shows, gone)
  unseen-stays before seen c keys shows first (inr (d, m, (on, key, of_d, of_c))) =
      let miss : contains_text key seen ≡ false = rw (some-key_of c key on of_c) at first in
      ground (arith, keys.of_before key d m on of_d, miss)

  AreKeys-see :
      (before : List Chunk) (seen : List Text) (c : Chunk)
      → AreKeys before seen
      → AreKeys (c ∷ before) (see (key_of t c) seen)
  unfolding see
  AreKeys-see before seen c keys = elim (Option-cases (key_of t c)) [
    | inl bare ↦ rw bare (record {
      of_seen = λ key h. let (d, m, on, of_d) = keys.of_seen key h in (d, inr m, on, of_d);
      of_before = λ key d m on of_d. elim m [
        | inl here ↦
            let of_c = some-key_of c key on (ap t.key here ∙ of_d) in
            absurd (ground (arith, bare, of_c))
        | inr later ↦ keys.of_before key d later on of_d
      ];
    })
    | inr (k, has) ↦ rw has (record {
      of_seen = λ key h. elim (Bool-cases (text_eq k key)) [
        | inl same ↦
            let (on, of_c) = key_of-some c k has in
            (c, inl refl, on, of_c ∙ ap some (text_eq_sound k key same))
        | inr differs ↦
            let (d, m, on, of_d) = keys.of_seen key (ground (arith, differs, h)) in
            (d, inr m, on, of_d)
      ];
      of_before = λ key d m on of_d. elim m [
        | inl here ↦
            let of_c = some-key_of c key on (ap t.key here ∙ of_d) in
            let same : k ≡ key = ground (arith, has, of_c) in
            let hit : text_eq k key ≡ true =
              subst (λ s. text_eq k s ≡ true) same (text_eq_refl k) in
            ground (arith, hit)
        | inr later ↦ ground (arith, keys.of_before key d later on of_d)
      ];
    })
  ]

  eligible-AreFirsts :
      (before : List Chunk) (seen : List Text) (ranked : List (Chunk × F))
      → AreKeys before seen
      → AreFirsts before ranked (eligible t seen ranked)
  eligible-AreFirsts before seen [] keys = refl
  eligible-AreFirsts before seen ((c, s) ∷ ranked) keys =
      elim (Bool-cases (contains c.id t.suppress_ids)) [
        | inl gone ↦ inl (inl gone, rw gone (eligible-AreFirsts before seen ranked keys))
        | inr shows ↦ elim (Bool-cases (is_seen (key_of t c) seen)) [
          | inl twice ↦ inl (
            seen-IsOut before seen c keys twice,
            rw (shows, twice) (eligible-AreFirsts before seen ranked keys),
          )
          | inr first ↦ inr (
            unseen-stays before seen c keys shows first,
            eligible t (see (key_of t c) seen) ranked,
            rw (shows, first) refl,
            eligible-AreFirsts (c ∷ before) (see (key_of t c) seen) ranked
                (AreKeys-see before seen c keys),
          )
        ]
      ]

  AreKeys-nil : AreKeys [] []
  AreKeys-nil = record {
    of_seen = λ key h. absurd (ground (arith, h));
    of_before = λ key d m on of_d. absurd m;
  }

module _ {F : Type 0} (fl : Floats F) (config : SearcherConfig F) (st : ChunkStore) where
  -- A search that is not below the relevance floor returns the first `n` of the chunks that it may
  -- take, in their order. These are the ranked ones that are not suppressed and, where the
  -- deduplication is on, have no document key that one of them before has. They are within the token
  -- budget, or a single one that exceeds it; and no more of them only where there are no more, or the
  -- next does not fit, or there are as many results as asked for.
  pub search-IsGreedy :
      (r : Request F) (found : Found F) (suppress_ids : Option (List ℕ))
      → (search fl config st r found suppress_ids).no_relevant_results ≡ false
      → (es : List (Chunk × F)) × AreFirsts
          (taking_of fl config st r found suppress_ids)
          []
          (ranked_chunks fl config st r found suppress_ids)
          es
        × (n : ℕ) × IsGreedy
            (taking_of fl config st r found suppress_ids)
            es
            r.max_tokens
            0
            n
            (search fl config st r found suppress_ids).chunks
  search-IsGreedy r found suppress_ids relevant =
      let t = taking_of fl config st r found suppress_ids in
      let ranked = ranked_chunks fl config st r found suppress_ids in
      let (n, greedy) = search-take fl config st r found suppress_ids relevant in
      (eligible t [] ranked, eligible-AreFirsts t [] [] ranked (AreKeys-nil t), n, greedy)
