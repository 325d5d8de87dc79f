-- ===== src/Http/Feed/Items/Chunks.antt =====
-- python/src/brain_db_sdk/http/sse.py: a loop over a subscription gives the frames of the response's bytes,
-- however the reads cut them.
use brain_sdk.Prelude.{
  ℕ, zero, suc, ◌+◌, ◌≤◌, ◌<◌, ◌≡◌, refl, sym, ap, ap₂, subst, ◌∙◌, ◌⊎◌, inl, inr, false, Option,
  none, some, List, [], ◌∷◌, ◌++◌, length, append_assoc, append-nil, length-append, if◌then◌else◌,
  arith,
}
use brain_sdk.Http.Json.{Json}
use brain_sdk.Http.Feed.{Feed, Dispatched, new_feed, no_fields, cut_line, take_frame, close_feed}
use brain_sdk.Http.Feed.Lines.{
  complete_lines, cut_none-lines_after, dispatched, pending, Takes, take_frame-Takes,
}
use brain_sdk.Http.Feed.Items.{
  FeedItem, Step, yields, stop_iteration, undecodable, malformed, read_error, Read, chunk, failure,
  decode_frame_item, after_frame, after_read, next_item, keep_item, for_each, Stepped,
}

-- The bytes of the response: all that the reads return up to the first that fails or returns
-- nothing.
unfoldable pub body_bytes : List Read → List ℕ
body_bytes [] = []
body_bytes (failure ∷ reads) = []
body_bytes (chunk [] ∷ reads) = []
body_bytes (chunk (b ∷ bs) ∷ reads) = (b ∷ bs) ++ body_bytes reads

module _ {N : Type 0} where
  -- How they end.
  unfoldable pub body_end : List Read → Step N
  body_end [] = stop_iteration
  body_end (failure ∷ reads) = read_error
  body_end (chunk [] ∷ reads) = stop_iteration
  body_end (chunk (b ∷ bs) ∷ reads) = body_end reads

  unfoldable pub and_item :
      Step N → List (FeedItem N) × Option (Step N) → List (FeedItem N) × Option (Step N)
  and_item (yields item) rest = (item ∷ rest.0, rest.1)
  and_item stop_iteration rest = ([], some stop_iteration)
  and_item undecodable rest = ([], some undecodable)
  and_item (malformed l) rest = ([], some (malformed l))
  and_item read_error rest = ([], some read_error)

module _ {N : Type 0} (loads : List ℕ → Option (Json N)) where
  -- The items of some frames up to the first that is malformed, and how the loop ends.
  unfoldable pub items_of : Step N → List Dispatched → List (FeedItem N) × Option (Step N)
  items_of last [] = ([], some last)
  items_of last (d ∷ ds) = and_item (decode_frame_item loads d) (items_of last ds)

module _ {N : Type 0} (decode : List ℕ → List ℕ) (loads : List ℕ → Option (Json N)) where
  abbrev size_of : Feed → List Read → ℕ
  size_of f reads = length f.buf + length (body_bytes reads)

  -- One `__next__` on an open feed: the first pending frame, decoded; or none is left, and it stops
  -- as the response ends.
  abbrev Nexts : Feed → List Read → Stepped decode loads → Type 0
  Nexts f reads (g, later, s) =
      ((d : Dispatched) × (pending decode f (body_bytes reads)
          ≡ d ∷ pending decode g (body_bytes later))
        × (s ≡ decode_frame_item loads d)
        × (◌≡◌ {A = Step N} (body_end reads) (body_end later))
        × (size_of g later < size_of f reads)
        × (g.closed ≡ false))
      ⊎ ((pending decode f (body_bytes reads) ≡ []) × (s ≡ body_end reads))

  Nexts-trans :
      (f g : Feed) (reads later : List Read) (r : Stepped decode loads)
      → pending decode f (body_bytes reads) ≡ pending decode g (body_bytes later)
      → ◌≡◌ {A = Step N} (body_end reads) (body_end later)
      → size_of g later ≤ size_of f reads
      → Nexts g later r
      → Nexts f reads r
  Nexts-trans f g reads later (h, rest, s) same last shorter (inl (d, p, q, e, lt, c)) =
      inl (d, same ∙ p, q, last ∙ e, omega arith, c)
  Nexts-trans f g reads later (h, rest, s) same last shorter (inr (p, q)) =
      inr (same ∙ p, q ∙ sym last)

  after_frame-Nexts :
      (read_on : Feed → Stepped decode loads) (f : Feed) (reads : List Read)
      (r : Feed × Option Dispatched)
      → f.closed ≡ false
      → Takes decode f r
      → ((g : Feed)
          → ((rest : List ℕ) → pending decode f rest ≡ pending decode g rest)
          → cut_line g.buf ≡ none
          → length g.buf ≤ length f.buf
          → g.closed ≡ false
          → Nexts f reads (read_on g))
      → Nexts f reads (after_frame decode loads read_on reads r)
  unfolding after_frame
  after_frame-Nexts read_on f reads (g, none) c t h = h g t.0 t.1 t.2 (t.3 ∙ c)
  after_frame-Nexts read_on f reads (g, some d) c t h =
      inl (d, t.0 (body_bytes reads), refl, refl, omega (arith, t.1), t.2 ∙ c)

  -- With no full line in the buffer and nothing behind it no frame is left.
  nothing_pending : (g : Feed) → cut_line g.buf ≡ none → pending decode g [] ≡ []
  unfolding complete_lines dispatched
  nothing_pending g e =
      ap (λ bs. dispatched decode g.fields (complete_lines bs)) (append-nil g.buf)
      ∙ ap (dispatched decode g.fields) (cut_none-lines_after [] g.buf e)

  pub next_item-Nexts :
      (reads : List Read) (f : Feed)
      → f.closed ≡ false
      → Nexts f reads (next_item decode loads reads f)
  unfolding next_item after_read body_bytes body_end
  next_item-Nexts [] f c =
      after_frame-Nexts (λ g. (close_feed g, [], stop_iteration)) f [] (take_frame decode f) c
        (take_frame-Takes decode f)
        λ g same full shorter open_still. inr (same [] ∙ nothing_pending g full, refl)
  next_item-Nexts (failure ∷ reads) f c =
      after_frame-Nexts
        (λ g. after_read decode loads (next_item decode loads reads) failure reads g) f
        (failure ∷ reads) (take_frame decode f) c (take_frame-Takes decode f)
        λ g same full shorter open_still. inr (same [] ∙ nothing_pending g full, refl)
  next_item-Nexts (chunk [] ∷ reads) f c =
      after_frame-Nexts
        (λ g. after_read decode loads (next_item decode loads reads) (chunk []) reads g) f
        (chunk [] ∷ reads) (take_frame decode f) c (take_frame-Takes decode f)
        λ g same full shorter open_still. inr (same [] ∙ nothing_pending g full, refl)
  next_item-Nexts (chunk (b ∷ bs) ∷ reads) f c =
      after_frame-Nexts
        (λ g. after_read decode loads (next_item decode loads reads) (chunk (b ∷ bs)) reads g) f
        (chunk (b ∷ bs) ∷ reads) (take_frame decode f) c (take_frame-Takes decode f)
        λ g same full shorter open_still.
          let longer = record g { buf = g.buf ++ (b ∷ bs) } in
          Nexts-trans f longer (chunk (b ∷ bs) ∷ reads) reads (next_item decode loads reads longer)
            (same ((b ∷ bs) ++ body_bytes reads)
              ∙ ap (λ t. dispatched decode g.fields (complete_lines t))
                  (sym (append_assoc g.buf (b ∷ bs) (body_bytes reads))))
            refl (omega (arith, length-append g.buf (b ∷ bs), length-append bs (body_bytes reads)))
            (next_item-Nexts reads longer open_still)

  keep_item-body_end :
      (continue : Feed → List Read → List (FeedItem N) × Option (Step N)) (g : Feed)
      (later reads : List Read)
      → keep_item decode loads continue (g, later, body_end reads) ≡ ([], some (body_end reads))
  unfolding keep_item body_end
  keep_item-body_end continue g later [] = refl
  keep_item-body_end continue g later (failure ∷ reads) = refl
  keep_item-body_end continue g later (chunk [] ∷ reads) = refl
  keep_item-body_end continue g later (chunk (b ∷ bs) ∷ reads) =
      keep_item-body_end continue g later reads

  keep_item-and_item :
      (continue : Feed → List Read → List (FeedItem N) × Option (Step N)) (g : Feed)
      (later : List Read) (s : Step N)
      → keep_item decode loads continue (g, later, s) ≡ and_item s (continue g later)
  unfolding keep_item and_item
  keep_item-and_item continue g later (yields item) = refl
  keep_item-and_item continue g later stop_iteration = refl
  keep_item-and_item continue g later undecodable = refl
  keep_item-and_item continue g later (malformed l) = refl
  keep_item-and_item continue g later read_error = refl

  -- What the loop gives from here on.
  abbrev Gives : Feed → List Read → List (FeedItem N) × Option (Step N) → Type 0
  Gives f reads given =
      given ≡ items_of loads (body_end reads) (pending decode f (body_bytes reads))

  keep_item-Gives :
      (rounds : ℕ) (f : Feed) (reads : List Read) (r : Stepped decode loads)
      → Nexts f reads r
      → ((g : Feed) (later : List Read)
          → g.closed ≡ false
          → size_of g later < size_of f reads
          → Gives g later (for_each decode loads rounds g later))
      → Gives f reads (keep_item decode loads (for_each decode loads rounds) r)
  unfolding items_of
  keep_item-Gives rounds f reads (g, later, s) (inl (d, p, q, e, lt, c)) ih =
      keep_item-and_item (for_each decode loads rounds) g later s
      ∙ ap₂ and_item q (ih g later c lt)
      ∙ ap (λ last. items_of loads last (d ∷ pending decode g (body_bytes later))) (sym e)
      ∙ ap (items_of loads (body_end reads)) (sym p)
  keep_item-Gives rounds f reads (g, later, s) (inr (p, q)) ih =
      ap (λ t. keep_item decode loads (for_each decode loads rounds) (g, later, t)) q
      ∙ keep_item-body_end (for_each decode loads rounds) g later reads
      ∙ ap (items_of loads (body_end reads)) (sym p)

  for_each-open :
      (rounds : ℕ) (f : Feed) (reads : List Read)
      → f.closed ≡ false
      → size_of f reads < rounds
      → for_each decode loads rounds f reads
        ≡ items_of loads (body_end reads) (pending decode f (body_bytes reads))
  unfolding for_each items_of
  for_each-open zero f reads c h = absurd (omega arith)
  for_each-open (suc rounds) f reads c h =
      subst
        (λ b. Gives f reads (
          keep_item decode loads (for_each decode loads rounds)
            (next_item decode loads (if b then [] else reads) f)))
        (sym c)
        (keep_item-Gives rounds f reads (next_item decode loads reads f) (next_item-Nexts reads f c)
          λ g later open_still lt. for_each-open rounds g later open_still (omega arith))

  -- The items that a loop over a new subscription gives, and how it ends, are those of the frames
  -- of the response's whole lines, read one by one with no buffer: how the reads cut the bytes, in
  -- the middle of a line, a line's end or a character, makes no difference. The loop has more
  -- rounds than the response has bytes.
  pub for_each-body_bytes :
      (rounds : ℕ) (reads : List Read)
      → length (body_bytes reads) < rounds
      → for_each decode loads rounds new_feed reads
        ≡ items_of loads
            (body_end reads)
            (dispatched decode no_fields (complete_lines (body_bytes reads)))
  for_each-body_bytes rounds reads h = for_each-open rounds new_feed reads refl (omega arith)
