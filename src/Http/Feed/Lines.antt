-- ===== src/Http/Feed/Lines.antt =====
-- python/src/brain_db_sdk/http/sse.py: the frames of a byte string, line by line with no buffer, and that
-- one call of `_take_frame` takes the first of them from the buffer.
pub mod Written
use brain_sdk.Prelude.{
  ℕ, zero, suc, ◌+◌, ◌≤◌, ◌<◌, ◌≡◌, refl, sym, ap, subst, ◌∙◌, ◌⊎◌, inl, inr, Bool, true, false,
  Bool-cases, Option, none, some, Option-cases, append-nil, List, [], ◌∷◌, ◌++◌, length,
  append_assoc, ◌==◌, if◌then◌else◌, arith,
}
use brain_sdk.Http.Feed.{
  Feed, LineFields, Dispatched, cut_line, cut_at, read_line, after_line, after_cut, take_lines,
  take_frame,
}

-- The lines of a byte string that a newline ends, `open_line` being what is read of the first.
pub lines_after : List ℕ → List ℕ → List (List ℕ)
lines_after open_line [] = []
lines_after open_line (b ∷ bs) =
    let ended = open_line ∷ lines_after [] bs in
    let longer = lines_after (open_line ++ (b ∷ [])) bs in if b == b'\n' then ended else longer

unfoldable pub complete_lines : List ℕ → List (List ℕ)
complete_lines bs = lines_after [] bs

unfoldable pub and_frame : Option Dispatched → List Dispatched → List Dispatched
and_frame none ds = ds
and_frame (some d) ds = d ∷ ds

module _ (open_line rest : List ℕ) where
  -- What the lines are if a line and what is behind it were cut off.
  abbrev LinesAre : List (List ℕ) → List ℕ → List ℕ → Type 0
  LinesAre ls line after = ls ≡ (open_line ++ line) ∷ lines_after [] (after ++ rest)

  cut_at-LinesAre :
      (newline : Bool) (b : ℕ) (bs line after : List ℕ) (found : Option (List ℕ × List ℕ))
      → cut_at newline b bs found ≡ some (line, after)
      → ((l r : List ℕ)
          → found ≡ some (l, r)
          → (lines_after (open_line ++ (b ∷ [])) (bs ++ rest)
              ≡ ((open_line ++ (b ∷ [])) ++ l) ∷ lines_after [] (r ++ rest))
            × (length r < length bs))
      → LinesAre
          (if newline
            then open_line ∷ lines_after [] (bs ++ rest)
            else lines_after (open_line ++ (b ∷ [])) (bs ++ rest))
          line
          after
        × (length after < length (b ∷ bs))
  unfolding cut_at
  cut_at-LinesAre true b bs line after found e ih =
      let p : [] ≡ line = cc in
      let q : bs ≡ after = cc in
      rw (← p, ← q)
        (ap (λ l. l ∷ lines_after [] (bs ++ rest)) (sym (append-nil open_line)), omega arith)
  cut_at-LinesAre false b bs line after none e ih = absurd (cc)
  cut_at-LinesAre false b bs line after (some (l, r)) e ih =
      let p : b ∷ l ≡ line = cc in
      let q : r ≡ after = cc in
      rw (← p, ← q)
        (
          (ih l r refl).0
              ∙ ap (λ k. k ∷ lines_after [] (r ++ rest)) (append_assoc open_line (b ∷ []) l),
          omega (arith, (ih l r refl).1),
        )

cut-lines_after :
    (open_line bs rest line after : List ℕ)
    → cut_line bs ≡ some (line, after)
    → LinesAre open_line rest (lines_after open_line (bs ++ rest)) line after
      × (length after < length bs)
unfolding lines_after cut_line
cut-lines_after open_line [] rest line after e = absurd (cc)
cut-lines_after open_line (b ∷ bs) rest line after e =
    cut_at-LinesAre open_line rest (b == b'\n') b bs line after (cut_line bs) e
      λ l r c. cut-lines_after (open_line ++ (b ∷ [])) bs rest l r c

pub cut_none-lines_after :
    (open_line bs : List ℕ) → cut_line bs ≡ none → lines_after open_line bs ≡ []
unfolding lines_after cut_line cut_at
cut_none-lines_after open_line [] e = refl
cut_none-lines_after open_line (b ∷ bs) e = elim (Bool-cases (b == b'\n')) [
  | inl t ↦ absurd (ground (arith, rw t at e))
  | inr t ↦ elim (Option-cases (cut_line bs)) [
    | inl n ↦ rw t (cut_none-lines_after (open_line ++ (b ∷ [])) bs n)
    | inr (a, c) ↦ absurd (ground (arith, rw (t, c) at e))
  ]
]

module _ (decode : List ℕ → List ℕ) where
  -- What the lines dispatch, from what the lines before them set.
  unfoldable pub dispatched : LineFields → List (List ℕ) → List Dispatched
  dispatched s [] = []
  dispatched s (l ∷ ls) = let r = read_line decode l s in and_frame r.1 (dispatched r.0 ls)

  -- The frames of the buffer with further bytes behind it.
  abbrev pub pending : Feed → List ℕ → List Dispatched
  pending f rest = dispatched f.fields (complete_lines (f.buf ++ rest))

  -- A call of `_take_frame` on `f` takes the first of the pending frames, or leaves no full line.
  abbrev pub Takes : Feed → Feed × Option Dispatched → Type 0
  Takes f (g, none) =
      ((rest : List ℕ) → pending f rest ≡ pending g rest)
      × (cut_line g.buf ≡ none)
      × (length g.buf ≤ length f.buf)
      × (g.closed ≡ f.closed)
  Takes f (g, some d) =
      ((rest : List ℕ) → pending f rest ≡ d ∷ pending g rest)
      × (length g.buf < length f.buf)
      × (g.closed ≡ f.closed)

  Takes-trans :
      (f g : Feed) (r : Feed × Option Dispatched)
      → ((rest : List ℕ) → pending f rest ≡ pending g rest)
      → length g.buf < length f.buf
      → g.closed ≡ f.closed
      → Takes g r
      → Takes f r
  Takes-trans f g (h, none) same shorter closed t =
      (λ rest. same rest ∙ t.0 rest, t.1, omega (arith, t.2), t.3 ∙ closed)
  Takes-trans f g (h, some d) same shorter closed t =
      (λ rest. same rest ∙ t.0 rest, omega (arith, t.1), t.2 ∙ closed)

  after_line-Takes :
      (continue : Feed → Feed × Option Dispatched) (f g : Feed) (r : LineFields × Option Dispatched)
      → ((rest : List ℕ)
          → pending f rest ≡ and_frame r.1 (pending (record g { fields = r.0 }) rest))
      → length g.buf < length f.buf
      → g.closed ≡ f.closed
      → Takes (record g { fields = r.0 }) (continue (record g { fields = r.0 }))
      → Takes f (after_line decode continue g r)
  unfolding after_line and_frame
  after_line-Takes continue f g (s, none) same shorter closed later =
      Takes-trans f (record g { fields = s }) (continue (record g { fields = s })) same shorter
        closed later
  after_line-Takes continue f g (s, some d) same shorter closed later = (same, shorter, closed)

  cut_line-empty : (bs : List ℕ) → length bs ≤ 0 → cut_line bs ≡ none
  unfolding cut_line
  cut_line-empty [] h = refl
  cut_line-empty (b ∷ bs) h = absurd (omega arith)

  take_lines-Takes :
      (rounds : ℕ) (f : Feed) → length f.buf ≤ rounds → Takes f (take_lines decode rounds f)
  unfolding take_lines after_cut complete_lines dispatched
  take_lines-Takes zero f h = (λ rest. refl, cut_line-empty f.buf h, omega arith, refl)
  take_lines-Takes (suc rounds) f h = elim (Option-cases (cut_line f.buf)) [
    | inl e ↦
        subst (λ o. Takes f (after_cut decode (take_lines decode rounds) f o)) (sym e)
          (λ rest. refl, e, omega arith, refl)
    | inr ((line, after), e) ↦
        let cut = cut-lines_after [] f.buf [] line after e in
        subst (λ o. Takes f (after_cut decode (take_lines decode rounds) f o)) (sym e)
          (after_line-Takes (take_lines decode rounds) f (record f { buf = after })
            (read_line decode line f.fields)
            (λ rest. ap (dispatched f.fields) (cut-lines_after [] f.buf rest line after e).0)
            (cut.1) refl
            (take_lines-Takes rounds
              (record f { buf = after; fields = (read_line decode line f.fields).0 })
              (omega (arith, cut.1))))
  ]

  pub take_frame-Takes : (f : Feed) → Takes f (take_frame decode f)
  unfolding take_frame
  take_frame-Takes f = take_lines-Takes (length f.buf) f (omega arith)
