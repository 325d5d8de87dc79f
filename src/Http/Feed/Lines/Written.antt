-- ===== src/Http/Feed/Lines/Written.antt =====
-- python/src/brain_db_sdk/http/sse.py: events as a server writes them, and that they are read back.
use brain_sdk.Prelude.{
  ℕ, ◌<◌, ◌≡◌, ◌≢◌, refl, sym, ap, ◌∙◌, inl, inr, Bool-cases, Option, none, some, List, [], ◌∷◌,
  ◌++◌, append_assoc, append-nil, All, All-append, ◌==◌, ==_iff, arith,
}
use brain_sdk.Http.Feed.{
  LineFields, Dispatched, event_name, id_name, data_name, strip_returns, keep_unless, before_colon,
  after_colon, skip_space, join_lines, set_field, apply_line, dispatch_frame, read_line,
}
use brain_sdk.Http.Feed.Lines.{lines_after, complete_lines, dispatched, and_frame}

-- A plain character is ASCII and ends no line.
abbrev pub IsPlain : ℕ → Type 0
IsPlain c = (c < 128) × (c ≢ b'\n') × (c ≢ b'\r')

abbrev pub KeepsPlain : (List ℕ → List ℕ) → Type 0
KeepsPlain decode = (l : List ℕ) → All IsPlain l → decode l ≡ l

-- The two ends of a line that servers and proxies write.
pub data LineEnd : Type 0 where
  newline : LineEnd
  return_newline : LineEnd

abbrev pub ended : LineEnd → List ℕ → List ℕ → List ℕ
ended newline l rest = l ++ (b'\n' ∷ rest)
ended return_newline l rest = l ++ (b'\r' ∷ b'\n' ∷ rest)

abbrev pub field_line : List ℕ → List ℕ → List ℕ
field_line name value = name ++ (b':' ∷ b' ' ∷ value)

abbrev pub data_lines : LineEnd → List (List ℕ) → List ℕ → List ℕ
data_lines e [] rest = rest
data_lines e (l ∷ ls) rest = ended e (field_line data_name l) (data_lines e ls rest)

-- An event with its name, its id and the lines of its data, then a blank line.
abbrev pub written : LineEnd → List ℕ → List ℕ → List (List ℕ) → List ℕ → List ℕ
written e name id ls rest =
    ended e (field_line event_name name)
      (ended e (field_line id_name id) (data_lines e ls (ended e [] rest)))

lines_after-ended :
    (open_line l rest : List ℕ)
    → All (λ c. c ≢ b'\n') l
    → lines_after open_line (l ++ (b'\n' ∷ rest)) ≡ (open_line ++ l) ∷ complete_lines rest
unfolding lines_after complete_lines
lines_after-ended open_line [] rest h =
    ap (λ k. k ∷ lines_after [] rest) (sym (append-nil open_line))
lines_after-ended open_line (c ∷ l) rest h = elim (Bool-cases (c == b'\n')) [
  | inl t ↦ absurd (h.0 ((==_iff c b'\n').0 t))
  | inr t ↦ rw t (
      lines_after-ended (open_line ++ (c ∷ [])) l rest h.1
      ∙ ap (λ k. k ∷ lines_after [] rest) (append_assoc open_line (c ∷ []) l))
]

keep_unless-IsPlain : (c : ℕ) (cs : List ℕ) → IsPlain c → keep_unless c cs ≡ c ∷ cs
unfolding keep_unless
keep_unless-IsPlain c [] h = ground arith
keep_unless-IsPlain c (d ∷ cs) h = refl

strip_returns-IsPlain : (l : List ℕ) → All IsPlain l → strip_returns l ≡ l
unfolding strip_returns
strip_returns-IsPlain [] h = refl
strip_returns-IsPlain (c ∷ l) h =
    ap (keep_unless c) (strip_returns-IsPlain l h.1) ∙ keep_unless-IsPlain c l h.0

strip_returns-return : (l : List ℕ) → All IsPlain l → strip_returns (l ++ (b'\r' ∷ [])) ≡ l
unfolding strip_returns keep_unless
strip_returns-return [] h = refl
strip_returns-return (c ∷ l) h =
    ap (keep_unless c) (strip_returns-return l h.1) ∙ keep_unless-IsPlain c l h.0

IsPlain-no_newline : (l : List ℕ) → All IsPlain l → All (λ c. c ≢ b'\n') l
IsPlain-no_newline [] h = tt
IsPlain-no_newline (c ∷ l) h = (h.0.1, IsPlain-no_newline l h.1)

lines-ended :
    (l rest : List ℕ)
    → All (λ c. c ≢ b'\n') l
    → complete_lines (l ++ (b'\n' ∷ rest)) ≡ l ∷ complete_lines rest
unfolding complete_lines
lines-ended l rest h = lines_after-ended [] l rest h

field_line-IsPlain :
    (name value : List ℕ)
    → All IsPlain name
    → All IsPlain value
    → All IsPlain (field_line name value)
field_line-IsPlain name value hn hv =
    All-append IsPlain name (b':' ∷ b' ' ∷ value) hn (omega arith, (omega arith, hv))

module _ (decode : List ℕ → List ℕ) (ascii : KeepsPlain decode) where
  abbrev then_frames : List ℕ → LineFields × Option Dispatched → List Dispatched
  then_frames rest r = and_frame r.1 (dispatched decode r.0 (complete_lines rest))

  -- A plain line is read as it was written.
  dispatched-ended :
      (e : LineEnd) (l rest : List ℕ) (s : LineFields)
      → All IsPlain l
      → dispatched decode s (complete_lines (ended e l rest)) ≡ then_frames rest (apply_line l s)
  unfolding dispatched read_line
  dispatched-ended newline l rest s h =
      ap (dispatched decode s) (lines-ended l rest (IsPlain-no_newline l h))
      ∙ ap (λ k. then_frames rest (apply_line k s))
          (ap decode (strip_returns-IsPlain l h) ∙ ascii l h)
  dispatched-ended return_newline l rest s h =
      ap (λ t. dispatched decode s (complete_lines t))
        (sym (append_assoc l (b'\r' ∷ []) (b'\n' ∷ rest)))
      ∙ ap (dispatched decode s) (
          lines-ended (l ++ (b'\r' ∷ [])) rest
            (All-append (λ c. c ≢ b'\n') l (b'\r' ∷ []) (IsPlain-no_newline l h) (omega arith, tt)))
      ∙ ap (λ k. then_frames rest (apply_line k s))
          (ap decode (strip_returns-return l h) ∙ ascii l h)

  dispatched-event :
      (e : LineEnd) (name rest : List ℕ) (s : LineFields)
      → All IsPlain name
      → dispatched decode s (complete_lines (ended e (field_line event_name name) rest))
        ≡ dispatched decode (record s { event = some name }) (complete_lines rest)
  unfolding apply_line set_field before_colon after_colon skip_space and_frame
  dispatched-event e name rest s h =
      dispatched-ended e (field_line event_name name) rest s
        (field_line-IsPlain event_name name (omega arith) h)

  dispatched-id :
      (e : LineEnd) (id rest : List ℕ) (s : LineFields)
      → All IsPlain id
      → dispatched decode s (complete_lines (ended e (field_line id_name id) rest))
        ≡ dispatched decode (record s { last_id = some id }) (complete_lines rest)
  unfolding apply_line set_field before_colon after_colon skip_space and_frame
  dispatched-id e id rest s h =
      dispatched-ended e (field_line id_name id) rest s
        (field_line-IsPlain id_name id (omega arith) h)

  dispatched-data_lines :
      (e : LineEnd) (ls : List (List ℕ)) (rest : List ℕ) (s : LineFields)
      → All (All IsPlain) ls
      → dispatched decode s (complete_lines (data_lines e ls rest))
        ≡ dispatched decode (record s { lines = s.lines ++ ls }) (complete_lines rest)
  unfolding apply_line set_field before_colon after_colon skip_space and_frame
  dispatched-data_lines e [] rest s h =
      ap (λ ls. dispatched decode (record s { lines = ls }) (complete_lines rest))
        (sym (append-nil s.lines))
  dispatched-data_lines e (l ∷ ls) rest s h =
      dispatched-ended e (field_line data_name l) (data_lines e ls rest) s
        (field_line-IsPlain data_name l (omega arith) h.0)
      ∙ dispatched-data_lines e ls rest (record s { lines = s.lines ++ (l ∷ []) }) h.1
      ∙ ap (λ ls. dispatched decode (record s { lines = ls }) (complete_lines rest))
          (append_assoc s.lines (l ∷ []) ls)

  -- An event that a server writes, with a name, an id and at least one line of data, all of plain
  -- characters, is read as one frame with that name and the lines joined again, and what is behind
  -- it is read with the id kept and nothing else: whichever of the two line ends the server or a
  -- proxy uses. The decoder keeps plain characters as they are, and no line of data is left from
  -- before.
  pub dispatched-written :
      (e : LineEnd) (name id l : List ℕ) (ls : List (List ℕ)) (rest : List ℕ) (s : LineFields)
      → All IsPlain name
      → All IsPlain id
      → All (All IsPlain) (l ∷ ls)
      → s.lines ≡ []
      → dispatched decode s (complete_lines (written e name id (l ∷ ls) rest))
        ≡ record { event = some name; text = join_lines (l ∷ ls) }
          ∷ dispatched decode
              (record { event = none; lines = []; last_id = some id })
              (complete_lines rest)
  unfolding apply_line dispatch_frame and_frame
  dispatched-written e name id l ls rest s hn hi hl fresh =
      dispatched-event e name _ s hn
      ∙ dispatched-id e id _ _ hi
      ∙ dispatched-data_lines e (l ∷ ls) (ended e [] rest) _ hl
      ∙ ap
          (λ ks.
            dispatched decode
              (record { event = some name; lines = ks ++ (l ∷ ls); last_id = some id })
              (complete_lines (ended e [] rest)))
          fresh
      ∙ dispatched-ended e [] rest (record { event = some name; lines = l ∷ ls; last_id = some id })
          tt
