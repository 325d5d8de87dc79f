-- ===== src/Http/Feed.antt =====
-- python/src/brain_db_sdk/http/sse.py: the change feed over Server-Sent Events. A byte or a character is
-- a number, and a text is the list of its characters. The response body is the list of what each
-- `read` does; behind it, and on a response that is closed, `read` returns nothing.
pub mod Items
pub mod Lines
mod Runs
use brain_sdk.Prelude.{
  ℕ, zero, suc, Bool, true, false, Option, none, some, List, [], ◌∷◌, ◌++◌, length, ◌==◌,
  if◌then◌else◌,
}
use brain_sdk.Prelude.Bytes.{bytes_eq}

-- `_Frame`: one dispatched SSE frame, before it is decoded.
pub record Dispatched : Type 0 where
  pub event : Option (List ℕ)
  pub text : List ℕ

-- What the lines so far set.
pub record LineFields : Type 0 where
  pub event : Option (List ℕ)
  pub lines : List (List ℕ)
  pub last_id : Option (List ℕ)

pub record Feed : Type 0 where
  pub buf : List ℕ
  pub fields : LineFields
  pub closed : Bool

abbrev pub no_fields : LineFields
no_fields = record { event = none; lines = []; last_id = none }

abbrev pub new_feed : Feed
new_feed = record { buf = []; fields = no_fields; closed = false }

pub close_feed : Feed → Feed
close_feed f = record f { closed = true }

-- `split(b"\n", 1)`, where there is a newline.
cut_at : Bool → ℕ → List ℕ → Option (List ℕ × List ℕ) → Option (List ℕ × List ℕ)
cut_at true b bs found = some ([], bs)
cut_at false b bs none = none
cut_at false b bs (some (line, rest)) = some (b ∷ line, rest)

unfoldable pub cut_line : List ℕ → Option (List ℕ × List ℕ)
unfolding cut_at
cut_line [] = none
cut_line (b ∷ bs) = cut_at (b == b'\n') b bs (cut_line bs)

-- `rstrip(b"\r")`
keep_unless : ℕ → List ℕ → List ℕ
keep_unless c [] = if c == b'\r' then [] else c ∷ []
keep_unless c (d ∷ ds) = c ∷ d ∷ ds

unfoldable pub strip_returns : List ℕ → List ℕ
unfolding keep_unless
strip_returns [] = []
strip_returns (c ∷ cs) = keep_unless c (strip_returns cs)

-- `partition(":")`: what is before the first colon, and what is behind it.
unfoldable pub before_colon : List ℕ → List ℕ
before_colon [] = []
before_colon (c ∷ cs) = if c == b':' then [] else c ∷ before_colon cs

unfoldable pub after_colon : List ℕ → List ℕ
after_colon [] = []
after_colon (c ∷ cs) = if c == b':' then cs else after_colon cs

-- `removeprefix(" ")`
unfoldable pub skip_space : List ℕ → List ℕ
skip_space [] = []
skip_space (c ∷ cs) = if c == b' ' then cs else c ∷ cs

-- `"\n".join(lines)`
unfoldable pub join_lines : List (List ℕ) → List ℕ
join_lines [] = []
join_lines (l ∷ []) = l
join_lines (l ∷ k ∷ ls) = l ++ (b'\n' ∷ join_lines (k ∷ ls))

abbrev pub event_name : List ℕ
event_name = b'e' ∷ b'v' ∷ b'e' ∷ b'n' ∷ b't' ∷ []

abbrev pub id_name : List ℕ
id_name = b'i' ∷ b'd' ∷ []

abbrev pub data_name : List ℕ
data_name = b'd' ∷ b'a' ∷ b't' ∷ b'a' ∷ []

unfoldable pub set_field : List ℕ → List ℕ → LineFields → LineFields
set_field name value s =
    if bytes_eq name event_name
    then record s { event = some value }
    else if bytes_eq name id_name
    then record s { last_id = some value }
    else if bytes_eq name data_name
    then record s { lines = s.lines ++ (value ∷ []) }
    else s

-- A blank line.
dispatch_frame : List (List ℕ) → LineFields → LineFields × Option Dispatched
dispatch_frame [] s = (record s { event = none }, none)
dispatch_frame (l ∷ ls) s = (
  record s { event = none; lines = [] },
  some (record { event = s.event; text = join_lines (l ∷ ls) }),
)

-- One decoded line.
unfoldable pub apply_line : List ℕ → LineFields → LineFields × Option Dispatched
unfolding dispatch_frame
apply_line [] s = dispatch_frame s.lines s
apply_line (c ∷ cs) s =
    if c == b':'
    then (s, none)
    else (set_field (before_colon (c ∷ cs)) (skip_space (after_colon (c ∷ cs))) s, none)

-- `decode("utf-8", "replace")` is the library's.
module _ (decode : List ℕ → List ℕ) where
  unfoldable pub read_line : List ℕ → LineFields → LineFields × Option Dispatched
  read_line raw = apply_line (decode (strip_returns raw))

  -- The loop ends with the buffer's lines; `continue` is its next round.
  after_line :
      (Feed → Feed × Option Dispatched)
      → Feed
      → LineFields × Option Dispatched
      → Feed × Option Dispatched
  after_line continue f (s, none) = continue (record f { fields = s })
  after_line continue f (s, some d) = (record f { fields = s }, some d)

  after_cut :
      (Feed → Feed × Option Dispatched) → Feed → Option (List ℕ × List ℕ) → Feed × Option Dispatched
  after_cut continue f none = (f, none)
  after_cut continue f (some (raw, rest)) =
      after_line continue (record f { buf = rest }) (read_line raw f.fields)

  unfoldable pub take_lines : ℕ → Feed → Feed × Option Dispatched
  unfolding after_cut after_line
  take_lines zero f = (f, none)
  take_lines (suc rounds) f = after_cut (take_lines rounds) f (cut_line f.buf)

  -- Each round takes at least the newline from the buffer.
  unfoldable pub take_frame : Feed → Feed × Option Dispatched
  take_frame f = take_lines (length f.buf) f
