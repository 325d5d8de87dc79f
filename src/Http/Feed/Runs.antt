-- ===== src/Http/Feed/Runs.antt =====
-- The change feed at concrete bytes; a text is its bytes, and every text of data is the number 7.
use brain_sdk.Prelude.{ℕ, ◌≡◌, refl, Option, none, some, List, [], ◌∷◌, arith}
use brain_sdk.Http.Json.{Json, number, object, end, entry}
use brain_sdk.Http.Feed.{
  new_feed, no_fields, cut_line, cut_at, strip_returns, keep_unless, before_colon, after_colon,
  skip_space, join_lines, set_field, apply_line, dispatch_frame, read_line, after_line, after_cut,
  take_lines, take_frame, close_feed,
}
use brain_sdk.Http.Feed.Lines.{complete_lines, dispatched}
use brain_sdk.Http.Feed.Lines.Written.{return_newline, written, dispatched-written}
use brain_sdk.Http.Feed.Items.{
  closing, Read, chunk, failure, read_error, for_each, next_item, decode_frame_item,
  closed_from_dict, closed_name,
}
use brain_sdk.Http.Feed.Items.Chunks.{body_bytes, body_end, items_of, for_each-body_bytes}

abbrev as_it_is : List ℕ → List ℕ
as_it_is l = l

-- Every text is read as the last item of a feed, at position 7.
abbrev closed_payload : List ℕ → Option (Json ℕ)
closed_payload l = some (object (entry "final_lsn" (number 7) (entry "reason" (number 1) end)))

abbrev closing_bytes : List ℕ
closing_bytes = written return_newline closed_name (b'7' ∷ []) ((b'x' ∷ []) ∷ []) []

dispatched-written_example :
    dispatched as_it_is no_fields (
      complete_lines
        (written return_newline closed_name (b'7' ∷ []) ((b'x' ∷ []) ∷ []) (b':' ∷ [])))
    ≡ record { event = some closed_name; text = join_lines ((b'x' ∷ []) ∷ []) }
      ∷ dispatched as_it_is
          (record { event = none; lines = []; last_id = some (b'7' ∷ []) })
          (complete_lines (b':' ∷ []))
dispatched-written_example =
    dispatched-written as_it_is (λ l h. refl) return_newline closed_name (b'7' ∷ []) (b'x' ∷ []) []
      (b':' ∷ []) no_fields (omega arith) (omega arith) (omega arith) refl

-- The first read ends within a line.
abbrev reads : List Read
reads =
    chunk (b'd' ∷ []) ∷ chunk (b'a' ∷ b't' ∷ b'a' ∷ b':' ∷ b'x' ∷ b'\n' ∷ b'\n' ∷ []) ∷ failure ∷ []

for_each-body_bytes_example :
    for_each as_it_is closed_payload 20 new_feed reads
    ≡ items_of closed_payload
        (body_end reads)
        (dispatched as_it_is no_fields (complete_lines (body_bytes reads)))
unfolding body_bytes
for_each-body_bytes_example = for_each-body_bytes as_it_is closed_payload 20 reads (omega arith)

closed_item :
    for_each as_it_is closed_payload 40 new_feed (chunk closing_bytes ∷ failure ∷ [])
    ≡ (closing (record { final_lsn = number 7; reason = number 1 }) ∷ [], some read_error)
unfolding for_each next_item take_frame take_lines after_cut cut_line cut_at after_line read_line
    apply_line dispatch_frame set_field before_colon after_colon skip_space strip_returns
    keep_unless join_lines decode_frame_item closed_from_dict close_feed
closed_item = refl
