-- ===== src/Online/Boundary.antt =====
-- src/engine_runtime/engines/online/text_boundary.py: text that two neighbouring segments share.
pub mod Repair
pub mod Fuel
use funasr_api.Prelude.{
  ℕ, zero, suc, ◌+◌, ◌-◌, ◌==◌, Bool, true, false, ◌&&◌, ◌||◌, not, Option, none, some, List, [],
  ◌∷◌, ◌++◌, map, ltb, leb, if◌then◌else◌, length, take, drop, min,
}
use funasr_api.Prelude.Int.{ℤ, pos, ◌-ℤ◌, ltb_ℤ, leb_ℤ, min_ℤ}
use funasr_api.Prelude.Text.{
  Text, codes, is_in, is_empty, lstrip, rstrip, strip, text_eq, ends_with,
}

abbrev pub boundary_punctuation : Text
boundary_punctuation = codes "，。！？；：、,.!?;:"

abbrev pub repeat_separators : Text
repeat_separators = codes "，,、"

-- `core and core[-1] in BOUNDARY_PUNCTUATION`
unfoldable pub ends_in_punctuation : Text → Bool
unfolding is_in
ends_in_punctuation [] = false
ends_in_punctuation (c ∷ []) = is_in c boundary_punctuation
ends_in_punctuation (c ∷ d ∷ s) = ends_in_punctuation (d ∷ s)

-- The loop of `split_trailing_punctuation`; `drop` gives the last character of the core. A pass
-- shortens the core, so that its length is enough fuel.
unfoldable pub split_loop : ℕ → Text → Text → Text × Text
unfolding ends_in_punctuation rstrip
split_loop zero core punctuation = (core, punctuation)
split_loop (suc fuel) core punctuation =
    let last = length core - 1 in
    let next = split_loop fuel (rstrip (take last core)) (drop last core ++ punctuation) in
    if ends_in_punctuation core then next else (core, punctuation)

unfoldable pub split_trailing_punctuation : Text → Text × Text
unfolding split_loop rstrip
split_trailing_punctuation text = split_loop (length (rstrip text)) (rstrip text) []

unfoldable pub phrase_for_repeat_match : Text → Text
unfolding split_trailing_punctuation strip
phrase_for_repeat_match text = strip (split_trailing_punctuation (strip text)).0

-- The passes of the loop for the sizes `size`, `size - 1`, …, 1.
unfoldable pub remove_overlap : ℕ → ℤ → ℤ → Text → Text → Text → Text → Text
unfolding ends_with rstrip is_empty
remove_overlap zero gap_ms merge_gap_ms previous_text previous_core punctuation current_core =
    previous_text
remove_overlap (suc size) gap_ms merge_gap_ms previous_text previous_core punctuation current_core =
    let shorter =
      remove_overlap size gap_ms merge_gap_ms previous_text previous_core punctuation
        current_core in
    let trimmed = rstrip (take (length previous_core - suc size) previous_core) in
    if suc size == 1 && ltb_ℤ (min_ℤ (pos 600) merge_gap_ms) gap_ms
    then shorter
    else if not (ends_with previous_core (take (suc size) current_core))
    then shorter
    else if is_empty trimmed
    then previous_text
    else trimmed ++ punctuation

unfoldable pub remove_repeated_previous_suffix : Text → Text → ℤ → ℤ → Text
unfolding remove_overlap split_trailing_punctuation lstrip
remove_repeated_previous_suffix previous_text current_text gap_ms merge_gap_ms =
    let previous = split_trailing_punctuation previous_text in
    let current_core = lstrip current_text in
    remove_overlap (min 12 (min (length previous.0) (length current_core))) gap_ms merge_gap_ms
      previous_text previous.0 previous.1 current_core

-- `text.split(separator)`, for a separator of one character.
abbrev pub to_first_part : ℕ → List Text → List Text
to_first_part c [] = (c ∷ []) ∷ []
to_first_part c (part ∷ parts) = (c ∷ part) ∷ parts

unfoldable pub split_at : ℕ → Text → List Text
split_at separator [] = [] ∷ []
split_at separator (c ∷ s) =
    let parts = split_at separator s in if c == separator then [] ∷ parts else to_first_part c parts

-- `separator.join(parts)`
unfoldable pub join_with : ℕ → List Text → Text
join_with separator [] = []
join_with separator (part ∷ []) = part
join_with separator (part ∷ next ∷ parts) = part ++ separator ∷ join_with separator (next ∷ parts)

-- The loop over the parts, after the part that was kept last, whose phrase is `previous`.
unfoldable pub collapse_parts : Text → List Text → List Text
unfolding phrase_for_repeat_match is_empty text_eq
collapse_parts previous [] = []
collapse_parts previous (part ∷ parts) =
    let normalized = phrase_for_repeat_match part in
    let repeated =
      not (is_empty normalized) && text_eq normalized previous && leb (length normalized) 12 in
    let rest = collapse_parts (if repeated then previous else normalized) parts in
    if repeated then rest else part ∷ rest

abbrev pub collapse_at : ℕ → Text → Text
collapse_at separator current =
    let parts = split_at separator current in
    if ltb (length parts) 2 then current else join_with separator (collapse_parts [] parts)

unfoldable pub collapse_each : Text → Text → Text
unfolding split_at join_with collapse_parts
collapse_each [] current = current
collapse_each (separator ∷ separators) current =
    collapse_each separators (collapse_at separator current)

unfoldable pub collapse_adjacent_repeated_phrases : Text → Text
unfolding collapse_each strip
collapse_adjacent_repeated_phrases text = strip (collapse_each repeat_separators text)

-- With times that are integers, so that the subtraction does not raise.
unfoldable pub repair_previous_boundary_overlap : Text → ℤ → Text → ℤ → ℤ → Text × Text
unfolding remove_repeated_previous_suffix strip is_empty
repair_previous_boundary_overlap previous_text previous_end_ms current_text current_start_ms
      merge_gap_ms =
    let current = strip current_text in
    let gap_ms = current_start_ms -ℤ previous_end_ms in
    if is_empty current
    then (previous_text, current)
    else if ltb_ℤ gap_ms (pos 0) || ltb_ℤ merge_gap_ms gap_ms
    then (previous_text, current)
    else (remove_repeated_previous_suffix previous_text current gap_ms merge_gap_ms, current)
