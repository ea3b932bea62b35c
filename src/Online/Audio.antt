-- ===== src/Online/Audio.antt =====
-- src/engine_runtime/engines/online/audio_buffer.py: the samples of a stream in chunks, with
-- absolute offsets. A sample is a value of any type: the buffer never reads one.
pub mod Slices
pub mod Recording
use funasr_api.Prelude.{
  ℕ, ◌+◌, ◌-◌, Bool, true, false, ◌||◌, not, List, [], ◌∷◌, ◌++◌, ltb, leb, if◌then◌else◌, length,
  take, drop, min, max,
}

pub record Buffer {ℓ} (A : Type ℓ) : Type ℓ where
  pub start_sample : ℕ
  pub total_samples : ℕ
  pub chunks : List (List A)

abbrev pub has_items {ℓ} : {A : Type ℓ} → List A → Bool
has_items [] = false
has_items (x ∷ xs) = true

module _ {ℓ} {A : Type ℓ} where
  abbrev pub reset : Buffer A
  reset = record { start_sample = 0; total_samples = 0; chunks = [] }

  unfoldable pub replace : List A → Buffer A
  replace audio = record {
    start_sample = 0;
    total_samples = length audio;
    chunks = if has_items audio then audio ∷ [] else [];
  }

  unfoldable pub append : List A → Buffer A → Buffer A
  append audio b =
      if has_items audio
      then record b {
        chunks = b.chunks ++ audio ∷ [];
        total_samples = b.total_samples + length audio;
      }
      else b

  -- `chunk[i:j]`, for indices that are not negative.
  abbrev pub cut : ℕ → ℕ → List A → List A
  cut i j chunk = take (j - i) (drop i chunk)

  -- The loop of `slice`, from the offset `current` of the first chunk, with the pieces joined.
  -- The subtractions on ℕ stop at 0 as `max(…, 0)` does; at the others the tests before
  -- make sure that nothing is cut off.
  unfoldable pub collect : ℕ → ℕ → ℕ → List (List A) → List A
  collect start end current [] = []
  collect start end current (chunk ∷ chunks) =
      let chunk_end = current + length chunk in
      let rest = collect start end chunk_end chunks in
      if leb chunk_end start
      then rest
      else if leb end current
      then []
      else let local_start = start - current in
        let local_end = min (end - current) (length chunk) in
        if ltb local_start local_end then cut local_start local_end chunk ++ rest else rest

  unfoldable pub slice : ℕ → ℕ → Buffer A → List A
  unfolding collect
  slice start_sample end_sample b =
      let start = max start_sample b.start_sample in
      let end = min end_sample b.total_samples in
      if leb end start then [] else collect start end b.start_sample b.chunks

  -- The loop of `drop_before`: the chunks that are left.
  unfoldable pub drop_chunks : ℕ → ℕ → List (List A) → List (List A)
  drop_chunks target current [] = []
  drop_chunks target current (chunk ∷ chunks) =
      let chunk_end = current + length chunk in
      let rest = drop_chunks target chunk_end chunks in
      if leb chunk_end target
      then rest
      else if ltb current target
      then drop (target - current) chunk ∷ rest
      else chunk ∷ rest

  unfoldable pub drop_before : ℕ → Buffer A → Buffer A
  unfolding drop_chunks
  drop_before sample_index b =
      let target = max b.start_sample (min sample_index b.total_samples) in
      if leb target b.start_sample || not (has_items b.chunks)
      then b
      else record b { chunks = drop_chunks target b.start_sample b.chunks; start_sample = target }
